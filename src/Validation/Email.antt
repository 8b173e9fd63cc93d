-- ===== src/Validation/Email.antt =====
-- validateEmail of mu-auth/src/auth/services/user-registration-validation.service.ts.
pub mod Address
pub mod Rules
use anticipation.Base.{
  ℕ, List, [], ◌∷◌, Bool, true, false, ◌&&◌, ◌||◌, ltb, ◌==◌, any, all, is_nil, length,
  if◌then◌else◌,
}
use anticipation.Validation.Text.{
  Text, codes, is_upper, is_lower, is_digit, is_space, includes, ends_with, trim,
}
use anticipation.Validation.Password.{push_if}
use anticipation.Validation.Username.{same, starts}

pub data EmailError : Type 0 where
  email_required bad_format too_long local_too_long domain_too_long : EmailError
  bad_local_chars double_dot edge_dot disposable : EmailError

pub record EmailResult : Type 0 where
  pub valid : Bool
  pub available : Bool
  pub deliverable : Bool
  pub errors : List EmailError

-- [^\s@]
abbrev pub is_plain : ℕ → Bool
is_plain c = if is_space c then false else if c == b'@' then false else true

dot_before_end : Text → Bool
dot_before_end [] = false
dot_before_end (c ∷ []) = false
dot_before_end (c ∷ d ∷ s) = c == b'.' || dot_before_end (d ∷ s)

-- [^\s@]+\.[^\s@]+
unfoldable pub matches_domain : Text → Bool
unfolding dot_before_end
matches_domain [] = false
matches_domain (c ∷ s) = all is_plain (c ∷ s) && dot_before_end s

-- /^[^\s@]+@[^\s@]+\.[^\s@]+$/, where `begun` says that a code unit stands before.
unfoldable pub matches_email : Bool → Text → Bool
unfolding matches_domain
matches_email begun [] = false
matches_email begun (c ∷ s) =
    if c == b'@'
    then begun && matches_domain s
    else if is_space c
    then false
    else matches_email true s

-- `split('@')[0]` and, behind an '@', `split('@')[1]`; the source skips its tests of a part that
-- is missing or empty, and the empty text stands for both.
unfoldable pub local_part : Text → Text
local_part [] = []
local_part (c ∷ s) = if c == b'@' then [] else c ∷ local_part s

unfoldable pub domain_part : Text → Text
unfolding local_part
domain_part [] = []
domain_part (c ∷ s) = if c == b'@' then local_part s else domain_part s

-- [a-zA-Z0-9._%+-]
abbrev pub is_local_char : ℕ → Bool
is_local_char c =
    is_lower c
    || is_upper c
    || is_digit c
    || any (λ d. d == c) (b'.' ∷ b'_' ∷ b'%' ∷ b'+' ∷ b'-' ∷ [])

abbrev pub disposable_domains : List Text
disposable_domains =
    codes "10minutemail.com"
    ∷ codes "guerrillamail.com"
    ∷ codes "mailinator.com"
    ∷ codes "tempmail.org"
    ∷ codes "temp-mail.org"
    ∷ []

abbrev pub unless_empty : Text → Bool → Bool
unless_empty s b = if is_nil s then false else b

pub email_errors : Text → List EmailError
email_errors clean =
    let local = local_part clean in
    let domain = domain_part clean in
    push_if (if matches_email false clean then false else true) bad_format (
      push_if (ltb 254 (length clean)) too_long (
        push_if (unless_empty local (ltb 64 (length local))) local_too_long (
          push_if (unless_empty domain (ltb 253 (length domain))) domain_too_long (
            push_if (unless_empty local (if all is_local_char local then false else true))
              bad_local_chars
              (push_if (unless_empty local (includes local (codes ".."))) double_dot (
                push_if (unless_empty local (starts b'.' local || ends_with b'.' local)) edge_dot (
                  push_if (unless_empty domain (any (same domain) disposable_domains)) disposable
                    [])))))))

unfoldable pub validate_email : (Text → Text) → Text → EmailResult
unfolding email_errors
validate_email to_lower [] = record {
  valid = false;
  available = false;
  deliverable = false;
  errors = email_required ∷ [];
}
validate_email to_lower (c ∷ s) =
    let errors = email_errors (to_lower (trim (c ∷ s))) in
    record {
      valid = is_nil errors;
      available = is_nil errors;
      deliverable = is_nil errors;
      errors = errors;
    }
