-- ===== src/Validation/Username.antt =====
-- validateUsername of mu-auth/src/auth/services/user-registration-validation.service.ts.
pub mod Rules
use anticipation.Base.{
  ℕ, List, [], ◌∷◌, ◌++◌, Bool, true, false, ◌&&◌, ◌||◌, ltb, ◌==◌, any, all, is_nil, length,
  if◌then◌else◌,
}
use anticipation.Validation.Text.{
  Text, codes, is_lower, is_digit, includes, ends_with, trim, ascii_lower,
}
use anticipation.Validation.Password.{push_if}

pub data UsernameError : Type 0 where
  username_required too_short too_long bad_format bad_separators reserved forbidden : UsernameError

pub record UsernameResult : Type 0 where
  pub valid : Bool
  pub available : Bool
  pub errors : List UsernameError
  pub suggestions : List Text

abbrev pub reserved_names : List Text
reserved_names =
    codes "admin"
    ∷ codes "administrator"
    ∷ codes "root"
    ∷ codes "system"
    ∷ codes "user"
    ∷ codes "test"
    ∷ codes "demo"
    ∷ codes "api"
    ∷ codes "www"
    ∷ codes "mail"
    ∷ codes "email"
    ∷ codes "support"
    ∷ codes "help"
    ∷ codes "info"
    ∷ codes "contact"
    ∷ codes "null"
    ∷ codes "undefined"
    ∷ codes "false"
    ∷ codes "true"
    ∷ codes "error"
    ∷ codes "success"
    ∷ []

-- [a-z0-9_-]
abbrev pub is_username_char : ℕ → Bool
is_username_char c = is_lower c || is_digit c || c == b'_' || c == b'-'

-- Equality of texts.
unfoldable pub same : Text → Text → Bool
same [] [] = true
same (x ∷ s) (y ∷ t) = x == y && same s t
same _ _ = false

abbrev pub starts : ℕ → Text → Bool
starts x [] = false
starts x (c ∷ s) = x == c

abbrev pub not_empty_all : (ℕ → Bool) → Text → Bool
not_empty_all p s = if is_nil s then false else all p s

-- /_{2,}|^_|_$|-{2,}|^-|-$/
pub has_bad_separator : Text → Bool
has_bad_separator s =
    includes s (codes "__")
    || starts b'_' s
    || ends_with b'_' s
    || includes s (codes "--")
    || starts b'-' s
    || ends_with b'-' s

-- One of the forbidden patterns; the three words are matched without regard to case.
pub is_forbidden : Text → Bool
is_forbidden s =
    not_empty_all is_digit s
    || includes (ascii_lower s) (codes "admin")
    || includes (ascii_lower s) (codes "test")
    || includes (ascii_lower s) (codes "temp")

pub username_errors : Text → List UsernameError
unfolding has_bad_separator is_forbidden
username_errors clean = push_if (ltb (length clean) 4) too_short (
    push_if (ltb 30 (length clean)) too_long (
      push_if (if not_empty_all is_username_char clean then false else true) bad_format (
        push_if (has_bad_separator clean) bad_separators (
          push_if (any (same clean) reserved_names) reserved
            (push_if (is_forbidden clean) forbidden [])))))

pub username_suggestions : Text → List Text
username_suggestions clean =
    if any (same clean) reserved_names
    then (clean ++ codes "123") ∷ (codes "my_" ++ clean) ∷ (clean ++ codes "_user") ∷ []
    else []

unfoldable pub validate_username : (Text → Text) → Text → UsernameResult
unfolding username_errors username_suggestions
validate_username to_lower [] = record {
  valid = false;
  available = false;
  errors = username_required ∷ [];
  suggestions = [];
}
validate_username to_lower (c ∷ s) =
    let clean = to_lower (trim (c ∷ s)) in
    let errors = username_errors clean in
    record {
      valid = is_nil errors;
      available = is_nil errors;
      errors = errors;
      suggestions = username_suggestions clean;
    }
