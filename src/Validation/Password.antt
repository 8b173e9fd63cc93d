-- ===== src/Validation/Password.antt =====
-- validatePassword of mu-auth/src/auth/services/user-registration-validation.service.ts.
pub mod Policy
use anticipation.Base.{
  ℕ, ◌+◌, ◌-◌, List, [], ◌∷◌, Bool, true, false, ◌&&◌, ◌||◌, leb, ltb, any, all, is_nil, length,
  if◌then◌else◌, min,
}
use anticipation.Validation.Text.{
  Text, codes, is_upper, is_lower, is_digit, is_special, includes, has_run,
}

pub data PasswordError : Type 0 where
  password_required too_long needs_upper needs_lower needs_digit needs_special : PasswordError
  common_word repeated_char only_letters_or_digits : PasswordError
  too_short : ℕ → PasswordError

pub data Suggestion : Type 0 where
  add_upper add_lower add_digit add_special : Suggestion

pub record PasswordResult : Type 0 where
  pub valid : Bool
  pub errors : List PasswordError
  pub suggestions : List Suggestion
  pub score : ℕ

abbrev pub common_passwords : List Text
common_passwords =
    codes "password"
    ∷ codes "123456"
    ∷ codes "123456789"
    ∷ codes "qwerty"
    ∷ codes "abc123"
    ∷ codes "password123"
    ∷ codes "admin"
    ∷ codes "letmein"
    ∷ codes "welcome"
    ∷ codes "monkey"
    ∷ []

-- `if (b) list.push(x)`, before what is pushed later.
abbrev pub push_if {ℓ} : {A : Type ℓ} → Bool → A → List A → List A
push_if b x later = if b then x ∷ later else later

abbrev pub is_letter : ℕ → Bool
is_letter c = is_lower c || is_upper c

-- The tests of the method, in its order.
pub record Findings : Type 0 where
  pub short : Bool
  pub long : Bool
  pub no_upper : Bool
  pub no_lower : Bool
  pub no_digit : Bool
  pub no_special : Bool
  pub common : Bool
  pub repeated : Bool
  pub uniform : Bool

abbrev not_any : (ℕ → Bool) → Text → Bool
not_any p s = if any p s then false else true

abbrev all_of : (ℕ → Bool) → Text → Bool
all_of p s = if is_nil s then false else all p s

pub examine : (Text → Text) → ℕ → Text → Findings
examine to_lower min_length password = record {
  short = ltb (length password) min_length;
  long = ltb 128 (length password);
  no_upper = not_any is_upper password;
  no_lower = not_any is_lower password;
  no_digit = not_any is_digit password;
  no_special = not_any is_special password;
  common = any (λ word. includes (to_lower password) word) common_passwords;
  repeated = has_run password;
  uniform = all_of is_letter password || all_of is_digit password;
}

pub errors_of : ℕ → Findings → List PasswordError
errors_of min_length f = push_if f.short (too_short min_length) (
    push_if f.long too_long (
      push_if f.no_upper needs_upper (
        push_if f.no_lower needs_lower (
          push_if f.no_digit needs_digit (
            push_if f.no_special needs_special (
              push_if f.common common_word (
                push_if f.repeated repeated_char
                  (push_if f.uniform only_letters_or_digits []))))))))

pub suggestions_of : Findings → List Suggestion
suggestions_of f = push_if f.no_upper add_upper (
    push_if f.no_lower add_lower
      (push_if f.no_digit add_digit (push_if f.no_special add_special [])))

abbrev points : Bool → ℕ → ℕ
points b n = if b then 0 else n

-- `Math.max(0, score - n)` is subtraction that stops at 0.
abbrev penalty : Bool → ℕ → ℕ → ℕ
penalty b n score = if b then score - n else score

pub class_score : Findings → ℕ
class_score f =
    points f.short 20
    + points f.no_upper 20
    + points f.no_lower 20
    + points f.no_digit 20
    + points f.no_special 20

pub penalised_score : Findings → ℕ
unfolding class_score
penalised_score f =
    penalty f.uniform 30 (penalty f.repeated 20 (penalty f.common 40 (class_score f)))

abbrev count_classes : Findings → ℕ
count_classes f =
    points f.no_lower 1 + points f.no_upper 1 + points f.no_digit 1 + points f.no_special 1

pub final_score : Findings → ℕ → ℕ
unfolding penalised_score
final_score f n = min 100 (
    penalised_score f
    + points (ltb n 12) 10
    + points (ltb n 16) 10
    + points (ltb (count_classes f) 4) 10)

unfoldable pub validate_password : (Text → Text) → ℕ → Text → PasswordResult
unfolding examine errors_of suggestions_of final_score
validate_password to_lower min_length [] = record {
  valid = false;
  errors = password_required ∷ [];
  suggestions = [];
  score = 0;
}
validate_password to_lower min_length (c ∷ s) =
    let f = examine to_lower min_length (c ∷ s) in
    let errors = errors_of min_length f in
    record {
      valid = is_nil errors;
      errors = errors;
      suggestions = suggestions_of f;
      score = final_score f (length (c ∷ s));
    }
