-- ===== src/Validation/Registration.antt =====
-- validateRegistrationData, sanitizeRegistrationData and isRegistrationAllowed of
-- mu-auth/src/auth/services/user-registration-validation.service.ts.
pub mod Verdict
use anticipation.Base.{
  ℕ, List, [], ◌∷◌, ◌++◌, Bool, true, false, ◌&&◌, is_nil, if◌then◌else◌, map, Option, none, some,
}
use anticipation.Validation.Text.{Text, trim}
use anticipation.Validation.Password.{PasswordError, validate_password, push_if}
use anticipation.Validation.Username.{UsernameError, validate_username, same}
use anticipation.Validation.Email.{EmailError, validate_email, local_part}

pub record RegistrationInput : Type 0 where
  pub username : Text
  pub email : Text
  pub password : Text
  pub first_name : Option Text
  pub last_name : Option Text

pub data RegistrationError : Type 0 where
  username_error : UsernameError → RegistrationError
  email_error : EmailError → RegistrationError
  password_error : PasswordError → RegistrationError

pub data Warning : Type 0 where
  blank_first_name blank_last_name username_is_local_part : Warning

pub record ValidationResult : Type 0 where
  pub valid : Bool
  pub errors : List RegistrationError
  pub warnings : List Warning

-- `value && value.trim().length === 0`
abbrev pub is_blank : Option Text → Bool
is_blank none = false
is_blank (some s) = if is_nil s then false else is_nil (trim s)

abbrev pub errors_unless {ℓ} : {A : Type ℓ} → Bool → List A → List A
errors_unless valid errors = if valid then [] else errors

abbrev pub both_given : Text → Text → Bool
both_given s t = if is_nil s then false else if is_nil t then false else true

module _ (to_lower : Text → Text) (min_length : ℕ) where
  pub registration_errors : RegistrationInput → List RegistrationError
  registration_errors input =
      let username = validate_username to_lower input.username in
      let email = validate_email to_lower input.email in
      let password = validate_password to_lower min_length input.password in
      errors_unless username.valid (map username_error username.errors)
      ++ (errors_unless email.valid (map email_error email.errors)
          ++ errors_unless password.valid (map password_error password.errors))

  pub registration_warnings : RegistrationInput → List Warning
  registration_warnings input = push_if (is_blank input.first_name) blank_first_name (
      push_if (is_blank input.last_name) blank_last_name (
        push_if
          (both_given input.username input.email
            && same (to_lower input.username) (to_lower (local_part input.email)))
          username_is_local_part []))

  pub validate_registration : RegistrationInput → ValidationResult
  unfolding registration_errors registration_warnings
  validate_registration input =
      let errors = registration_errors input in
      record { valid = is_nil errors; errors = errors; warnings = registration_warnings input }

  abbrev trimmed : Option Text → Option Text
  trimmed none = some []
  trimmed (some s) = some (trim s)

  pub sanitize_registration : RegistrationInput → RegistrationInput
  sanitize_registration input = record {
    username = to_lower (trim input.username);
    email = to_lower (trim input.email);
    password = input.password;
    first_name = trimmed input.first_name;
    last_name = trimmed input.last_name;
  }

-- The two flags are `REGISTRATION_ENABLED` and `MAINTENANCE_MODE`.
pub is_registration_allowed : Bool → Bool → Bool
is_registration_allowed enabled maintenance =
    if maintenance then false else if enabled then true else false
