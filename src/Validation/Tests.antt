-- ===== src/Validation/Tests.antt =====
-- Runs of the registration rules, and their theorems at concrete data.
use anticipation.Base.{◌≡◌, ◌≢◌, ◌↔◌, refl, true, false, [], none, some}
use anticipation.Validation.Text.{
  Text, codes, is_upper, is_lower, is_digit, is_special, includes, has_run, trim, ascii_lower,
  is_line_end, ends_with,
}
use anticipation.Validation.Text.Trim.{ascii_lower-ascii_lower, trim-ascii_lower}
use anticipation.Validation.Password.{validate_password}
use anticipation.Validation.Password.Policy.{IsAcceptable, validate_password-valid_iff}
use anticipation.Validation.Username.{validate_username, same}
use anticipation.Validation.Username.Rules.{IsAccount, validate_username-valid_iff}
use anticipation.Validation.Email.{
  validate_email, matches_email, matches_domain, local_part, domain_part,
}
use anticipation.Validation.Email.Rules.{IsMailbox, validate_email-valid_iff}
use anticipation.Validation.Registration.{
  RegistrationInput, validate_registration, sanitize_registration,
}
use anticipation.Validation.Registration.Verdict.{
  IsRegistrable, validate_registration-valid_iff, validate-sanitize,
}

abbrev strong : Text
strong = codes "Sun!flower42"

abbrev weak : Text
weak = codes "Passssword1"

strong_valid : (validate_password ascii_lower 8 strong).valid ≡ true
unfolding validate_password is_upper is_lower is_digit is_special includes has_run ascii_lower
    is_line_end
strong_valid = refl

weak_invalid : (validate_password ascii_lower 8 weak).valid ≡ false
unfolding validate_password is_upper is_lower is_digit is_special includes has_run ascii_lower
    is_line_end
weak_invalid = refl

validate_password-valid_iff_example :
    ((validate_password ascii_lower 8 strong).valid ≡ true) ↔ IsAcceptable ascii_lower 8 strong
validate_password-valid_iff_example = validate_password-valid_iff ascii_lower 8 strong

-- The minimum of three that `getUsernamePolicy` and the form announce is not the validator's.
three_letters_refused : (validate_username ascii_lower (codes "bob")).valid ≡ false
unfolding validate_username includes ends_with same trim ascii_lower is_lower is_digit
three_letters_refused = refl

validate_username-valid_iff_example :
    ((validate_username ascii_lower (codes " Ada_Lovelace ")).valid ≡ true)
    ↔ ((codes " Ada_Lovelace " ≢ []) × IsAccount (ascii_lower (trim (codes " Ada_Lovelace "))))
validate_username-valid_iff_example =
    validate_username-valid_iff ascii_lower (codes " Ada_Lovelace ")

ada_valid : (validate_username ascii_lower (codes " Ada_Lovelace ")).valid ≡ true
unfolding validate_username includes ends_with same trim ascii_lower is_lower is_digit
ada_valid = refl

ada_mail_valid : (validate_email ascii_lower (codes "Ada.L@Example.org")).valid ≡ true
unfolding validate_email includes ends_with same trim ascii_lower is_lower is_digit matches_email
    matches_domain local_part domain_part is_upper
ada_mail_valid = refl

validate_email-valid_iff_example :
    ((validate_email ascii_lower (codes "Ada.L@Example.org")).valid ≡ true) ↔ (
      (codes "Ada.L@Example.org" ≢ []) × IsMailbox (ascii_lower (trim (codes "Ada.L@Example.org"))))
validate_email-valid_iff_example = validate_email-valid_iff ascii_lower (codes "Ada.L@Example.org")

abbrev ada : RegistrationInput
ada = record {
  username = codes " Ada_Lovelace ";
  email = codes "Ada.L@Example.org";
  password = strong;
  first_name = some (codes "Ada");
  last_name = none;
}

validate_registration-valid_iff_example :
    ((validate_registration ascii_lower 8 ada).valid ≡ true) ↔ IsRegistrable ascii_lower 8 ada
validate_registration-valid_iff_example = validate_registration-valid_iff ascii_lower 8 ada

validate-sanitize_example :
    ((validate_registration ascii_lower 8 (sanitize_registration ascii_lower 8 ada)).valid ≡ true)
    ↔ ((validate_registration ascii_lower 8 ada).valid ≡ true)
unfolding ascii_lower trim
validate-sanitize_example =
    validate-sanitize ascii_lower 8 ada refl ascii_lower-ascii_lower trim-ascii_lower
