-- ===== src/Validation/Registration/Verdict.antt =====
-- When a registration is accepted, and that cleaning the data first changes no verdict.
use anticipation.Base.{
  ℕ, ◌≡◌, ◌≢◌, ◌↔◌, ap, sym, ◌∙◌, length, refl, [], ◌∷◌, ◌++◌, Bool, true, false, is_nil, List, map,
  arith,
}
use anticipation.Validation.Text.Trim.{trim-trim}
use anticipation.Validation.Text.{Text, trim}
use anticipation.Validation.Password.{validate_password}
use anticipation.Validation.Password.Policy.{IsAcceptable, validate_password-valid_iff}
use anticipation.Validation.Username.{validate_username}
use anticipation.Validation.Username.Rules.{IsAccount, validate_username-valid_iff}
use anticipation.Validation.Email.{validate_email}
use anticipation.Validation.Email.Rules.{IsMailbox, validate_email-valid_iff}
use anticipation.Validation.Registration.{
  RegistrationInput, username_error, email_error, password_error, errors_unless,
  registration_errors, validate_registration, sanitize_registration,
}

module _ (to_lower : Text → Text) where
  username_valid : (s : Text) → let r = validate_username to_lower s in r.valid ≡ is_nil r.errors
  unfolding validate_username
  username_valid [] = refl
  username_valid (c ∷ s) = refl

  email_valid : (s : Text) → let r = validate_email to_lower s in r.valid ≡ is_nil r.errors
  unfolding validate_email
  email_valid [] = refl
  email_valid (c ∷ s) = refl

  password_valid :
      (n : ℕ) (s : Text) → let r = validate_password to_lower n s in r.valid ≡ is_nil r.errors
  unfolding validate_password
  password_valid n [] = refl
  password_valid n (c ∷ s) = refl

module _ {A B : Type 0} where
  errors_unless-nil :
      (f : A → B) (valid : Bool) (errors : List A)
      → valid ≡ is_nil errors
      → is_nil (errors_unless valid (map f errors)) ≡ valid
  errors_unless-nil f true errors h = refl
  errors_unless-nil f false [] h = cc
  errors_unless-nil f false (e ∷ errors) h = refl

is_nil-append_iff :
    {A : Type 0} (s t : List A) → (is_nil (s ++ t) ≡ true) ↔ ((is_nil s ≡ true) × (is_nil t ≡ true))
is_nil-append_iff [] t = ((λ h. (refl, h)), (λ h. h.1))
is_nil-append_iff (c ∷ s) t = ((λ h. cc), (λ h. cc h.0))

module _ (to_lower : Text → Text) (min_length : ℕ) where
  registration_parts :
      (input : RegistrationInput)
      → ((validate_registration to_lower min_length input).valid ≡ true) ↔ (
          ((validate_username to_lower input.username).valid ≡ true)
          × ((validate_email to_lower input.email).valid ≡ true)
          × ((validate_password to_lower min_length input.password).valid ≡ true))
  unfolding validate_registration registration_errors
  registration_parts input =
      let username = validate_username to_lower input.username in
      let email = validate_email to_lower input.email in
      let password = validate_password to_lower min_length input.password in
      let u =
        errors_unless-nil username_error username.valid username.errors
          (username_valid to_lower input.username) in
      let e =
        errors_unless-nil email_error email.valid email.errors (email_valid to_lower input.email) in
      let p =
        errors_unless-nil password_error password.valid password.errors
          (password_valid to_lower min_length input.password) in
      let outer =
        is_nil-append_iff (errors_unless username.valid (map username_error username.errors)) _ in
      let inner =
        is_nil-append_iff (errors_unless email.valid (map email_error email.errors))
          (errors_unless password.valid (map password_error password.errors)) in
      (
        λ h. (
          sym u ∙ (outer.0 h).0,
          sym e ∙ (inner.0 (outer.0 h).1).0,
          sym p ∙ (inner.0 (outer.0 h).1).1,
        ),
        λ h. outer.1 (u ∙ h.0, inner.1 (e ∙ h.1, p ∙ h.2)),
      )

  pub record IsRegistrable (input : RegistrationInput) : Type 0 where
    pub named : input.username ≢ []
    pub account : IsAccount (to_lower (trim input.username))
    pub addressed : input.email ≢ []
    pub mailbox : IsMailbox (to_lower (trim input.email))
    pub password : IsAcceptable to_lower min_length input.password

  -- A registration is accepted exactly when the user name and the email are not empty and, trimmed
  -- and in lower case, an account name and a mailbox, and the password is acceptable as it stands.
  pub validate_registration-valid_iff :
      (input : RegistrationInput)
      → ((validate_registration to_lower min_length input).valid ≡ true) ↔ IsRegistrable input
  validate_registration-valid_iff input =
      let parts = registration_parts input in
      let username = validate_username-valid_iff to_lower input.username in
      let email = validate_email-valid_iff to_lower input.email in
      let password = validate_password-valid_iff to_lower min_length input.password in
      (
        λ h.
            let (u, e, p) = parts.0 h in
            record {
              named = (username.0 u).0;
              account = (username.0 u).1;
              addressed = (email.0 e).0;
              mailbox = (email.0 e).1;
              password = password.0 p;
            },
        λ r. parts.1 (
          username.1 (r.named, r.account),
          email.1 (r.addressed, r.mailbox),
          password.1 r.password,
        ),
      )

  IsAccount-ne-nil : (s : Text) → IsAccount s → s ≢ []
  IsAccount-ne-nil s a e = absurd (omega (arith, a.long_enough, ap length e))

  IsMailbox-ne-nil : (s : Text) → IsMailbox s → s ≢ []
  IsMailbox-ne-nil s m e = m.plain.0 (no_local m.local m.domain (sym m.shape ∙ e))
    where
      no_local : (l d : Text) → l ++ b'@' ∷ d ≡ [] → l ≡ []
      no_local [] d q = refl
      no_local (c ∷ l) d q = cc

  trim_nil : trim [] ≡ []
  unfolding trim
  trim_nil = refl

  clean-ne-nil : (s : Text) → to_lower [] ≡ [] → to_lower (trim s) ≢ [] → s ≢ []
  clean-ne-nil s nothing h e = h (rw (e, trim_nil) nothing)

  -- Cleaning a text twice is cleaning it once.
  clean_again :
      ((s : Text) → to_lower (to_lower s) ≡ to_lower s)
      → ((s : Text) → trim (to_lower s) ≡ to_lower (trim s))
      → (s : Text) → to_lower (trim (to_lower (trim s))) ≡ to_lower (trim s)
  clean_again lower_again lower_trim s =
      ap to_lower (lower_trim (trim s) ∙ ap to_lower (trim-trim s)) ∙ lower_again (trim s)

  -- Cleaning the data before the validation changes no verdict. Of the lower case it is assumed that
  -- it is its own lower case, that it leaves white space at the ends of a text alone, and that the
  -- empty text has the empty one.
  pub validate-sanitize :
      (input : RegistrationInput)
      → to_lower [] ≡ []
      → ((s : Text) → to_lower (to_lower s) ≡ to_lower s)
      → ((s : Text) → trim (to_lower s) ≡ to_lower (trim s))
      → ((validate_registration to_lower min_length
            (sanitize_registration to_lower min_length input)).valid
          ≡ true)
        ↔ ((validate_registration to_lower min_length input).valid ≡ true)
  unfolding sanitize_registration
  validate-sanitize input nothing lower_again lower_trim =
      let same_name = clean_again lower_again lower_trim input.username in
      let same_email = clean_again lower_again lower_trim input.email in
      let clean = sanitize_registration to_lower min_length input in
      let before = validate_registration-valid_iff input in
      let after = validate_registration-valid_iff clean in
      (
        λ h.
            let r = after.0 h in
            before.1 (record {
              named = clean-ne-nil input.username nothing r.named;
              account = rw same_name at r.account;
              addressed = clean-ne-nil input.email nothing r.addressed;
              mailbox = rw same_email at r.mailbox;
              password = r.password;
            }),
        λ h.
            let r = before.0 h in
            after.1 (record {
              named = IsAccount-ne-nil _ r.account;
              account = rw same_name r.account;
              addressed = IsMailbox-ne-nil _ r.mailbox;
              mailbox = rw same_email r.mailbox;
              password = r.password;
            }),
      )
