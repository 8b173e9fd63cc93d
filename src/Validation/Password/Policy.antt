-- ===== src/Validation/Password/Policy.antt =====
-- What an accepted password is, stated without the validator's tests.
use anticipation.Base.{
  ℕ, ◌≤◌, ◌≡◌, refl, ◌↔◌, List, [], ◌∷◌, Bool, true, false, ◌||◌, any, all, any_iff, Any, All,
  length, arith, is_nil,
}
use anticipation.Validation.Text.{Text, is_upper, is_lower, is_digit, is_special, includes}
use anticipation.Validation.Text.Infix.{IsInfix, includes_iff, HasRun, has_run_iff}
use anticipation.Validation.Password.{
  Findings, common_passwords, examine, errors_of, validate_password, not_any, all_of, is_letter,
}

module _ (to_lower : Text → Text) (min_length : ℕ) where
  pub record IsAcceptable (password : Text) : Type 0 where
    pub long_enough : min_length ≤ length password
    pub not_too_long : length password ≤ 128
    pub has_upper : Any (λ c. is_upper c ≡ true) password
    pub has_lower : Any (λ c. is_lower c ≡ true) password
    pub has_digit : Any (λ c. is_digit c ≡ true) password
    pub has_special : Any (λ c. is_special c ≡ true) password
    pub no_common_word : All (λ word. ¬ IsInfix word (to_lower password)) common_passwords
    pub no_run : ¬ HasRun password

abbrev IsClean : Findings → Type 0
IsClean f =
    (f.short ≡ false)
    × (f.long ≡ false)
    × (f.no_upper ≡ false)
    × (f.no_lower ≡ false)
    × (f.no_digit ≡ false)
    × (f.no_special ≡ false)
    × (f.common ≡ false)
    × (f.repeated ≡ false)
    × (f.uniform ≡ false)

errors_of-nil_iff : (n : ℕ) (f : Findings) → (is_nil (errors_of n f) ≡ true) ↔ IsClean f
unfolding errors_of
errors_of-nil_iff n f = ground arith

-- A text with a special character is not made of letters or of digits alone.
letter_not_special : (c : ℕ) → is_letter c ≡ true → is_special c ≡ false
unfolding is_upper is_lower is_special
letter_not_special c h = ground arith

digit_not_special : (c : ℕ) → is_digit c ≡ true → is_special c ≡ false
unfolding is_digit is_special
digit_not_special c h = ground arith

all-any_disjoint :
    (p q : ℕ → Bool)
    → ((c : ℕ) → p c ≡ true → q c ≡ false)
    → (s : Text) → all p s ≡ true
    → any q s ≡ false
all-any_disjoint p q apart [] h = refl
all-any_disjoint p q apart (c ∷ s) h = ground (arith, apart c, all-any_disjoint p q apart s)

no_common_iff :
    (s : Text) (words : List Text)
    → (any (λ word. includes s word) words ≡ false) ↔ All (λ word. ¬ IsInfix word s) words
no_common_iff s [] = ((λ h. tt), (λ h. refl))
no_common_iff s (word ∷ words) = ground (arith, includes_iff s word, no_common_iff s words)

special_not_uniform :
    (c : ℕ) (s : Text)
    → any is_special (c ∷ s) ≡ true
    → (all_of is_letter (c ∷ s) || all_of is_digit (c ∷ s)) ≡ false
special_not_uniform c s h = ground (
  arith,
  all-any_disjoint is_letter is_special letter_not_special (c ∷ s),
  all-any_disjoint is_digit is_special digit_not_special (c ∷ s),
)

not_any_iff : (p : ℕ → Bool) (s : Text) → (not_any p s ≡ false) ↔ Any (λ c. p c ≡ true) s
not_any_iff p s = ground (arith, any_iff p s)

module _ (to_lower : Text → Text) (min_length : ℕ) where
  IsClean-iff :
      (c : ℕ) (s : Text)
      → IsClean (examine to_lower min_length (c ∷ s)) ↔ IsAcceptable to_lower min_length (c ∷ s)
  unfolding examine
  IsClean-iff c s = (
    λ h. record {
      long_enough = ground arith;
      not_too_long = ground arith;
      has_upper = (not_any_iff is_upper (c ∷ s)).0 h.2;
      has_lower = (not_any_iff is_lower (c ∷ s)).0 h.3;
      has_digit = (not_any_iff is_digit (c ∷ s)).0 h.4;
      has_special = (not_any_iff is_special (c ∷ s)).0 h.5;
      no_common_word = (no_common_iff (to_lower (c ∷ s)) common_passwords).0 h.6;
      no_run = λ run. cc ((has_run_iff (c ∷ s)).1 run);
    },
    λ a. (
      ground arith,
      ground arith,
      (not_any_iff is_upper (c ∷ s)).1 a.has_upper,
      (not_any_iff is_lower (c ∷ s)).1 a.has_lower,
      (not_any_iff is_digit (c ∷ s)).1 a.has_digit,
      (not_any_iff is_special (c ∷ s)).1 a.has_special,
      (no_common_iff (to_lower (c ∷ s)) common_passwords).1 a.no_common_word,
      ground (arith, has_run_iff (c ∷ s), a.no_run),
      special_not_uniform c s ((any_iff is_special (c ∷ s)).1 a.has_special),
    ),
  )

  -- The validator accepts a password exactly when it is acceptable: within the length bounds, with
  -- an upper and a lower case letter, a digit and a special character, without a common word in
  -- its lower case and without three equal code units in a row. The rule against passwords made
  -- of letters or digits alone excludes nothing more.
  pub validate_password-valid_iff :
      (password : Text)
      → ((validate_password to_lower min_length password).valid ≡ true)
        ↔ IsAcceptable to_lower min_length password
  unfolding validate_password
  validate_password-valid_iff [] = ((λ h. cc), (λ h. absurd h.has_upper))
  validate_password-valid_iff (c ∷ s) =
      let clean = errors_of-nil_iff min_length (examine to_lower min_length (c ∷ s)) in
      let meaning = IsClean-iff c s in ((λ h. meaning.0 (clean.0 h)), (λ h. clean.1 (meaning.1 h)))
