-- ===== src/Validation/Username/Rules.antt =====
-- What an accepted user name is, stated without the validator's tests.
use anticipation.Base.{
  ℕ, ◌≤◌, ◌≡◌, ◌≢◌, ◌↔◌, inl, inr, Bool-cases, refl, ap, List, [], ◌∷◌, ◌++◌, Bool, true, false,
  ◌||◌, ltb, any, all_iff, All, length, arith, is_nil, if◌then◌else◌,
}
use anticipation.Validation.Text.{Text, codes, is_digit, includes, ends_with, trim, ascii_lower}
use anticipation.Validation.Text.Infix.{IsInfix, includes_iff}
use anticipation.Validation.Password.{push_if}
use anticipation.Validation.Username.{
  too_short, too_long, bad_format, bad_separators, reserved, forbidden, reserved_names,
  is_username_char, same, starts, not_empty_all, has_bad_separator, is_forbidden, username_errors,
  validate_username,
}

-- The text neither begins nor ends with `x`.
abbrev pub HasNoEdge : ℕ → Text → Type 0
HasNoEdge x s = ((rest : Text) → s ≢ x ∷ rest) × ((rest : Text) → s ≢ rest ++ x ∷ [])

pub record IsAccount (name : Text) : Type 0 where
  pub long_enough : 4 ≤ length name
  pub not_too_long : length name ≤ 30
  pub plain : All (λ c. is_username_char c ≡ true) name
  pub no_double_underscore : ¬ IsInfix (codes "__") name
  pub no_double_dash : ¬ IsInfix (codes "--") name
  pub no_edge_underscore : HasNoEdge b'_' name
  pub no_edge_dash : HasNoEdge b'-' name
  pub not_reserved : All (λ word. name ≢ word) reserved_names
  pub not_a_number : ¬ All (λ c. is_digit c ≡ true) name
  pub no_admin : ¬ IsInfix (codes "admin") (ascii_lower name)
  pub no_test : ¬ IsInfix (codes "test") (ascii_lower name)
  pub no_temp : ¬ IsInfix (codes "temp") (ascii_lower name)

same_iff : (s t : Text) → (same s t ≡ true) ↔ (s ≡ t)
unfolding same
same_iff [] [] = ((λ h. refl), (λ h. refl))
same_iff [] (y ∷ t) = ((λ h. cc), (λ h. cc))
same_iff (x ∷ s) [] = ((λ h. cc), (λ h. cc))
same_iff (x ∷ s) (y ∷ t) = ground (arith, same_iff s t)

starts_iff : (x : ℕ) (s : Text) → (starts x s ≡ true) ↔ ((rest : Text) × (s ≡ x ∷ rest))
starts_iff x [] = ((λ h. cc), (λ h. cc h.1))
starts_iff x (c ∷ s) = ((λ h. (s, ground arith)), (λ h. ground (arith, h.1)))

ends_with-append : (x : ℕ) (rest : Text) → ends_with x (rest ++ x ∷ []) ≡ true
unfolding ends_with
ends_with-append x [] = ground arith
ends_with-append x (c ∷ []) = ground arith
ends_with-append x (c ∷ d ∷ rest) = ends_with-append x (d ∷ rest)

ends_with_sound : (x : ℕ) (s : Text) → ends_with x s ≡ true → (rest : Text) × (s ≡ rest ++ x ∷ [])
unfolding ends_with
ends_with_sound x [] h = cc
ends_with_sound x (c ∷ []) h = ([], ground arith)
ends_with_sound x (c ∷ d ∷ s) h =
    let (rest, e) = ends_with_sound x (d ∷ s) h in (c ∷ rest, ap (λ t. c ∷ t) e)

pub not_same_iff :
    (s : Text) (words : List Text) → (any (same s) words ≡ false) ↔ All (λ word. s ≢ word) words
not_same_iff s [] = ((λ h. tt), (λ h. refl))
not_same_iff s (word ∷ words) = ground (arith, same_iff s word, not_same_iff s words)

pub no_edge_iff :
    (x : ℕ) (s : Text) → ((starts x s ≡ false) × (ends_with x s ≡ false)) ↔ HasNoEdge x s
no_edge_iff x s = (
  λ h. (λ rest e. cc ((starts_iff x s).1 (rest, e)), λ rest e. cc (h.1, ends_with-append x rest)),
  λ n. (
    elim (Bool-cases (starts x s)) [
      | inl yes' ↦ let (rest, e) = (starts_iff x s).0 yes' in absurd (n.0 rest e)
      | inr no' ↦ no'
    ],
    elim (Bool-cases (ends_with x s)) [
      | inl yes' ↦ let (rest, e) = ends_with_sound x s yes' in absurd (n.1 rest e)
      | inr no' ↦ no'
    ],
  ),
)

or_false_iff :
    (a b c d e f : Bool)
    → ((a || b || c || d || e || f) ≡ false)
      ↔ ((a ≡ false) × (b ≡ false) × (c ≡ false) × (d ≡ false) × (e ≡ false) × (f ≡ false))
or_false_iff a b c d e f = ground arith

pub not_includes_iff : (s p : Text) → (includes s p ≡ false) ↔ (¬ IsInfix p s)
not_includes_iff s p = ground (arith, includes_iff s p)

abbrev HasNoBadSeparator : Text → Type 0
HasNoBadSeparator s =
    (¬ IsInfix (codes "__") s) × (¬ IsInfix (codes "--") s) × HasNoEdge b'_' s × HasNoEdge b'-' s

separator_iff : (s : Text) → (has_bad_separator s ≡ false) ↔ HasNoBadSeparator s
unfolding has_bad_separator
separator_iff s =
    let tests =
      or_false_iff (includes s (codes "__")) (starts b'_' s) (ends_with b'_' s)
        (includes s (codes "--")) (starts b'-' s) (ends_with b'-' s) in
    let under = no_edge_iff b'_' s in
    let dash = no_edge_iff b'-' s in
    let double_under = not_includes_iff s (codes "__") in
    let double_dash = not_includes_iff s (codes "--") in
    (
      λ h.
          let (a, b, c, d, e, f) = tests.0 h in
          (double_under.0 a, double_dash.0 d, under.0 (b, c), dash.0 (e, f)),
      λ n.
          let (b, c) = under.1 n.2 in
          let (e, f) = dash.1 n.3 in tests.1 (double_under.1 n.0, b, c, double_dash.1 n.1, e, f),
    )

abbrev IsNotForbidden : Text → Type 0
IsNotForbidden s =
    (not_empty_all is_digit s ≡ false)
    × (¬ IsInfix (codes "admin") (ascii_lower s))
    × (¬ IsInfix (codes "test") (ascii_lower s))
    × (¬ IsInfix (codes "temp") (ascii_lower s))

forbidden_iff : (s : Text) → (is_forbidden s ≡ false) ↔ IsNotForbidden s
unfolding is_forbidden
forbidden_iff s = ground (
  arith,
  includes_iff (ascii_lower s) (codes "admin"),
  includes_iff (ascii_lower s) (codes "test"),
  includes_iff (ascii_lower s) (codes "temp"),
)

non_empty_iff :
    (p : ℕ → Bool) (c : ℕ) (s : Text)
    → (not_empty_all p (c ∷ s) ≡ true) ↔ All (λ d. p d ≡ true) (c ∷ s)
non_empty_iff p c s = all_iff p (c ∷ s)

pub ltb_of_le : (a b : ℕ) → a ≤ b → ltb b a ≡ false
ltb_of_le a b h = ground arith

errors_nil_iff :
    (a b c d e f : Bool)
    → (is_nil (
          push_if a too_short (
            push_if b too_long (
              push_if c bad_format
                (push_if d bad_separators (push_if e reserved (push_if f forbidden []))))))
        ≡ true)
      ↔ ((a ≡ false) × (b ≡ false) × (c ≡ false) × (d ≡ false) × (e ≡ false) × (f ≡ false))
errors_nil_iff a b c d e f = ground arith

format_iff :
    (c : ℕ) (s : Text)
    → ((if not_empty_all is_username_char (c ∷ s) then false else true) ≡ false)
      ↔ All (λ d. is_username_char d ≡ true) (c ∷ s)
format_iff c s = ground (arith, all_iff is_username_char (c ∷ s))

number_iff :
    (c : ℕ) (s : Text)
    → (not_empty_all is_digit (c ∷ s) ≡ false) ↔ (¬ All (λ d. is_digit d ≡ true) (c ∷ s))
number_iff c s = ground (arith, all_iff is_digit (c ∷ s))

username_errors-nil_iff : (name : Text) → (is_nil (username_errors name) ≡ true) ↔ IsAccount name
unfolding username_errors
username_errors-nil_iff [] = ((λ h. cc), (λ a. absurd (omega (arith, a.long_enough))))
username_errors-nil_iff (c ∷ s) =
    let name : Text = c ∷ s in
    let tests =
      errors_nil_iff (ltb (length name) 4) (ltb 30 (length name))
        (if not_empty_all is_username_char name then false else true) (has_bad_separator name)
        (any (same name) reserved_names) (is_forbidden name) in
    (
      λ h.
          let (short, long, format, separators, reserved', forbidden') = tests.0 h in
          let (under, dash, edge_under, edge_dash) = (separator_iff name).0 separators in
          let (number, admin, test, temp) = (forbidden_iff name).0 forbidden' in
          record {
            long_enough = ground (arith, short);
            not_too_long = ground (arith, long);
            plain = (format_iff c s).0 format;
            no_double_underscore = under;
            no_double_dash = dash;
            no_edge_underscore = edge_under;
            no_edge_dash = edge_dash;
            not_reserved = (not_same_iff name reserved_names).0 reserved';
            not_a_number = (number_iff c s).0 number;
            no_admin = admin;
            no_test = test;
            no_temp = temp;
          },
      λ a. tests.1 (
        ltb_of_le 4 (length name) a.long_enough,
        ltb_of_le (length name) 30 a.not_too_long,
        (format_iff c s).1 a.plain,
        (separator_iff name).1
            (a.no_double_underscore, a.no_double_dash, a.no_edge_underscore, a.no_edge_dash),
        (not_same_iff name reserved_names).1 a.not_reserved,
        (forbidden_iff name).1
            ((number_iff c s).1 a.not_a_number, a.no_admin, a.no_test, a.no_temp),
      ),
    )

module _ (to_lower : Text → Text) where
  -- A user name is accepted exactly when it is not empty and, trimmed and in lower case, it is an
  -- account name: 4 to 30 code units of [a-z0-9_-], no separator doubled or at an edge, not a
  -- reserved name, not a number, and without "admin", "test" or "temp".
  pub validate_username-valid_iff :
      (username : Text)
      → ((validate_username to_lower username).valid ≡ true)
        ↔ ((username ≢ []) × IsAccount (to_lower (trim username)))
  unfolding validate_username
  validate_username-valid_iff [] = ((λ h. cc), (λ h. absurd (h.0 refl)))
  validate_username-valid_iff (c ∷ s) =
      let account = username_errors-nil_iff (to_lower (trim (c ∷ s))) in
      ((λ h. ((λ e. cc), account.0 h)), (λ h. account.1 h.1))
