-- ===== src/Validation/Text/Trim.antt =====
-- White space at the ends of a text: trimming twice is trimming once, and the lower case of ASCII
-- letters leaves white space alone.
use anticipation.Base.{
  ℕ, ◌+◌, ◌≡◌, ◌∙◌, refl, ap, [], ◌∷◌, false, if◌then◌else◌, arith, Bool-cases, inl, inr,
}
use anticipation.Validation.Text.{
  Text, is_upper, is_space, drop_spaces, keep_left, drop_spaces_end, trim, ascii_lower,
}

-- A character that is no white space stays.
keep_left-solid : (c : ℕ) (r : Text) → is_space c ≡ false → keep_left c r ≡ c ∷ r
unfolding keep_left
keep_left-solid c [] solid = rw solid refl
keep_left-solid c (d ∷ r) solid = refl

keep_left_again :
    (c : ℕ) (r : Text) → drop_spaces_end r ≡ r → drop_spaces_end (keep_left c r) ≡ keep_left c r
unfolding drop_spaces_end keep_left
keep_left_again c [] h = elim (Bool-cases (is_space c)) [
  | inl blank ↦ rw blank refl
  | inr solid ↦ rw solid (rw solid refl)
]
keep_left_again c (d ∷ r) h = ap (keep_left c) h

drop_spaces_end_again : (s : Text) → drop_spaces_end (drop_spaces_end s) ≡ drop_spaces_end s
unfolding drop_spaces_end
drop_spaces_end_again [] = refl
drop_spaces_end_again (c ∷ s) = keep_left_again c (drop_spaces_end s) (drop_spaces_end_again s)

-- What is trimmed at the end still starts with no white space.
drop_spaces-trim : (s : Text) → drop_spaces (trim s) ≡ trim s
unfolding trim drop_spaces drop_spaces_end
drop_spaces-trim [] = refl
drop_spaces-trim (c ∷ s) = elim (Bool-cases (is_space c)) [
  | inl blank ↦ rw blank (drop_spaces-trim s)
  | inr solid ↦ rw solid (rw (keep_left-solid c (drop_spaces_end s) solid) (rw solid refl))
]

pub trim-trim : (s : Text) → trim (trim s) ≡ trim s
unfolding trim
trim-trim s = ap drop_spaces_end (drop_spaces-trim s) ∙ drop_spaces_end_again (drop_spaces s)

abbrev lower : ℕ → ℕ
lower c = if is_upper c then c + 32 else c

lower-lower : (c : ℕ) → lower (lower c) ≡ lower c
unfolding is_upper
lower-lower c = ground arith

is_space-lower : (c : ℕ) → is_space (lower c) ≡ is_space c
unfolding is_upper is_space
is_space-lower c = ground arith

pub ascii_lower-ascii_lower : (s : Text) → ascii_lower (ascii_lower s) ≡ ascii_lower s
unfolding ascii_lower
ascii_lower-ascii_lower [] = refl
ascii_lower-ascii_lower (c ∷ s) =
    ap (λ d. d ∷ ascii_lower (ascii_lower s)) (lower-lower c)
    ∙ ap (λ t. lower c ∷ t) (ascii_lower-ascii_lower s)

drop_spaces-ascii_lower : (s : Text) → drop_spaces (ascii_lower s) ≡ ascii_lower (drop_spaces s)
unfolding ascii_lower drop_spaces
drop_spaces-ascii_lower [] = refl
drop_spaces-ascii_lower (c ∷ s) = rw (is_space-lower c) (elim (Bool-cases (is_space c)) [
  | inl blank ↦ rw blank (drop_spaces-ascii_lower s)
  | inr solid ↦ rw solid refl
])

keep_left-ascii_lower :
    (c : ℕ) (r : Text) → keep_left (lower c) (ascii_lower r) ≡ ascii_lower (keep_left c r)
unfolding ascii_lower keep_left
keep_left-ascii_lower c [] =
    rw (is_space-lower c)
      (elim (Bool-cases (is_space c)) [ inl blank ↦ rw blank refl | inr solid ↦ rw solid refl ])
keep_left-ascii_lower c (d ∷ r) = refl

drop_spaces_end-ascii_lower :
    (s : Text) → drop_spaces_end (ascii_lower s) ≡ ascii_lower (drop_spaces_end s)
unfolding ascii_lower drop_spaces_end
drop_spaces_end-ascii_lower [] = refl
drop_spaces_end-ascii_lower (c ∷ s) =
    ap (keep_left (lower c)) (drop_spaces_end-ascii_lower s)
    ∙ keep_left-ascii_lower c (drop_spaces_end s)

pub trim-ascii_lower : (s : Text) → trim (ascii_lower s) ≡ ascii_lower (trim s)
unfolding trim
trim-ascii_lower s =
    ap drop_spaces_end (drop_spaces-ascii_lower s) ∙ drop_spaces_end-ascii_lower (drop_spaces s)
