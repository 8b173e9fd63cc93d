-- ===== src/Validation/Text/Infix.antt =====
-- What the text tests of Validation/Text.antt decide.
use anticipation.Base.{
  ℕ, [], ◌∷◌, ◌++◌, ◌≡◌, refl, ap, true, false, ◌↔◌, inl, inr, arith, Bool-cases,
}
use anticipation.Validation.Text.{Text, starts_with, includes, run_at, has_run, is_line_end}

abbrev pub IsInfix : Text → Text → Type 0
IsInfix p s = (before : Text) × (after : Text) × (s ≡ before ++ (p ++ after))

-- Three equal code units in a row, which end no line.
abbrev pub HasRun : Text → Type 0
HasRun s =
    (before : Text) × (c : ℕ) × (after : Text) × (is_line_end c ≡ false)
    × (s ≡ before ++ c ∷ c ∷ c ∷ after)

starts_with_sound : (p s : Text) → starts_with p s ≡ true → (after : Text) × (s ≡ p ++ after)
unfolding starts_with
starts_with_sound [] s h = (s, refl)
starts_with_sound (x ∷ p) [] h = cc
starts_with_sound (x ∷ p) (c ∷ s) h =
    let (after, e) = starts_with_sound p s (ground arith) in (after, ground arith)

starts_with-append : (p after : Text) → starts_with p (p ++ after) ≡ true
unfolding starts_with
starts_with-append [] after = refl
starts_with-append (x ∷ p) after = ground (arith, starts_with-append p after)

includes_sound : (s p : Text) → includes s p ≡ true → IsInfix p s
unfolding includes
includes_sound [] [] h = ([], [], refl)
includes_sound [] (x ∷ p) h = cc
includes_sound (c ∷ s) p h = elim (Bool-cases (starts_with p (c ∷ s))) [
  | inl here ↦ let (after, e) = starts_with_sound p (c ∷ s) here in ([], after, e)
  | inr later ↦
      let (before, after, e) = includes_sound s p (ground arith) in
      (c ∷ before, after, ap (λ t. c ∷ t) e)
]

includes-here : (p after : Text) → includes (p ++ after) p ≡ true
unfolding includes
includes-here [] [] = refl
includes-here [] (c ∷ after) = ground (arith, starts_with-append [] (c ∷ after))
includes-here (x ∷ p) after = ground (arith, starts_with-append (x ∷ p) after)

includes-append : (before p after : Text) → includes (before ++ (p ++ after)) p ≡ true
unfolding includes
includes-append [] p after = includes-here p after
includes-append (c ∷ before) p after = ground (arith, includes-append before p after)

pub includes_iff : (s p : Text) → (includes s p ≡ true) ↔ IsInfix p s
includes_iff s p =
    (includes_sound s p, λ h. let (before, after, e) = h in rw e (includes-append before p after))

has_run_sound : (s : Text) → has_run s ≡ true → HasRun s
unfolding has_run run_at
has_run_sound [] h = cc
has_run_sound (a ∷ []) h = absurd (ground arith)
has_run_sound (a ∷ b ∷ []) h = absurd (ground arith)
has_run_sound (a ∷ b ∷ c ∷ s) h = elim (Bool-cases (has_run (b ∷ c ∷ s))) [
  | inl later ↦
      let (before, d, after, e, p) = has_run_sound (b ∷ c ∷ s) later in
      (a ∷ before, d, after, e, ap (λ t. a ∷ t) p)
  | inr here ↦ ([], a, s, ground arith, ground arith)
]

has_run-append :
    (before : Text) (c : ℕ) (after : Text)
    → is_line_end c ≡ false
    → has_run (before ++ c ∷ c ∷ c ∷ after) ≡ true
unfolding has_run run_at
has_run-append [] c after h = ground arith
has_run-append (a ∷ before) c after h = ground (arith, has_run-append before c after h)

pub has_run_iff : (s : Text) → (has_run s ≡ true) ↔ HasRun s
has_run_iff s = (
  has_run_sound s,
  λ h. let (before, c, after, e, p) = h in rw p (has_run-append before c after e),
)
