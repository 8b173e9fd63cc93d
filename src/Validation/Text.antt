-- ===== src/Validation/Text.antt =====
-- The character classes and text tests of
-- mu-auth/src/auth/services/user-registration-validation.service.ts.
pub mod Infix
pub mod Trim
use Prim.Native.Char.{code}
use Prim.Native.String.{String}
use anticipation.Base.{
  ℕ, ◌+◌, List, [], ◌∷◌, Bool, true, false, ◌&&◌, ◌||◌, leb, ◌==◌, any, is_nil, if◌then◌else◌,
}

abbrev pub Text : Type 0
Text = List ℕ

-- An ASCII literal as code units.
abbrev pub codes : String → Text
codes String.[] = []
codes (String.◌∷◌ c s) = code c ∷ codes s

-- [A-Z], [a-z], [0-9]
unfoldable pub is_upper : ℕ → Bool
is_upper c = leb b'A' c && leb c b'Z'

unfoldable pub is_lower : ℕ → Bool
is_lower c = leb b'a' c && leb c b'z'

unfoldable pub is_digit : ℕ → Bool
is_digit c = leb b'0' c && leb c b'9'

-- [!@#$%^&*(),.?":{}|<>]
unfoldable pub is_special : ℕ → Bool
is_special c = any (λ d. d == c) (0x22 ∷ codes "!@#$%^&*(),.?:{}|<>")

-- What `.` does not match.
unfoldable pub is_line_end : ℕ → Bool
is_line_end c = any (λ d. d == c) (0x0a ∷ 0x0d ∷ 0x2028 ∷ 0x2029 ∷ [])

-- \s, and what `trim` strips.
unfoldable pub is_space : ℕ → Bool
is_space c =
    leb 0x09 c && leb c 0x0d
    || leb 0x2000 c && leb c 0x200a
    || any (λ d. d == c)
        (0x20 ∷ 0xa0 ∷ 0x1680 ∷ 0x2028 ∷ 0x2029 ∷ 0x202f ∷ 0x205f ∷ 0x3000 ∷ 0xfeff ∷ [])

unfoldable pub starts_with : Text → Text → Bool
starts_with [] s = true
starts_with (x ∷ p) [] = false
starts_with (x ∷ p) (c ∷ s) = x == c && starts_with p s

-- s.includes(p)
unfoldable pub includes : Text → Text → Bool
unfolding starts_with
includes [] p = is_nil p
includes (c ∷ s) p = starts_with p (c ∷ s) || includes s p

run_at : ℕ → Text → Bool
run_at a (b ∷ c ∷ s) = a == b && b == c
run_at a s = false

-- /(.)\1{2,}/
unfoldable pub has_run : Text → Bool
unfolding run_at is_line_end
has_run [] = false
has_run (a ∷ s) = (if is_line_end a then false else run_at a s) || has_run s

unfoldable pub ends_with : ℕ → Text → Bool
ends_with x [] = false
ends_with x (c ∷ []) = x == c
ends_with x (c ∷ d ∷ s) = ends_with x (d ∷ s)

drop_spaces : Text → Text
drop_spaces [] = []
drop_spaces (c ∷ s) = let rest = drop_spaces s in if is_space c then rest else c ∷ s

-- Appends `c` unless it and all behind it is white space.
keep_left : ℕ → Text → Text
keep_left c [] = if is_space c then [] else c ∷ []
keep_left c (d ∷ s) = c ∷ d ∷ s

drop_spaces_end : Text → Text
drop_spaces_end [] = []
drop_spaces_end (c ∷ s) = keep_left c (drop_spaces_end s)

-- s.trim()
unfoldable pub trim : Text → Text
unfolding drop_spaces keep_left drop_spaces_end is_space
trim s = drop_spaces_end (drop_spaces s)

-- The lower case of ASCII letters, which the tests use for `toLowerCase`.
unfoldable pub ascii_lower : Text → Text
unfolding is_upper
ascii_lower [] = []
ascii_lower (c ∷ s) = (if is_upper c then c + 32 else c) ∷ ascii_lower s
