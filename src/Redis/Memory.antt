-- ===== src/Redis/Memory.antt =====
-- A server in memory on which keys do not expire: it meets the laws.
use mathlib.Core.Bool.{◌||◌, ◌&&◌, not}
use anticipation.Base.{
  String, ◌≡◌, refl, List, [], ◌∷◌, Option, none, some, str_eq, if◌then◌else◌, arith, eq_iff, Bool,
  true, false, Bool-cases, inl, inr, ap,
}
use anticipation.Redis.Laws.{Redis, contains}

abbrev pub write : {A : Type 0} → String → A → (String → A) → String → A
write k a f j = if str_eq k j then a else f j

abbrev pub insert : String → List String → List String
insert x xs = if contains x xs then xs else x ∷ xs

abbrev pub without : String → List String → List String
without x [] = []
without x (y ∷ ys) = if str_eq y x then without x ys else y ∷ without x ys

contains-insert :
    (x y : String) (xs : List String) → contains y (insert x xs) ≡ (contains y xs || str_eq x y)
contains-insert x y xs = ground (arith, eq_iff x y, same x y xs)
  where
    same : (x y : String) (xs : List String) → x ≡ y → contains x xs ≡ contains y xs
    same x y xs e = ap (λ z. contains z xs) e

contains-without :
    (x y : String) (xs : List String)
    → contains y (without x xs) ≡ (contains y xs && not (str_eq x y))
contains-without x y [] = refl
contains-without x y (z ∷ zs) =
    ground (arith, eq_iff z x, eq_iff z y, eq_iff x y, contains-without x y zs)

pub members_add :
    (k j x y : String) (s : String → List String)
    → contains y (write k (insert x (s k)) s j) ≡ (contains y (s j) || str_eq k j && str_eq x y)
members_add k j x y s = elim (Bool-cases (str_eq k j)) [
  | inl hit ↦ rw hit (rw (← (eq_iff k j).0 hit) (contains-insert x y (s k)))
  | inr miss ↦ rw miss (or_false (contains y (s j)))
]
  where
    or_false : (b : Bool) → b ≡ (b || false)
    or_false true = refl
    or_false false = refl

pub members_rem :
    (k j x y : String) (s : String → List String)
    → contains y (write k (without x (s k)) s j)
      ≡ (contains y (s j) && not (str_eq k j && str_eq x y))
members_rem k j x y s = elim (Bool-cases (str_eq k j)) [
  | inl hit ↦ rw hit (rw (← (eq_iff k j).0 hit) (contains-without x y (s k)))
  | inr miss ↦ rw miss (and_true (contains y (s j)))
]
  where
    and_true : (b : Bool) → b ≡ (b && true)
    and_true true = refl
    and_true false = refl

abbrev pub memory : Redis
memory = record {
  Strings = λ V. String → Option V;
  get = λ V k s. s k;
  set = λ V k v ttl s. write k (some v) s;
  del = λ V k s. write k none s;
  Sets = String → List String;
  members = λ k s. s k;
  add = λ k x s. write k (insert x (s k)) s;
  rem = λ k x s. write k (without x (s k)) s;
  get-set = λ V k j v ttl s. refl;
  get-del = λ V k j s. refl;
  members-add = members_add;
  members-rem = members_rem;
}
