-- ===== src/Base/JsMap.antt =====
-- A JavaScript `Map` with text keys: a list of entries in the order of their first insertion.
use Prim.Native.Nat.{◌+◌, ◌≤◌}
use Prim.Native.String.{String}
use mathlib.Core.Path.{◌≡◌, sym, subst}
use mathlib.Core.Option.{Option, none, some}
use mathlib.Core.List.{List, [], ◌∷◌}
use mathlib.Core.Logic.{inl, inr}
use native.Mathlib.Omega.{arith}
use text.Mathlib.Text.{◌==◌}
use text.Mathlib.TextEquality.{eq_iff}
use anticipation.Base.Lists.{length, if◌then◌else◌, All, Bool-cases}

module _ {ℓ} {V : Type ℓ} where
  -- m.get(key)
  unfoldable pub map_get : String → List (String × V) → Option V
  map_get key [] = none
  map_get key (entry ∷ entries) = if entry.0 == key then some entry.1 else map_get key entries

  -- m.set(key, value): an entry that is there keeps its place.
  unfoldable pub map_set : String → V → List (String × V) → List (String × V)
  map_set key value [] = (key, value) ∷ []
  map_set key value (entry ∷ entries) =
      if entry.0 == key then (entry.0, value) ∷ entries else entry ∷ map_set key value entries

  -- m.delete(key)
  unfoldable pub map_delete : String → List (String × V) → List (String × V)
  map_delete key [] = []
  map_delete key (entry ∷ entries) =
      if entry.0 == key then entries else entry ∷ map_delete key entries

  pub length-map_set-le :
      (k : String) (v : V) (m : List (String × V)) → length (map_set k v m) ≤ length m + 1
  unfolding map_set
  length-map_set-le k v [] = omega arith
  length-map_set-le k v ((j, w) ∷ m) = ground (arith, length-map_set-le k v m)

  pub length-map_delete-le :
      (k : String) (m : List (String × V)) → length (map_delete k m) ≤ length m
  unfolding map_delete
  length-map_delete-le k [] = omega arith
  length-map_delete-le k ((j, w) ∷ m) = ground (arith, length-map_delete-le k m)

  -- What holds of each entry.
  pub All-map_set {κ} :
      (P : String × V → Type κ) (k : String) (v : V) (m : List (String × V))
      → All P m
      → P (k, v)
      → All P (map_set k v m)
  unfolding map_set
  All-map_set P k v [] h p = (p, tt)
  All-map_set P k v ((j, w) ∷ m) (q, h) p = elim (Bool-cases (j == k)) [
    | inl hit ↦ rw hit (subst (λ i. P (i, v)) (sym ((eq_iff j k).0 hit)) p, h)
    | inr miss ↦ rw miss (q, All-map_set P k v m h p)
  ]

  pub All-map_delete {κ} :
      (P : String × V → Type κ) (k : String) (m : List (String × V))
      → All P m
      → All P (map_delete k m)
  unfolding map_delete
  All-map_delete P k [] h = tt
  All-map_delete P k ((j, w) ∷ m) (q, h) = elim (Bool-cases (j == k)) [
    | inl hit ↦ rw hit h
    | inr miss ↦ rw miss (q, All-map_delete P k m h)
  ]

  pub All-map_get {κ} :
      (P : String × V → Type κ) (k : String) (m : List (String × V)) {v : V}
      → All P m
      → map_get k m ≡ some v
      → P (k, v)
  unfolding map_get
  All-map_get P k [] h e = cc
  All-map_get P k ((j, w) ∷ m) {v} (q, h) e = elim (Bool-cases (j == k)) [
    | inl hit ↦
        let e' : some w ≡ some v = rw hit at e in
        let same : w ≡ v = cc in
        subst (λ i. P (i, v)) ((eq_iff j k).0 hit) (subst (λ u. P (j, u)) same q)
    | inr miss ↦ All-map_get P k m h (rw miss at e)
  ]
