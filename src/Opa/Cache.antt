-- ===== src/Opa/Cache.antt =====
-- The cache of decisions: its bound, and where its entries come from.
use anticipation.Base.{
  ℕ, ◌+◌, ◌-◌, ◌≤◌, ◌≡◌, ◌≢◌, String, [], ◌∷◌, some, arith, length, All, Option-cases, Bool-cases,
  inl, inr, true, false, ltb, Bool, if◌then◌else◌, eq_iff, str_eq,
}
use anticipation.Base.JsMap.{
  map_get, map_set, length-map_set-le, length-map_delete-le, All-map_set, All-map_delete,
}
use anticipation.Opa.{
  OpaResult, CacheEntry, Cache, max_results, expiry_time, get_cached_result, drop_first, shrink,
  set_cached_result,
}

-- No key is the empty text.
abbrev pub HasKeys : Cache → Type 0
HasKeys cache = All (λ e. e.0 ≢ "") cache

drop_first-length : (cache : Cache) → HasKeys cache → length (drop_first cache) ≤ length cache - 1
drop_first-length [] h = omega arith
drop_first-length ((k, e) ∷ cache) h = ground (arith, eq_iff k "")

pub set_cached_result-bounded :
    (key : String) (result : OpaResult) (now : ℕ) (cache : Cache)
    → key ≢ ""
    → HasKeys cache
    → length cache ≤ max_results
    → length (set_cached_result key result now cache) ≤ max_results
unfolding set_cached_result
set_cached_result-bounded key result now cache ne keys h =
    let entry : CacheEntry = record { result = result; timestamp = now } in
    let grown = length-map_set-le key entry cache in
    let dropped =
      drop_first-length (map_set key entry cache)
        (All-map_set (λ e. e.0 ≢ "") key entry cache keys ne) in
    ground (arith, grown, dropped)

-- What holds of every entry, and of a new one, holds of every entry after each operation.
module _ (P : String × CacheEntry → Type 0) where
  All-if : (b : Bool) (x y : Cache) → All P x → All P y → All P (if b then x else y)
  All-if true x y h k = h
  All-if false x y h k = k

  All-shrink : (cache : Cache) → All P cache → All P (shrink cache)
  All-shrink [] h = tt
  All-shrink ((k, e) ∷ cache) (p, h) =
      All-if (ltb max_results (length ((k, e) ∷ cache))) _ _
        (All-if (str_eq k "") ((k, e) ∷ cache) cache (p, h) h) (p, h)

  pub All-set_cached_result :
      (key : String) (result : OpaResult) (now : ℕ) (cache : Cache)
      → All P cache
      → P (key, record { result = result; timestamp = now })
      → All P (set_cached_result key result now cache)
  unfolding set_cached_result
  All-set_cached_result key result now cache h p =
      All-shrink (map_set key _ cache) (All-map_set P key _ cache h p)

  pub All-get_cached_result :
      (key : String) (now : ℕ) (cache : Cache)
      → All P cache
      → All P (get_cached_result key now cache).1
  unfolding get_cached_result
  All-get_cached_result key now cache h = elim (Option-cases (map_get key cache)) [
    | inl missing ↦ rw (missing, get_cached_result) h
    | inr (entry, found) ↦ elim (Bool-cases (ltb expiry_time (now - entry.timestamp))) [
      | inl late ↦ rw (found, get_cached_result) (rw late (All-map_delete P key cache h))
      | inr fresh ↦ rw (found, get_cached_result) (rw fresh h)
    ]
  ]

pub get_cached_result-bounded :
    (key : String) (now : ℕ) (cache : Cache)
    → length (get_cached_result key now cache).1 ≤ length cache
unfolding get_cached_result
get_cached_result-bounded key now cache = ground (arith, length-map_delete-le key cache)

-- A hit is an entry of the cache that is not older than five minutes.
pub get_cached_result-hit :
    (key : String) (now : ℕ) (cache : Cache) (r : OpaResult)
    → (get_cached_result key now cache).0 ≡ some r
    → (e : CacheEntry) × (map_get key cache ≡ some e)
      × (e.result ≡ r)
      × (now ≤ e.timestamp + expiry_time)
      × ((get_cached_result key now cache).1 ≡ cache)
unfolding get_cached_result
get_cached_result-hit key now cache r h = elim (Option-cases (map_get key cache)) [
  | inl missing ↦ cc (rw (missing, get_cached_result) at h)
  | inr (entry, found) ↦ (entry, found, ground (arith, h), ground (arith, h), ground (arith, h))
]
