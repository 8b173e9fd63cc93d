-- ===== src/Mfa/Methods/Loads.antt =====
-- What getUserMFAMethods of smp-auth-ts/src/services/mfa.service.ts returns.
use anticipation.Base.{
  false, eq_refl, ◌≡◌, refl, String, List, [], ◌∷◌, true, some, arith, All, inl, inr, Option-cases,
  Bool-cases,
}
use anticipation.Base.Result.{ok}
use anticipation.Redis.Laws.{Redis, contains}
use anticipation.Mfa.State.{Method, World}
use anticipation.Mfa.Methods.{
  not_after, insert_sorted, sort_methods, push_found, load_methods, get_user_methods,
}

-- Sorting keeps what holds of each method.
insert_sorted-All :
    (P : Method → Type 0) (m : Method) (ms : List Method)
    → P m
    → All P ms
    → All P (insert_sorted m ms)
unfolding insert_sorted
insert_sorted-All P m [] p h = (p, tt)
insert_sorted-All P m (n ∷ ms) p (q, h) = elim (Bool-cases (not_after m n)) [
  | inl first ↦ rw first (p, (q, h))
  | inr later ↦ rw later (q, insert_sorted-All P m ms p h)
]

pub sort_methods-All : (P : Method → Type 0) (ms : List Method) → All P ms → All P (sort_methods ms)
unfolding sort_methods
sort_methods-All P [] h = tt
sort_methods-All P (m ∷ ms) (p, h) =
    insert_sorted-All P m (sort_methods ms) p (sort_methods-All P ms h)

module _ (redis : Redis) where
  open redis use {get, members}

  -- The methods that are stored under the identifiers.
  abbrev pub stored : World redis → List String → List Method
  stored w [] = []
  stored w (id ∷ ids) = push_found (get Method id w.methods) (stored w ids)

  load_methods-stored :
      (ids : List String) (w : World redis)
      → w.up ≡ true
      → load_methods redis ids w ≡ (ok (stored w ids), w)
  unfolding load_methods
  load_methods-stored [] w up = refl
  load_methods-stored (id ∷ ids) w up = simp (up, load_methods-stored ids w up)

  -- With the connection up, the methods of the user's set, sorted, and nothing is written.
  pub get_user_methods-stored :
      (user : String) (w : World redis)
      → w.up ≡ true
      → get_user_methods redis user w
        ≡ (ok (sort_methods (stored w (members user w.user_methods))), w)
  unfolding get_user_methods
  get_user_methods-stored user w up =
      simp (up, load_methods-stored (members user w.user_methods) w up)

  -- With the connection down there are none.
  pub get_user_methods_down :
      (user : String) (w : World redis) → w.up ≡ false → get_user_methods redis user w ≡ (ok [], w)
  unfolding get_user_methods load_methods sort_methods
  get_user_methods_down user w down = simp down

  -- Each loaded method is the value of an identifier of the set.
  pub stored-All :
      (P : Method → Type 0) (w : World redis) (ids : List String)
      → ((k : String) (m : Method) → contains k ids ≡ true → get Method k w.methods ≡ some m → P m)
      → All P (stored w ids)
  stored-All P w [] h = tt
  stored-All P w (id ∷ ids) h =
      let rest : All P (stored w ids) =
        stored-All P w ids (λ k m listed found. h k m (ground arith) found) in
      elim (Option-cases (get Method id w.methods)) [
        | inl missing ↦ rw missing rest
        | inr (m, found) ↦ rw found (h id m (rw (eq_refl id) refl) found, rest)
      ]
