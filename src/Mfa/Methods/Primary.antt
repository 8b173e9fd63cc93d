-- ===== src/Mfa/Methods/Primary.antt =====
-- setPrimaryMFAMethod of smp-auth-ts/src/services/mfa.service.ts keeps methods enabled.
use anticipation.Base.{
  ◌≡◌, refl, String, List, [], ◌∷◌, true, some, All, inl, inr, Bool-cases, str_eq, eq_iff, subst,
  sym, ap, ◌∙◌,
}
use anticipation.Base.Result.{ok}
use anticipation.Redis.Laws.{Redis, contains}
use anticipation.Mfa.State.{Method, World}
use anticipation.Mfa.Backup.{one_year}
use anticipation.Mfa.Methods.{sort_methods, save_primary, set_primary_method, new_primary}
use anticipation.Mfa.Methods.Loads.{stored, sort_methods-All, stored-All, get_user_methods-stored}

module _ (redis : Redis) where
  open redis use {Strings, get, set, del, members, rem, get-set, get-del, members-rem}

  -- Each method is stored under its own identifier, as the setup stores it.
  abbrev pub IsWellKeyed : World redis → Type 0
  IsWellKeyed w = (k : String) (m : Method) → get Method k w.methods ≡ some m → m.id ≡ k

  abbrev pub IsEnabledAt : String → World redis → Type 0
  IsEnabledAt k w = (m : Method) × (get Method k w.methods ≡ some m) × (m.is_enabled ≡ true)

  -- The user's set holds an enabled method.
  abbrev pub HasEnabled : String → World redis → Type 0
  HasEnabled user w =
      (k : String) × (contains k (members user w.user_methods) ≡ true) × IsEnabledAt k w

  abbrev pub saved : String → Method → World redis → World redis
  saved id m w = record w {
    methods = set Method m.id (record m { is_primary = str_eq m.id id }) (some one_year) w.methods;
  }

  save_primary-cons :
      (id : String) (m : Method) (ms : List Method) (w : World redis)
      → w.up ≡ true
      → save_primary redis id (m ∷ ms) w ≡ save_primary redis id ms (saved id m w)
  unfolding save_primary
  save_primary-cons id m ms w up = rw up refl

  saved-IsEnabledAt :
      (k id : String) (m : Method) (w : World redis)
      → (m.id ≡ k → m.is_enabled ≡ true)
      → IsEnabledAt k w
      → IsEnabledAt k (saved id m w)
  saved-IsEnabledAt k id m w p (n, found, enabled) = elim (Bool-cases (str_eq m.id k)) [
    | inl hit ↦ (
      record m { is_primary = str_eq m.id id },
      rw get-set (rw hit refl),
      p ((eq_iff m.id k).0 hit),
    )
    | inr miss ↦ (n, rw get-set (rw miss found), enabled)
  ]

  -- Saving methods under their identifiers with another flag keeps one enabled that is enabled in
  -- the store and wherever it occurs among the saved ones.
  save_primary-IsEnabledAt :
      (k id : String) (ms : List Method) (w : World redis)
      → w.up ≡ true
      → All (λ m. m.id ≡ k → m.is_enabled ≡ true) ms
      → IsEnabledAt k w
      → IsEnabledAt k (save_primary redis id ms w).1
  unfolding save_primary
  save_primary-IsEnabledAt k id [] w up h e = e
  save_primary-IsEnabledAt k id (m ∷ ms) w up (p, h) e =
      rw (save_primary-cons id m ms w up)
        (save_primary-IsEnabledAt k id ms (saved id m w) up h (saved-IsEnabledAt k id m w p e))

  save_primary-user_methods :
      (id : String) (ms : List Method) (w : World redis)
      → w.up ≡ true
      → (save_primary redis id ms w).1.user_methods ≡ w.user_methods
  unfolding save_primary
  save_primary-user_methods id [] w up = refl
  save_primary-user_methods id (m ∷ ms) w up =
      rw (save_primary-cons id m ms w up) (save_primary-user_methods id ms (saved id m w) up)

  -- A change of the primary method leaves the user an enabled one.
  pub set_primary_method-HasEnabled :
      (user other id : String) (w : World redis)
      → w.up ≡ true
      → IsWellKeyed w
      → HasEnabled user w
      → HasEnabled user (set_primary_method redis other id w).1
  unfolding set_primary_method
  set_primary_method-HasEnabled user other id w up keyed (k, listed, (n, found, enabled)) =
      let ms = sort_methods (stored redis w (members other w.user_methods)) in
      let agree : All (λ m. m.id ≡ k → m.is_enabled ≡ true) ms =
        sort_methods-All (λ m. m.id ≡ k → m.is_enabled ≡ true)
          (stored redis w (members other w.user_methods))
          (stored-All redis (λ m. m.id ≡ k → m.is_enabled ≡ true) w (members other w.user_methods)
            (λ j m listed' found' same. as_found n k w j m keyed found enabled found' same)) in
      rw (get_user_methods-stored redis other w up) (
        k,
        rw (save_primary-user_methods id ms w up) listed,
        save_primary-IsEnabledAt k id ms w up agree (n, found, enabled),
      )
    where
      as_found :
          (n : Method) (k : String) (w : World redis) (j : String) (m : Method)
          → IsWellKeyed w
          → get Method k w.methods ≡ some n
          → n.is_enabled ≡ true
          → get Method j w.methods ≡ some m
          → m.id ≡ k
          → m.is_enabled ≡ true
      as_found n k w j m keyed found enabled found' same =
          let there : j ≡ k = sym (keyed j m found') ∙ same in
          let both : some n ≡ some m =
            sym found ∙ (ap (λ i. get Method i w.methods) (sym there) ∙ found') in
          let equal : n ≡ m = cc in subst (λ (x : Method). x.is_enabled ≡ true) equal enabled

  save_primary-ok :
      (id : String) (ms : List Method) (w : World redis)
      → w.up ≡ true
      → (save_primary redis id ms w).0 ≡ ok tt
  unfolding save_primary
  save_primary-ok id [] w up = refl
  save_primary-ok id (m ∷ ms) w up =
      rw (save_primary-cons id m ms w up) (save_primary-ok id ms (saved id m w) up)

  pub new_primary-HasEnabled :
      (user : String) (method : Method) (active : List Method) (w : World redis)
      → w.up ≡ true
      → IsWellKeyed w
      → HasEnabled user w
      → ((new_primary redis method active w).0 ≡ ok tt)
        × HasEnabled user (new_primary redis method active w).1
  unfolding new_primary set_primary_method
  new_primary-HasEnabled user method [] w up keyed has = (refl, has)
  new_primary-HasEnabled user method (first ∷ rest) w up keyed has =
      elim (Bool-cases method.is_primary) [
        | inl primary ↦ (
          rw primary (
              rw (get_user_methods-stored redis method.user_id w up) (
                save_primary-ok first.id
                  (sort_methods (stored redis w (members method.user_id w.user_methods))) w up)),
          rw primary (set_primary_method-HasEnabled user method.user_id first.id w up keyed has),
        )
        | inr other ↦ (rw other refl, rw other has)
      ]
