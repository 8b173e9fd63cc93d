-- ===== src/Mfa/Methods/Removal.antt =====
-- removeMFAMethod of smp-auth-ts/src/services/mfa.service.ts leaves the user an enabled method.
use anticipation.Base.{
  ◌≡◌, refl, String, List, [], ◌∷◌, true, false, ◌&&◌, not, some, arith, All, inl, inr, ◌⊎◌,
  Bool-cases, str_eq, eq_iff, eq_refl, subst, sym, ◌∙◌, is_nil,
}
use anticipation.Base.Result.{Result, ok, err}
use anticipation.Base.Exec.{resume, resume_ok}
use anticipation.Redis.Laws.{Redis, contains}
use anticipation.Mfa.State.{Method, World, Error, emit, method_removed, last_method}
use anticipation.Mfa.Methods.{
  sort_methods, active_except, new_primary, remove_found, remove_known, remove_method,
}
use anticipation.Mfa.Methods.Loads.{stored, sort_methods-All, stored-All, get_user_methods-stored}
use anticipation.Mfa.Methods.Primary.{IsWellKeyed, HasEnabled, new_primary-HasEnabled}

active_except_one :
    (P : Method → Type 0) (id : String) (ms : List Method)
    → All P ms
    → is_nil (active_except id ms) ≡ false
    → (m : Method) × P m × (m.is_enabled ≡ true) × (str_eq m.id id ≡ false)
unfolding active_except
active_except_one P id [] h some_left = absurd cc
active_except_one P id (m ∷ ms) (p, h) some_left =
    elim (Bool-cases (m.is_enabled && not (str_eq m.id id))) [
      | inl kept ↦ (m, p, ground arith, ground arith)
      | inr dropped ↦ active_except_one P id ms h (rw dropped at some_left)
    ]

module _ (redis : Redis) where
  open redis use {Strings, get, set, del, members, rem, get-set, get-del, members-rem}

  -- The state after the method is deleted, before another becomes primary.
  abbrev pub without : String → Method → World redis → World redis
  without id method w = record w {
    methods = del Method id w.methods;
    user_methods = rem method.user_id id w.user_methods;
  }

  IsWellKeyed-without :
      (id : String) (method : Method) (w : World redis)
      → IsWellKeyed redis w
      → IsWellKeyed redis (without id method w)
  IsWellKeyed-without id method w keyed k m found = elim (Bool-cases (str_eq id k)) [
    | inl gone ↦ absurd (ground (arith, get-del Method id k w.methods))
    | inr other ↦ keyed k m (ground (arith, get-del Method id k w.methods))
  ]

  HasEnabled-without :
      (id : String) (method m : Method) (w : World redis)
      → contains m.id (members method.user_id w.user_methods) ≡ true
      → get Method m.id w.methods ≡ some m
      → m.is_enabled ≡ true
      → str_eq m.id id ≡ false
      → HasEnabled redis method.user_id (without id method w)
  HasEnabled-without id method m w listed found enabled apart =
      let apart' : str_eq id m.id ≡ false = ground (arith, eq_iff m.id id, eq_iff id m.id) in
      (
        m.id,
        rw members-rem (rw listed (rw apart' (rw (eq_refl method.user_id) refl))),
        (m, rw get-del (rw apart' found), enabled),
      )

  remove_method_known :
      (id : String) (method : Method) (w : World redis)
      → w.up ≡ true
      → get Method id w.methods ≡ some method
      → remove_method redis id w ≡ remove_known redis id (some method) w
  unfolding remove_method
  remove_method_known id method w up found = simp (up, found)

  remove_known-found :
      (id : String) (method : Method) (w : World redis)
      → w.up ≡ true
      → remove_known redis id (some method) w
        ≡ remove_found redis id method
            (active_except id
              (sort_methods (stored redis w (members method.user_id w.user_methods))))
            w
  unfolding remove_known
  remove_known-found id method w up = rw (get_user_methods-stored redis method.user_id w up) refl

  -- The end of a removal.
  abbrev pub finish : Method → World redis → Result Error (Unit {0}) × World redis
  finish method = emit redis (method_removed method.user_id method.kind method.id)

  remove_found-rest :
      (id : String) (method : Method) (active : List Method) (w : World redis)
      → w.up ≡ true
      → is_nil active ≡ false
      → remove_found redis id method active w
        ≡ resume
            (λ (_ : Unit {0}). finish method)
            (new_primary redis method active (without id method w))
  unfolding remove_found
  remove_found-rest id method active w up some_left = rw some_left (rw up refl)

  remove_found-HasEnabled :
      (id : String) (method : Method) (active : List Method) (w : World redis)
      → w.up ≡ true
      → is_nil active ≡ false
      → IsWellKeyed redis (without id method w)
      → HasEnabled redis method.user_id (without id method w)
      → ((remove_found redis id method active w).0 ≡ ok tt)
        × HasEnabled redis method.user_id (remove_found redis id method active w).1
  remove_found-HasEnabled id method active w up some_left keyed has =
      let (fine, still) =
        new_primary-HasEnabled redis method.user_id method active (without id method w) up keyed
          has in
      let same =
        remove_found-rest id method active w up some_left
        ∙ resume_ok (λ (_ : Unit {0}). finish method) tt
            (new_primary redis method active (without id method w)) fine in
      rw same (refl, still)

  -- A removal either fails on the last enabled method, and changes nothing, or leaves the user an
  -- enabled method. The methods are stored under their identifiers and the connection is up.
  pub remove_method-HasEnabled :
      (id : String) (method : Method) (w : World redis)
      → w.up ≡ true
      → IsWellKeyed redis w
      → get Method id w.methods ≡ some method
      → (remove_method redis id w ≡ (err last_method, w))
        ⊎ (((remove_method redis id w).0 ≡ ok tt)
            × HasEnabled redis method.user_id (remove_method redis id w).1)
  unfolding remove_found
  remove_method-HasEnabled id method w up keyed found =
      let user = method.user_id in
      let ids = members user w.user_methods in
      let ms = sort_methods (stored redis w ids) in
      let P : Method → Type 0 =
        λ m. (contains m.id ids ≡ true) × (get Method m.id w.methods ≡ some m) in
      let known : All P ms = sort_methods-All P (stored redis w ids) (
        stored-All redis P w ids (λ k m listed there.
          subst (λ j. (contains j ids ≡ true) × (get Method j w.methods ≡ some m))
            (sym (keyed k m there)) (listed, there))) in
      rw (remove_method_known id method w up found ∙ remove_known-found id method w up)
        (elim (Bool-cases (is_nil (active_except id ms))) [
          | inl last ↦ inl (rw last refl)
          | inr some_left ↦
              let (m, (listed, there), enabled, apart) =
                active_except_one P id ms known some_left in
              inr (
                remove_found-HasEnabled id method (active_except id ms) w up some_left
                  (IsWellKeyed-without id method w keyed)
                  (HasEnabled-without id method m w listed there enabled apart))
        ])
