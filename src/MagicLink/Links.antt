-- ===== src/MagicLink/Links.antt =====
-- What the calls on magic links do to the links in Redis.
use anticipation.Base.{
  ℕ, ◌≡◌, refl, String, true, false, Option, none, some, arith, Bool-cases, inl, inr, ◌⊎◌, str_eq,
  eq_iff, sym, ◌∙◌, ap,
}
use anticipation.Base.Result.{Result, ok, err, Result-cases}
use anticipation.Base.Exec.{pure, handle, resume}
use anticipation.Redis.Laws.{Redis}
use anticipation.MagicLink.State.{
  Action, login, register, reset_password, verify_email, LinkStatus, pending, used, expired,
  revoked, Link, LinkConfig, Services, Store, Run, UserInfo, LinkError, answer,
}
use anticipation.MagicLink.{
  failing, with_status, seconds, update_magic_link, update_found, update_link_status, is_present,
}
use anticipation.MagicLink.Verify.{
  log_in, registered, handle_login, handle_registration, handle_email_verification,
  handle_password_reset, process_action, is_closed, text_or_empty,
}

module _ (to_lower : String → String) (redis : Redis) (config : LinkConfig) where
  open redis use {Strings, get, set, get-set}

  -- The links and the tokens are as before, and so is the connection.
  abbrev pub Keeps : Store redis → Store redis → Type 0
  Keeps w v = (v.links ≡ w.links) × (v.tokens ≡ w.tokens) × (v.up ≡ w.up)

  Keeps-answer :
      {A : Type 0} (r : Result String A) (w v : Store redis)
      → Keeps w v
      → Keeps w (answer redis r v).1
  Keeps-answer (ok a) w v kept = kept
  Keeps-answer (err e) w v kept = kept

  pub Keeps-resume :
      {A B : Type 0} (f : A → Run redis B) (w : Store redis) (x : Result LinkError A × Store redis)
      → Keeps w x.1
      → ((a : A) (v : Store redis) → Keeps w v → Keeps w (f a v).1)
      → Keeps w (resume f x).1
  Keeps-resume f w (ok a, v) kept then_kept = then_kept a v kept
  Keeps-resume f w (err e, v) kept then_kept = kept

  pub Keeps-handle :
      {A : Type 0} (a : A) (w : Store redis) (x : Result LinkError A × Store redis)
      → Keeps w x.1
      → Keeps w (handle (λ (e : LinkError). pure a) x).1
  Keeps-handle a w (ok b, v) kept = kept
  Keeps-handle a w (err e, v) kept = kept

  log_in-Keeps :
      (s : Services) (o : Option UserInfo) (w v : Store redis)
      → Keeps w v
      → Keeps w (log_in to_lower redis config s o v).1
  log_in-Keeps s none w v kept = kept
  log_in-Keeps s (some info) w v kept = elim (Result-cases s.client_token) [
    | inl (token, given) ↦ rw given kept
    | inr (e, thrown) ↦ rw thrown kept
  ]

  registered-Keeps :
      (s : Services) (o : Option String) (w v : Store redis)
      → Keeps w v
      → Keeps w (registered to_lower redis config s o v).1
  registered-Keeps s none w v kept = kept
  registered-Keeps s (some user) w v kept = elim (Result-cases (s.user_info user)) [
    | inr (e, thrown) ↦ rw thrown kept
    | inl (info, told) ↦ elim (Result-cases s.client_token) [
      | inl (token, given) ↦ rw told (rw given kept)
      | inr (e, thrown) ↦ rw told (rw thrown kept)
    ]
  ]

  pub process_action-Keeps :
      (a : Action) (s : Services) (l : Link) (reset : String) (now : ℕ) (w : Store redis)
      → Keeps w (process_action to_lower redis config a s l reset now w).1
  unfolding process_action handle_login handle_registration handle_email_verification
      handle_password_reset
  process_action-Keeps login s l reset now w = elim (Bool-cases (is_present l.user_id)) [
    | inl known ↦ rw known (
        Keeps-handle (failing expired) w _ (
          Keeps-resume (log_in to_lower redis config s) w _
            (Keeps-answer (s.user_info (text_or_empty l.user_id)) w w (refl, refl, refl))
            (λ o v kept. log_in-Keeps s o w v kept)))
    | inr unknown ↦ rw unknown (refl, refl, refl)
  ]
  process_action-Keeps register s l reset now w = elim (Bool-cases config.auto_create_user) [
    | inl allowed ↦ rw allowed (
        Keeps-handle (failing expired) w _ (
          Keeps-resume (registered to_lower redis config s) w _
            (Keeps-answer (s.register_user l.email) w w (refl, refl, refl))
            (λ o v kept. registered-Keeps s o w v kept)))
    | inr closed ↦ rw closed (refl, refl, refl)
  ]
  process_action-Keeps verify_email s l reset now w = elim (Bool-cases (is_present l.user_id)) [
    | inl known ↦ elim (Result-cases (s.verify_email (text_or_empty l.user_id) l.token)) [
      | inl (true, done) ↦ rw known (rw done (refl, refl, refl))
      | inl (false, undone) ↦ rw known (rw undone (refl, refl, refl))
      | inr (e, thrown) ↦ rw known (rw thrown (refl, refl, refl))
    ]
    | inr unknown ↦ rw unknown (refl, refl, refl)
  ]
  process_action-Keeps reset_password s l reset now w = elim (Bool-cases w.up) [
    | inl up ↦ ground arith
    | inr down ↦ ground arith
  ]

  -- Each link is stored under its own identifier.
  abbrev pub IsWellKeyed : Store redis → Type 0
  IsWellKeyed w = (k : String) (l : Link) → get Link k w.links ≡ some l → l.id ≡ k

  -- The link is gone, used or revoked.
  abbrev pub IsClosed : String → Store redis → Type 0
  IsClosed k w =
      (get Link k w.links ≡ none)
      ⊎ ((l : Link) × (get Link k w.links ≡ some l)
          × (is_closed to_lower redis config l.status ≡ true))

  abbrev pub IsSound : String → Store redis → Type 0
  IsSound k w = IsWellKeyed w × IsClosed k w

  abbrev pub saved : LinkStatus → ℕ → Link → Store redis → Store redis
  saved status now l w = record w {
    links = set Link l.id (with_status status now l) (some (seconds redis config)) w.links;
  }

  with_status-id : (status : LinkStatus) (now : ℕ) (l : Link) → (with_status status now l).id ≡ l.id
  with_status-id pending now l = refl
  with_status-id used now l = refl
  with_status-id expired now l = refl
  with_status-id revoked now l = refl

  pub update_link_status_after :
      (id : String) (status : LinkStatus) (now : ℕ) (l : Link) (w : Store redis)
      → w.up ≡ true
      → get Link id w.links ≡ some l
      → update_link_status redis config id status now w ≡ (ok tt, saved status now l w)
  unfolding update_link_status update_found update_magic_link
  update_link_status_after id status now l w up found =
      simp (up, found, with_status-id status now l)

  with_status-status :
      (status : LinkStatus) (now : ℕ) (l : Link) → (with_status status now l).status ≡ status
  with_status-status pending now l = refl
  with_status-status used now l = refl
  with_status-status expired now l = refl
  with_status-status revoked now l = refl

  pub saved-IsWellKeyed :
      (status : LinkStatus) (now : ℕ) (l : Link) (w : Store redis)
      → IsWellKeyed w
      → IsWellKeyed (saved status now l w)
  saved-IsWellKeyed status now l w keyed k m found =
      let as_set =
        sym (get-set Link l.id k (with_status status now l) (some (seconds redis config)) w.links)
        ∙ found in
      elim (Bool-cases (str_eq l.id k)) [
        | inl hit ↦
            let both : some (with_status status now l) ≡ some m = rw hit at as_set in
            let same : with_status status now l ≡ m = cc in
            ap (λ (n : Link). n.id) (sym same)
            ∙ (with_status-id status now l ∙ (eq_iff l.id k).0 hit)
        | inr miss ↦ keyed k m (rw miss at as_set)
      ]

  pub saved-IsClosed :
      (k : String) (status : LinkStatus) (now : ℕ) (l : Link) (w : Store redis)
      → (is_closed to_lower redis config status ≡ true) ⊎ (str_eq l.id k ≡ false)
      → IsClosed k w
      → IsClosed k (saved status now l w)
  saved-IsClosed k status now l w (inl closing) closed = elim (Bool-cases (str_eq l.id k)) [
    | inl hit ↦ inr (
      with_status status now l,
      rw get-set (rw hit refl),
      rw (with_status-status status now l) closing,
    )
    | inr miss ↦
        rw (get-set Link l.id k (with_status status now l) (some (seconds redis config)) w.links)
          (rw miss closed)
  ]
  saved-IsClosed k status now l w (inr miss) closed =
      rw (get-set Link l.id k (with_status status now l) (some (seconds redis config)) w.links)
        (rw miss closed)

  -- A new status keeps a link closed, where it closes the link or is another link's.
  pub saved-IsSound :
      (k : String) (status : LinkStatus) (now : ℕ) (l : Link) (w : Store redis)
      → (is_closed to_lower redis config status ≡ true) ⊎ (str_eq l.id k ≡ false)
      → IsSound k w
      → IsSound k (saved status now l w)
  saved-IsSound k status now l w fits (keyed, closed) =
      (saved-IsWellKeyed status now l w keyed, saved-IsClosed k status now l w fits closed)
