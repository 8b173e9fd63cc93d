-- ===== src/MagicLink/Redemption.antt =====
-- The steps of verifyMagicLink in smp-auth-ts/src/services/magic-link.service.ts.
use anticipation.Base.{
  ℕ, ◌≡◌, refl, String, true, false, some, Bool-cases, inl, inr, ◌⊎◌, sym, ◌∙◌, ap, ltb,
}
use anticipation.Base.Result.{Result, ok, ok_injective}
use anticipation.Base.Exec.{◌>>◌, pure, handle}
use anticipation.Redis.Laws.{Redis}
use anticipation.MagicLink.State.{
  LinkEvent, LinkStatus, pending, used, expired, revoked, Link, LinkConfig, Services, Store,
  LinkError, emit_event, link_used,
}
use anticipation.MagicLink.{Verification, failing}
use anticipation.MagicLink.Verify.{
  process_action, redeem, check_time, check_status, with_link, with_id, verify_magic_link,
  is_closed, or_user,
}
use anticipation.MagicLink.Links.{
  Keeps, Keeps-resume, process_action-Keeps, saved, update_link_status_after,
}

module _ (to_lower : String → String) (redis : Redis) (config : LinkConfig) where
  open redis use {Strings, get, set, get-set}

  abbrev pub verify :
      Services → String → String → ℕ → Store redis → Result LinkError Verification × Store redis
  verify s token reset now w = verify_magic_link to_lower redis config s token reset now w

  abbrev pub Succeeds : Result LinkError Verification × Store redis → Type 0
  Succeeds x = (v : Verification) × (x.0 ≡ ok v) × (v.success ≡ true)

  emit_event-Keeps :
      (e : LinkEvent) (result : Verification) (w v : Store redis)
      → Keeps to_lower redis config w v
      → Keeps to_lower redis config w ((emit_event redis e >> pure result) v).1
  emit_event-Keeps e result w v kept = elim (Bool-cases v.up) [
    | inl up ↦ let (a, b, c) = kept in (simp (up, a), simp (up, b), simp up (sym up ∙ c))
    | inr down ↦ let (a, b, c) = kept in (simp (down, a), simp (down, b), simp down (sym down ∙ c))
  ]

  -- What follows the mark of a link leaves the links alone.
  pub redeem-Keeps :
      (s : Services) (id : String) (l : Link) (reset : String) (now : ℕ) (w : Store redis)
      → w.up ≡ true
      → get Link id w.links ≡ some l
      → Keeps to_lower redis config
          (saved to_lower redis config used now l w)
          (redeem to_lower redis config s id l reset now w).1
  unfolding redeem
  redeem-Keeps s id l reset now w up found =
      let v = saved to_lower redis config used now l w in
      rw (update_link_status_after to_lower redis config id used now l w up found) (
        Keeps-resume to_lower redis config
          (λ (result : Verification).
            emit_event redis
              (link_used (or_user result.user l.user_id) l.email l.action result.success)
            >> pure result)
          v (process_action to_lower redis config l.action s l reset now v)
          (process_action-Keeps to_lower redis config l.action s l reset now v)
          (λ result u kept.
            emit_event-Keeps
              (link_used (or_user result.user l.user_id) l.email l.action result.success) result v u
              kept))

  -- The call marked no link and does not succeed.
  abbrev pub IsIdle : Store redis → Result LinkError Verification × Store redis → Type 0
  IsIdle w x = Keeps to_lower redis config w x.1 × (¬ Succeeds x)

  -- The call marked the token's link, which was open; it succeeds only if the mark is `used`.
  abbrev pub IsMarked :
      String → ℕ → Store redis → Result LinkError Verification × Store redis → Type 0
  IsMarked token now w x =
      (id : String) × (l : Link) × (st : LinkStatus) × (get String token w.tokens ≡ some id)
      × (get Link id w.links ≡ some l)
      × (is_closed to_lower redis config l.status ≡ false)
      × Keeps to_lower redis config (saved to_lower redis config st now l w) x.1
      × ((st ≡ used) ⊎ (¬ Succeeds x))

  pub not_success : (st : LinkStatus) (w : Store redis) → ¬ Succeeds (ok (failing st), w)
  not_success st w (v, same, succeeded) =
      let e : failing st ≡ v = ok_injective same in cc (ap (λ (x : Verification). x.success) e)

  pub verify_known :
      (s : Services) (token reset : String) (now : ℕ) (w : Store redis)
      → w.up ≡ true
      → verify s token reset now w
        ≡ handle
            (λ (e : LinkError). pure (failing expired))
            (with_id to_lower redis config s reset now (get String token w.tokens) w)
  unfolding verify_magic_link
  verify_known s token reset now w up = simp up

  pub with_id_known :
      (s : Services) (id reset : String) (now : ℕ) (w : Store redis)
      → w.up ≡ true
      → with_id to_lower redis config s reset now (some id) w
        ≡ with_link to_lower redis config s id reset now (get Link id w.links) w
  unfolding with_id
  with_id_known s id reset now w up = simp up

  pub check_time_late :
      (s : Services) (id : String) (l : Link) (reset : String) (now : ℕ) (w : Store redis)
      → w.up ≡ true
      → get Link id w.links ≡ some l
      → ltb l.expires_at now ≡ true
      → check_time to_lower redis config s id l reset now w
        ≡ (ok (failing expired), saved to_lower redis config expired now l w)
  unfolding check_time
  check_time_late s id l reset now w up found late =
      rw late (rw (update_link_status_after to_lower redis config id expired now l w up found) refl)

  pub check_time_early :
      (s : Services) (id : String) (l : Link) (reset : String) (now : ℕ) (w : Store redis)
      → ltb l.expires_at now ≡ false
      → check_time to_lower redis config s id l reset now w
        ≡ redeem to_lower redis config s id l reset now w
  unfolding check_time
  check_time_early s id l reset now w early = rw early refl

  pub check_status_open :
      (st : LinkStatus) (s : Services) (id : String) (l : Link) (reset : String) (now : ℕ)
      (w : Store redis)
      → is_closed to_lower redis config st ≡ false
      → check_status to_lower redis config st s id l reset now w
        ≡ check_time to_lower redis config s id l reset now w
  unfolding check_status
  check_status_open pending s id l reset now w open_one = refl
  check_status_open expired s id l reset now w open_one = refl
  check_status_open used s id l reset now w open_one = absurd cc
  check_status_open revoked s id l reset now w open_one = absurd cc

  pub check_status_closed :
      (st : LinkStatus) (s : Services) (id : String) (l : Link) (reset : String) (now : ℕ)
      (w : Store redis)
      → is_closed to_lower redis config st ≡ true
      → check_status to_lower redis config st s id l reset now w ≡ (ok (failing st), w)
  unfolding check_status
  check_status_closed pending s id l reset now w closed = absurd cc
  check_status_closed expired s id l reset now w closed = absurd cc
  check_status_closed used s id l reset now w closed = refl
  check_status_closed revoked s id l reset now w closed = refl
