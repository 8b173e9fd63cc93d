-- ===== src/MagicLink/Fate.antt =====
-- What a call of verifyMagicLink does to its link.
use anticipation.Base.{
  ℕ, ◌≡◌, refl, String, true, false, Option, none, some, Option-cases, Bool-cases, inl, inr, ◌⊎◌,
  ◌∙◌, ap, ltb,
}
use anticipation.Base.Result.{Result, ok}
use anticipation.Base.Exec.{pure, handle}
use anticipation.Redis.Laws.{Redis}
use anticipation.MagicLink.State.{
  LinkStatus, used, expired, Link, LinkConfig, Services, Store, LinkError,
}
use anticipation.MagicLink.{Verification, failing}
use anticipation.MagicLink.Verify.{
  redeem, check_time, check_status, with_link, with_id, verify_magic_link, is_closed,
}
use anticipation.MagicLink.Links.{Keeps-handle, saved}
use anticipation.MagicLink.Redemption.{
  IsIdle, IsMarked, check_status_closed, check_status_open, check_time_early, check_time_late,
  not_success, redeem-Keeps, verify, verify_known, with_id_known,
}

module _ (to_lower : String → String) (redis : Redis) (config : LinkConfig) where
  open redis use {Strings, get, set, get-set}

  handle-failing :
      (st : LinkStatus) (w : Store redis) (x : Result LinkError Verification × Store redis)
      → x ≡ (ok (failing st), w)
      → handle (λ (e : LinkError). pure (failing expired)) x ≡ (ok (failing st), w)
  handle-failing st w x same = rw same refl

  IsIdle-failing :
      (st : LinkStatus) (w : Store redis) (x : Result LinkError Verification × Store redis)
      → x ≡ (ok (failing st), w)
      → IsIdle to_lower redis config w x
  IsIdle-failing st w x same = rw same ((refl, refl, refl), not_success to_lower redis config st w)

  time_fate :
      (s : Services) (token reset : String) (now : ℕ) (w : Store redis) (id : String) (l : Link)
      → w.up ≡ true
      → get String token w.tokens ≡ some id
      → get Link id w.links ≡ some l
      → is_closed to_lower redis config l.status ≡ false
      → IsMarked to_lower redis config token now w (
          handle
            (λ (e : LinkError). pure (failing expired))
            (check_time to_lower redis config s id l reset now w))
  time_fate s token reset now w id l up mapped found open_one =
      elim (Bool-cases (ltb l.expires_at now)) [
        | inl late ↦ rw (check_time_late to_lower redis config s id l reset now w up found late) (
          id,
          l,
          expired,
          mapped,
          found,
          open_one,
          (refl, refl, refl),
          inr (
              not_success to_lower redis config expired
                (saved to_lower redis config expired now l w)),
        )
        | inr early ↦ rw (check_time_early to_lower redis config s id l reset now w early) (
          id,
          l,
          used,
          mapped,
          found,
          open_one,
          Keeps-handle to_lower redis config (failing expired)
              (saved to_lower redis config used now l w)
              (redeem to_lower redis config s id l reset now w)
              (redeem-Keeps to_lower redis config s id l reset now w up found),
          inl refl,
        )
      ]

  status_fate :
      (s : Services) (token reset : String) (now : ℕ) (w : Store redis) (id : String) (l : Link)
      → w.up ≡ true
      → get String token w.tokens ≡ some id
      → get Link id w.links ≡ some l
      → let x =
          handle
            (λ (e : LinkError). pure (failing expired))
            (check_status to_lower redis config l.status s id l reset now w) in
        IsIdle to_lower redis config w x ⊎ IsMarked to_lower redis config token now w x
  status_fate s token reset now w id l up mapped found =
      elim (Bool-cases (is_closed to_lower redis config l.status)) [
        | inl closed ↦ inl (
            IsIdle-failing l.status w _ (
              handle-failing l.status w _
                (check_status_closed to_lower redis config l.status s id l reset now w closed)))
        | inr open_one ↦
            rw (check_status_open to_lower redis config l.status s id l reset now w open_one)
              (inr (time_fate s token reset now w id l up mapped found open_one))
      ]

  abbrev caught :
      Result LinkError Verification × Store redis → Result LinkError Verification × Store redis
  caught x = handle (λ (e : LinkError). pure (failing expired)) x

  verify_down :
      (s : Services) (token reset : String) (now : ℕ) (w : Store redis)
      → w.up ≡ false
      → verify to_lower redis config s token reset now w ≡ (ok (failing expired), w)
  unfolding verify_magic_link
  verify_down s token reset now w down = simp down

  verify_missing :
      (s : Services) (token reset : String) (now : ℕ) (w : Store redis)
      → w.up ≡ true
      → get String token w.tokens ≡ none
      → verify to_lower redis config s token reset now w ≡ (ok (failing expired), w)
  unfolding with_id
  verify_missing s token reset now w up missing =
      verify_known to_lower redis config s token reset now w up ∙ rw missing refl

  verify_mapped :
      (s : Services) (token reset : String) (now : ℕ) (w : Store redis) (id : String)
      → w.up ≡ true
      → get String token w.tokens ≡ some id
      → verify to_lower redis config s token reset now w
        ≡ caught (with_link to_lower redis config s id reset now (get Link id w.links) w)
  verify_mapped s token reset now w id up mapped =
      verify_known to_lower redis config s token reset now w up
      ∙ (ap (λ o. caught (with_id to_lower redis config s reset now o w)) mapped
          ∙ ap caught (with_id_known to_lower redis config s id reset now w up))

  caught_link :
      (s : Services) (reset : String) (now : ℕ) (w : Store redis) (id : String) (o : Option Link)
      → get Link id w.links ≡ o
      → caught (with_link to_lower redis config s id reset now (get Link id w.links) w)
        ≡ caught (with_link to_lower redis config s id reset now o w)
  caught_link s reset now w id o found =
      ap (λ p. caught (with_link to_lower redis config s id reset now p w)) found

  -- Each call of verifyMagicLink marks no link, or marks the token's open link.
  pub verify_magic_link-fate :
      (s : Services) (token reset : String) (now : ℕ) (w : Store redis)
      → IsIdle to_lower redis config w (verify to_lower redis config s token reset now w)
        ⊎ IsMarked to_lower redis config token now w
            (verify to_lower redis config s token reset now w)
  unfolding with_link
  verify_magic_link-fate s token reset now w = elim (Bool-cases w.up) [
    | inr down ↦ inl (
        IsIdle-failing expired w (verify to_lower redis config s token reset now w)
          (verify_down s token reset now w down))
    | inl up ↦ elim (Option-cases (get String token w.tokens)) [
      | inl missing ↦ inl (
          IsIdle-failing expired w (verify to_lower redis config s token reset now w)
            (verify_missing s token reset now w up missing))
      | inr (id, mapped) ↦ elim (Option-cases (get Link id w.links)) [
        | inl lost ↦ inl (
            IsIdle-failing expired w (verify to_lower redis config s token reset now w) (
              verify_mapped s token reset now w id up mapped
              ∙ caught_link s reset now w id none lost))
        | inr (l, found) ↦
            let step : verify to_lower redis config s token reset now w
                ≡ handle (λ (e : LinkError). pure (failing expired))
                    (check_status to_lower redis config l.status s id l reset now w) =
              verify_mapped s token reset now w id up mapped
              ∙ caught_link s reset now w id (some l) found in
            rw step (status_fate s token reset now w id l up mapped found)
      ]
    ]
  ]
