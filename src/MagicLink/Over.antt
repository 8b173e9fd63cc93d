-- ===== src/MagicLink/Over.antt =====
-- Links of smp-auth-ts/src/services/magic-link.service.ts that no call opens again.
use anticipation.Base.{
  ℕ, ◌≡◌, refl, String, true, false, Option, none, some, Option-cases, Bool-cases, inl, inr, ◌⊎◌,
  str_eq, eq_iff, sym, subst, ◌∙◌, ap,
}
use anticipation.Base.Result.{ok}
use anticipation.Redis.Laws.{Redis}
use anticipation.MagicLink.State.{LinkStatus, used, revoked, Link, LinkConfig, Services, Store}
use anticipation.MagicLink.{with_status, update_found, update_link_status, revoke_magic_link}
use anticipation.MagicLink.Verify.{is_closed}
use anticipation.MagicLink.Links.{
  Keeps, IsWellKeyed, IsClosed, saved, update_link_status_after, saved-IsWellKeyed, saved-IsClosed,
}
use anticipation.MagicLink.Redemption.{verify, Succeeds}
use anticipation.MagicLink.Fate.{verify_magic_link-fate}

module _ (to_lower : String → String) (redis : Redis) (config : LinkConfig) where
  open redis use {Strings, get, set, get-set}

  -- The token's link can no longer be redeemed: the token is gone, or its link is closed.
  abbrev pub IsOver : String → Store redis → Type 0
  IsOver token w =
      IsWellKeyed to_lower redis config w
      × ((get String token w.tokens ≡ none)
          ⊎ ((k : String) × (get String token w.tokens ≡ some k)
              × IsClosed to_lower redis config k w))

  same_option : {A : Type 0} {o : Option A} {a b : A} → o ≡ some a → o ≡ some b → a ≡ b
  same_option {a = a} {b = b} p q = let both : some a ≡ some b = sym p ∙ q in cc

  open-IsClosed :
      (k : String) (l : Link) (w : Store redis)
      → get Link k w.links ≡ some l
      → is_closed to_lower redis config l.status ≡ false
      → ¬ IsClosed to_lower redis config k w
  open-IsClosed k l w found open_one (inl missing) = cc
  open-IsClosed k l w found open_one (inr (m, found', closed)) =
      cc (ap (λ (n : Link). is_closed to_lower redis config n.status) (same_option found found'))

  Keeps-IsOver :
      (token : String) (w v : Store redis)
      → Keeps to_lower redis config w v
      → IsOver token w
      → IsOver token v
  Keeps-IsOver token w v (links, tokens, up) over = rw links (rw tokens over)

  -- Marking an open link, or any link as used or revoked, keeps a token over.
  marked-IsOver :
      (token id : String) (l : Link) (st : LinkStatus) (now : ℕ) (w : Store redis)
      → get Link id w.links ≡ some l
      → ((is_closed to_lower redis config st ≡ true)
          ⊎ (is_closed to_lower redis config l.status ≡ false))
      → IsOver token w
      → IsOver token (saved to_lower redis config st now l w)
  marked-IsOver token id l st now w found fits (keyed, inl missing) =
      (saved-IsWellKeyed to_lower redis config st now l w keyed, inl missing)
  marked-IsOver token id l st now w found fits (keyed, inr (k, mapped, closed)) = (
    saved-IsWellKeyed to_lower redis config st now l w keyed,
    inr (k, mapped, saved-IsClosed to_lower redis config k st now l w (fitting fits) closed),
  )
    where
      fitting :
          ((is_closed to_lower redis config st ≡ true)
            ⊎ (is_closed to_lower redis config l.status ≡ false))
          → (is_closed to_lower redis config st ≡ true) ⊎ (str_eq l.id k ≡ false)
      fitting (inl closing) = inl closing
      fitting (inr open_one) = elim (Bool-cases (str_eq l.id k)) [
        | inr miss ↦ inr miss
        | inl hit ↦
            let same : id ≡ k = sym (keyed id l found) ∙ (eq_iff l.id k).0 hit in
            absurd (
              open-IsClosed id l w found open_one
                (subst (λ j. IsClosed to_lower redis config j w) (sym same) closed))
      ]

  pub verify-IsOver :
      (s : Services) (token other reset : String) (now : ℕ) (w : Store redis)
      → IsOver token w
      → IsOver token (verify to_lower redis config s other reset now w).1
  verify-IsOver s token other reset now w over =
      elim (verify_magic_link-fate to_lower redis config s other reset now w) [
        | inl (kept, idle) ↦
            Keeps-IsOver token w (verify to_lower redis config s other reset now w).1 kept over
        | inr (id, l, st, mapped, found, open_one, kept, told) ↦
            Keeps-IsOver token (saved to_lower redis config st now l w)
              (verify to_lower redis config s other reset now w).1 kept
              (marked-IsOver token id l st now w found (inr open_one) over)
      ]

  pub success-IsOver :
      (s : Services) (token reset : String) (now : ℕ) (w : Store redis)
      → IsWellKeyed to_lower redis config w
      → Succeeds to_lower redis config (verify to_lower redis config s token reset now w)
      → IsOver token (verify to_lower redis config s token reset now w).1
  success-IsOver s token reset now w keyed success =
      elim (verify_magic_link-fate to_lower redis config s token reset now w) [
        | inl (kept, idle) ↦ absurd (idle success)
        | inr (id, l, st, mapped, found, open_one, kept, inr failed) ↦ absurd (failed success)
        | inr (id, l, st, mapped, found, open_one, kept, inl mark) ↦
            Keeps-IsOver token (saved to_lower redis config st now l w)
              (verify to_lower redis config s token reset now w).1 kept
              (
                saved-IsWellKeyed to_lower redis config st now l w keyed,
                inr (
                  id,
                  mapped,
                  rw mark (
                      inr (
                        with_status used now l,
                        rw get-set (rw ((eq_iff l.id id).1 (keyed id l found)) refl),
                        refl,
                      )),
                ),
              )
      ]

  pub over_refuses :
      (s : Services) (token reset : String) (now : ℕ) (w : Store redis)
      → IsOver token w
      → ¬ Succeeds to_lower redis config (verify to_lower redis config s token reset now w)
  over_refuses s token reset now w (keyed, over) success =
      elim (verify_magic_link-fate to_lower redis config s token reset now w) [
        | inl (kept, idle) ↦ idle success
        | inr (id, l, st, mapped, found, open_one, kept, told) ↦
            refused id l mapped found open_one over
      ]
    where
      refused :
          (id : String) (l : Link)
          → get String token w.tokens ≡ some id
          → get Link id w.links ≡ some l
          → is_closed to_lower redis config l.status ≡ false
          → (get String token w.tokens ≡ none)
            ⊎ ((k : String) × (get String token w.tokens ≡ some k)
                × IsClosed to_lower redis config k w)
          → ⊥
      refused id l mapped found open_one (inl missing) = cc
      refused id l mapped found open_one (inr (k, mapped', closed)) =
          open-IsClosed id l w found open_one
            (subst (λ j. IsClosed to_lower redis config j w) (same_option mapped' mapped) closed)

  update_link_status-none :
      (id : String) (status : LinkStatus) (now : ℕ) (w : Store redis)
      → get Link id w.links ≡ none
      → update_link_status redis config id status now w ≡ (ok tt, w)
  unfolding update_link_status update_found
  update_link_status-none id status now w missing = elim (Bool-cases w.up) [
    | inl up ↦ simp (up, missing)
    | inr down ↦ simp down
  ]

  update_link_status_down :
      (id : String) (status : LinkStatus) (now : ℕ) (w : Store redis)
      → w.up ≡ false
      → update_link_status redis config id status now w ≡ (ok tt, w)
  unfolding update_link_status update_found
  update_link_status_down id status now w down = simp down

  pub revoke-IsOver :
      (token id : String) (now : ℕ) (w : Store redis)
      → IsOver token w
      → IsOver token (revoke_magic_link redis config id now w).1
  unfolding revoke_magic_link
  revoke-IsOver token id now w over = elim (Bool-cases w.up) [
    | inr down ↦ rw (update_link_status_down id revoked now w down) over
    | inl up ↦ elim (Option-cases (get Link id w.links)) [
      | inl missing ↦ rw (update_link_status-none id revoked now w missing) over
      | inr (l, found) ↦
          rw (update_link_status_after to_lower redis config id revoked now l w up found)
            (marked-IsOver token id l revoked now w found (inl refl) over)
    ]
  ]
