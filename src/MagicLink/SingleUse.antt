-- ===== src/MagicLink/SingleUse.antt =====
-- A magic link is redeemed at most once.
use anticipation.Base.{ℕ, ◌≡◌, String, none, inl, inr, ◌⊎◌, sym, ◌∙◌}
use anticipation.Redis.Laws.{Redis}
use anticipation.MagicLink.State.{Link, LinkConfig, Services, Store}
use anticipation.MagicLink.{revoke_magic_link}
use anticipation.MagicLink.Links.{IsWellKeyed, IsClosed}
use anticipation.MagicLink.Redemption.{verify, Succeeds}
use anticipation.MagicLink.Over.{IsOver, over_refuses, revoke-IsOver, success-IsOver, verify-IsOver}

module _ (to_lower : String → String) (redis : Redis) (config : LinkConfig) where
  open redis use {Strings, get, set, get-set}

  -- What may happen after a call: verifications of any token, revocations of any link, and steps in
  -- which keys expire or the connection comes and goes.
  pub data Later : Store redis → Store redis → Type 0 where
    here : {w : Store redis} → Later w w
    verified :
        {w v : Store redis}
        → Later w v
        → (s : Services) (token reset : String) (now : ℕ)
        → Later w (verify to_lower redis config s token reset now v).1
    withdrawn :
        {w v : Store redis}
        → Later w v
        → (id : String) (now : ℕ) → Later w (revoke_magic_link redis config id now v).1
    elsewhere :
        {w v : Store redis}
        → Later w v
        → (u : Store redis)
        → ((k : String) → (get Link k u.links ≡ get Link k v.links) ⊎ (get Link k u.links ≡ none))
        → ((k : String)
            → (get String k u.tokens ≡ get String k v.tokens) ⊎ (get String k u.tokens ≡ none))
        → Later w u

  elsewhere-IsClosed :
      (k : String) (v u : Store redis)
      → (get Link k u.links ≡ get Link k v.links) ⊎ (get Link k u.links ≡ none)
      → IsClosed to_lower redis config k v
      → IsClosed to_lower redis config k u
  elsewhere-IsClosed k v u (inl same) closed = rw same closed
  elsewhere-IsClosed k v u (inr gone) closed = inl gone

  elsewhere-IsWellKeyed :
      (v u : Store redis)
      → ((k : String) → (get Link k u.links ≡ get Link k v.links) ⊎ (get Link k u.links ≡ none))
      → IsWellKeyed to_lower redis config v
      → IsWellKeyed to_lower redis config u
  elsewhere-IsWellKeyed v u links keyed k l found = elim (links k) [
    | inl same ↦ keyed k l (sym same ∙ found)
    | inr gone ↦ absurd cc
  ]

  elsewhere-IsOver :
      (token : String) (v u : Store redis)
      → ((k : String) → (get Link k u.links ≡ get Link k v.links) ⊎ (get Link k u.links ≡ none))
      → ((get String token u.tokens ≡ get String token v.tokens)
          ⊎ (get String token u.tokens ≡ none))
      → IsOver to_lower redis config token v
      → IsOver to_lower redis config token u
  elsewhere-IsOver token v u links (inr gone) (keyed, over) =
      (elsewhere-IsWellKeyed v u links keyed, inl gone)
  elsewhere-IsOver token v u links (inl same) (keyed, inl missing) =
      (elsewhere-IsWellKeyed v u links keyed, inl (same ∙ missing))
  elsewhere-IsOver token v u links (inl same) (keyed, inr (k, mapped, closed)) = (
    elsewhere-IsWellKeyed v u links keyed,
    inr (k, same ∙ mapped, elsewhere-IsClosed k v u (links k) closed),
  )

  Later-IsOver :
      (token : String) {w v : Store redis}
      → Later w v
      → IsOver to_lower redis config token w
      → IsOver to_lower redis config token v
  Later-IsOver token here over = over
  Later-IsOver token (verified {v = v} l s other reset now) over =
      verify-IsOver to_lower redis config s token other reset now v (Later-IsOver token l over)
  Later-IsOver token (withdrawn {v = v} l id now) over =
      revoke-IsOver to_lower redis config token id now v (Later-IsOver token l over)
  Later-IsOver token (elsewhere {v = v} l u links tokens) over =
      elsewhere-IsOver token v u links (tokens token) (Later-IsOver token l over)

  -- Once a token was redeemed with success, it is not redeemed with success again, whatever tokens are
  -- verified, whatever links revoked and whatever keys expire between, as long as no link is stored
  -- anew. Links are stored under their own identifiers.
  pub verify_magic_link_once :
      (s s' : Services) (token reset reset' : String) (now now' : ℕ) (w v : Store redis)
      → IsWellKeyed to_lower redis config w
      → Succeeds to_lower redis config (verify to_lower redis config s token reset now w)
      → Later (verify to_lower redis config s token reset now w).1 v
      → ¬ Succeeds to_lower redis config (verify to_lower redis config s' token reset' now' v)
  verify_magic_link_once s s' token reset reset' now now' w v keyed success later =
      over_refuses to_lower redis config s' token reset' now' v (
        Later-IsOver token later
          (success-IsOver to_lower redis config s token reset now w keyed success))
