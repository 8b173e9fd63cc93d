-- ===== src/Oauth/Lifetime.antt =====
-- How long the state of an authorization can be redeemed.
use anticipation.Base.{
  ℕ, ◌≡◌, ◌≢◌, ◌↔◌, ◌<◌, ◌+◌, ◌∙◌, String, true, none, some, ltb, if◌then◌else◌, arith, ap, sym,
  Bool-cases, inl, inr,
}
use anticipation.Base.JsMap.{map_get}
use anticipation.Redis.Laws.{Redis}
use anticipation.Redis.Expiry.{Expiry}
use anticipation.Oauth.State.{OauthState, LinkedAccount, Tokens, Store}
use anticipation.Oauth.{
  OauthSetup, AuthRequest, CallbackRequest, present, get_authorization_url, handle_callback,
}
use anticipation.Oauth.Callback.{IsKnown}
use anticipation.Oauth.Redeem.{IsAccepted, Succeeds, handle_callback-Succeeds_iff}
use anticipation.Oauth.SingleUse.{state_of, authorization_after}

module _ (redis : Redis) (time : Expiry redis) (setup : OauthSetup) where
  open redis use {get, set}
  open time use {pass, get-pass-set}

  -- The server when so many milliseconds have passed.
  abbrev pub wait : ℕ → Store redis → Store redis
  wait elapsed w = record w {
    states = pass OauthState elapsed w.states;
    linked = pass LinkedAccount elapsed w.linked;
    owners = pass String elapsed w.owners;
    tokens = pass Tokens elapsed w.tokens;
  }

  -- With the connection up, a callback with the state of an authorization, after which nothing was
  -- called, succeeds exactly if less than ten minutes have passed, if its provider takes the code and
  -- names the user. The key of the state expires with its time to live.
  pub handle_callback-authorize_iff :
      (request : AuthRequest) (callback : CallbackRequest) (nonce password : String)
      (now elapsed : ℕ) (w : Store redis)
      → w.up ≡ true
      → present callback.error ≡ none
      → callback.code ≢ ""
      → IsKnown redis setup callback (state_of redis setup request nonce now)
      → Succeeds (
          handle_callback redis setup callback password
            (now + elapsed)
            (wait elapsed (get_authorization_url redis setup request callback.state nonce now w).1))
        ↔ (elapsed < 600000)
  handle_callback-authorize_iff request callback nonce password now elapsed w up fine full known = (
    (λ success. elim (Bool-cases (ltb elapsed 600000)) [
      | inl early ↦ ground arith
      | inr late ↦
          let bad : none ≡ some (accepted.0 success).state =
            sym (left ∙ ap (λ b. if b then some state else none) late)
            ∙ (accepted.0 success).stored in
          absurd cc
    ]),
    (λ early. accepted.1 (record {
      no_error = fine;
      has_code = full;
      state = state;
      stored = left ∙ ap (λ b. if b then some state else none) (is_early early);
      young = omega arith;
      known = known;
    })),
  )
    where
      state : OauthState
      state = state_of redis setup request nonce now

      after : Store redis
      after = (get_authorization_url redis setup request callback.state nonce now w).1

      written :
          (after.states ≡ set OauthState callback.state state (some 600) w.states)
          × (after.up ≡ true)
      written =
          authorization_after redis setup request callback.state nonce now w known.provider up
            (ap (λ z. map_get z setup.providers) known.same_provider ∙ known.enabled)

      left :
          get OauthState callback.state (pass OauthState elapsed after.states)
          ≡ (if ltb elapsed 600000 then some state else none)
      left =
          ap (λ z. get OauthState callback.state (pass OauthState elapsed z)) written.0
          ∙ get-pass-set OauthState callback.state state (some 600) elapsed w.states

      accepted :
          Succeeds
            (handle_callback redis setup callback password (now + elapsed) (wait elapsed after))
          ↔ IsAccepted redis setup callback (now + elapsed) (wait elapsed after)
      accepted =
          handle_callback-Succeeds_iff redis setup callback password (now + elapsed)
            (wait elapsed after) written.1

      is_early : elapsed < 600000 → ltb elapsed 600000 ≡ true
      is_early early = ground arith
