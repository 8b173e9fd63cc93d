-- ===== src/Oauth/SingleUse.antt =====
-- A state of an authorization serves one callback, unless two callbacks interleave.
use anticipation.Base.{
  ℕ, ◌≡◌, ◌≢◌, ◌⊎◌, refl, inl, inr, String, true, false, Option, none, some, str_eq, if◌then◌else◌,
  arith, Bool-cases, Option-cases, ap, ◌∙◌, sym,
}
use anticipation.Base.JsMap.{map_get}
use anticipation.Redis.Laws.{Redis}
use anticipation.Oauth.State.{OauthState, Provider, Store}
use anticipation.Oauth.{
  OauthSetup, AuthRequest, CallbackRequest, present, get_authorization_url, handle_callback,
}
use anticipation.Oauth.Redeem.{Succeeds, handle_callback-Succeeds_iff}
use anticipation.Oauth.Consumption.{handle_callback-get, handle_callback_consumes}

module _ (redis : Redis) (setup : OauthSetup) where
  open redis use {Strings, get, set, get-set}

  abbrev pub state_of : AuthRequest → String → ℕ → OauthState
  state_of request nonce now = record {
    provider = request.provider;
    redirect_uri = request.redirect_uri;
    timestamp = now;
    nonce = nonce;
    original_url = request.original_url;
  }

  -- What an authorization does to the stored states.
  pub authorization_after :
      (request : AuthRequest) (state nonce : String) (now : ℕ) (w : Store redis) (p : Provider)
      → w.up ≡ true
      → map_get request.provider setup.providers ≡ some p
      → ((get_authorization_url redis setup request state nonce now w).1.states
          ≡ set OauthState state (state_of request nonce now) (some 600) w.states)
        × ((get_authorization_url redis setup request state nonce now w).1.up ≡ true)
  unfolding get_authorization_url
  authorization_after request state nonce now w p up enabled = ground arith

  authorization_down :
      (request : AuthRequest) (state nonce : String) (now : ℕ) (w : Store redis)
      → ((w.up ≡ false) ⊎ (map_get request.provider setup.providers ≡ none))
      → (get_authorization_url redis setup request state nonce now w).1.states ≡ w.states
  unfolding get_authorization_url
  authorization_down request state nonce now w (inr missing) = rw missing refl
  authorization_down request state nonce now w (inl down) = ground arith

  -- An authorization stores at most its own state.
  get_authorization_url-get :
      (request : AuthRequest) (state nonce : String) (now : ℕ) (w : Store redis) (k : String)
      → str_eq state k ≡ false
      → get OauthState k (get_authorization_url redis setup request state nonce now w).1.states
        ≡ get OauthState k w.states
  get_authorization_url-get request state nonce now w k other =
      elim (Option-cases (map_get request.provider setup.providers)) [
        | inl missing ↦
            ap (λ z. get OauthState k z)
              (authorization_down request state nonce now w (inr missing))
        | inr (p, enabled) ↦ elim (Bool-cases w.up) [
          | inr down ↦
              ap (λ z. get OauthState k z) (authorization_down request state nonce now w (inl down))
          | inl up ↦
              ap (λ z. get OauthState k z)
                (authorization_after request state nonce now w p up enabled).0
              ∙ get-set OauthState state k (state_of request nonce now) (some 600) w.states
              ∙ ap (λ b. if b then some (state_of request nonce now) else get OauthState k w.states)
                  other
        ]
      ]

  -- What may happen after a callback: other callbacks, authorizations under other states, and steps
  -- in which states expire or the connection comes and goes.
  pub data Later (state : String) : Store redis → Store redis → Type 0 where
    here : {w : Store redis} → Later state w w
    called_back :
        {w v : Store redis}
        → Later state w v
        → (request : CallbackRequest) (password : String) (now : ℕ)
        → Later state w (handle_callback redis setup request password now v).1
    authorized :
        {w v : Store redis}
        → Later state w v
        → (request : AuthRequest) (other nonce : String) (now : ℕ) → str_eq other state ≡ false
        → Later state w (get_authorization_url redis setup request other nonce now v).1
    elsewhere :
        {w v : Store redis}
        → Later state w v
        → (u : Store redis)
        → ((k : String)
            → (get OauthState k u.states ≡ get OauthState k v.states)
              ⊎ (get OauthState k u.states ≡ none))
        → Later state w u

  or_gone : {a b : Option OauthState} → (a ≡ b) ⊎ (a ≡ none) → b ≡ none → a ≡ none
  or_gone (inl same) gone = same ∙ gone
  or_gone (inr gone') gone = gone'

  Later-gone :
      (state : String) {w v : Store redis}
      → Later state w v
      → get OauthState state w.states ≡ none
      → get OauthState state v.states ≡ none
  Later-gone state here gone = gone
  Later-gone state (called_back {v = v} l request password now) gone =
      or_gone (handle_callback-get redis setup request password now v state)
        (Later-gone state l gone)
  Later-gone state (authorized {v = v} l request other nonce now differs) gone =
      get_authorization_url-get request other nonce now v state differs ∙ Later-gone state l gone
  Later-gone state (elsewhere l u fewer) gone = or_gone (fewer state) (Later-gone state l gone)

  -- After a callback that reached its state, no callback with the same state succeeds, whatever
  -- callbacks and authorizations come between, as long as no authorization draws the same state
  -- again. The connection is up in both callbacks.
  pub handle_callback_once :
      (request request' : CallbackRequest) (password password' : String) (now now' : ℕ)
      (w v : Store redis)
      → w.up ≡ true
      → v.up ≡ true
      → present request.error ≡ none
      → request.code ≢ ""
      → request'.state ≡ request.state
      → Later request.state (handle_callback redis setup request password now w).1 v
      → ¬ Succeeds (handle_callback redis setup request' password' now' v)
  handle_callback_once request request' password password' now now' w v up up' fine full same later
        success =
      let a = (handle_callback-Succeeds_iff redis setup request' password' now' v up').0 success in
      let gone =
        Later-gone request.state later
          (handle_callback_consumes redis setup request password now w up fine full) in
      let bad : none ≡ some a.state =
        sym gone ∙ ap (λ z. get OauthState z v.states) (sym same) ∙ a.stored in
      cc
