-- ===== src/Oauth/Callback.antt =====
-- When handleCallback signs a user in, and what it does to the stored states.
use anticipation.Base.{
  ℕ, ◌≡◌, ◌≢◌, ◌≤◌, ◌+◌, ◌⊎◌, refl, inl, inr, String, Bool, true, false, Option, none, some, str_eq,
  arith, Bool-cases, Option-cases, eq_iff, ap, ◌∙◌, sym,
}
use anticipation.Base.Result.{Result, ok, err, ok_injective}
use anticipation.Base.Exec.{◌>>=◌, resume_inv, resume_ok, handle_total}
use anticipation.Base.JsMap.{map_get}
use anticipation.Redis.Laws.{Redis}
use anticipation.Oauth.State.{
  Tokens, OauthUser, OauthState, Provider, Store, answer, emit, user_info_retrieved,
}
use anticipation.Oauth.{
  OauthSetup, CallbackRequest, CallbackResponse, present, require_provider,
  handle_keycloak_integration, integrate, complete, with_user, with_tokens, with_provider,
  check_provider, signed_in, check_code, check_request, after_read, validate_and_retrieve_state,
  sign_in,
}

module _ (redis : Redis) (setup : OauthSetup) where
  open redis use {Strings, get, del}

  -- The provider of a callback knows the code and the user behind it.
  pub record IsKnown (request : CallbackRequest) (s : OauthState) : Type 0 where
    pub same_provider : s.provider ≡ request.provider
    pub provider : Provider
    pub enabled : map_get request.provider setup.providers ≡ some provider
    pub tokens : Tokens
    pub exchanged : provider.exchange_code request.code request.state ≡ ok tokens
    pub user : OauthUser
    pub found : provider.user_info tokens.access_token ≡ ok user

  answer_inv :
      {A : Type 0} (r : Result String A) (w : Store redis) {a : A}
      → (answer redis r w).0 ≡ ok a
      → r ≡ ok a
  answer_inv (ok b) w h = ap ok (ok_injective h)
  answer_inv (err e) w h = absurd cc

  require_provider_inv :
      (o : Option Provider) (w : Store redis) {p : Provider}
      → (require_provider redis setup o w).0 ≡ ok p
      → o ≡ some p
  require_provider_inv none w h = absurd cc
  require_provider_inv (some q) w h = cc

  check_provider_inv :
      (request : CallbackRequest) (s : OauthState) (w : Store redis) {u : Unit {0}}
      → (check_provider redis setup request s w).0 ≡ ok u
      → (s.provider ≡ request.provider) × ((check_provider redis setup request s w).1 ≡ w)
  check_provider_inv request s w h = elim (Bool-cases (str_eq s.provider request.provider)) [
    | inl same ↦ ((eq_iff s.provider request.provider).0 same, rw same refl)
    | inr other ↦ absurd (let bad = (rw other at h) in cc)
  ]

  pub sign_in_sound :
      (request : CallbackRequest) (password : String) (s : OauthState) (w : Store redis)
      {r : CallbackResponse}
      → (sign_in redis setup request password s w).0 ≡ ok r
      → IsKnown request s
  unfolding sign_in
  sign_in_sound request password s w h =
      let (u, checked, h1) =
        resume_inv
          (λ same.
            require_provider redis setup (map_get request.provider setup.providers)
            >>= with_provider redis setup request password)
          (check_provider redis setup request s w) h in
      let w1 = (check_provider redis setup request s w).1 in
      let (p, enabled, h2) =
        resume_inv (with_provider redis setup request password)
          (require_provider redis setup (map_get request.provider setup.providers) w1) h1 in
      let w2 = (require_provider redis setup (map_get request.provider setup.providers) w1).1 in
      let (tokens, exchanged, h3) =
        resume_inv (with_tokens redis setup request password p)
          (answer redis (p.exchange_code request.code request.state) w2) h2 in
      let w3 = (answer redis (p.exchange_code request.code request.state) w2).1 in
      let (user, found, h4) =
        resume_inv (with_user redis setup request tokens password)
          (answer redis (p.user_info tokens.access_token) w3) h3 in
      record {
        same_provider = (check_provider_inv request s w checked).0;
        provider = p;
        enabled = require_provider_inv (map_get request.provider setup.providers) w1 enabled;
        tokens = tokens;
        exchanged = answer_inv (p.exchange_code request.code request.state) w2 exchanged;
        user = user;
        found = answer_inv (p.user_info tokens.access_token) w3 found;
      }

  with_user-ok :
      (request : CallbackRequest) (tokens : Tokens) (password : String) (user : OauthUser)
      (w : Store redis)
      → (r : CallbackResponse) × ((with_user redis setup request tokens password user w).0 ≡ ok r)
        × (r.success ≡ true)
  unfolding handle_keycloak_integration
  with_user-ok request tokens password user w =
      let v = (emit redis (user_info_retrieved request.provider user.email) w).1 in
      let (x, told) = handle_total none (integrate redis setup user tokens password v) in
      (
        signed_in redis setup user tokens x,
        ap (λ z. z.0)
            (resume_ok (complete redis setup request user tokens) x
              (handle_keycloak_integration redis setup user tokens password v) told),
        refl,
      )

  pub sign_in_complete :
      (request : CallbackRequest) (password : String) (s : OauthState) (w : Store redis)
      → IsKnown request s
      → (r : CallbackResponse) × ((sign_in redis setup request password s w).0 ≡ ok r)
        × (r.success ≡ true)
  unfolding sign_in
  sign_in_complete request password s w k =
      let (r, told, good) = with_user-ok request k.tokens password k.user w in
      (
        r,
        rw ((eq_iff s.provider request.provider).1 k.same_provider, k.enabled, k.exchanged, k.found)
            told,
        good,
      )

  pub check_request_inv :
      (request : CallbackRequest) (w : Store redis) {u : Unit {0}}
      → (check_request redis setup request w).0 ≡ ok u
      → (present request.error ≡ none)
        × (request.code ≢ "")
        × ((check_request redis setup request w).1 ≡ w)
  check_request_inv request w h = elim (Option-cases (present request.error)) [
    | inr (e, there) ↦ absurd (let bad = (rw (there, check_code) at h) in cc)
    | inl fine ↦ elim (Bool-cases (str_eq request.code "")) [
      | inl empty ↦ absurd (let bad = (rw (fine, check_code, empty) at h) in cc)
      | inr full ↦ (
        fine,
        (λ e. not_true (sym full ∙ (eq_iff request.code "").1 e)),
        rw (fine, check_code, full) refl,
      )
    ]
  ]
    where
      not_true : ◌≡◌ {A = Bool} false true → ⊥
      not_true h = cc

  -- A state is read, deleted, and then checked for its age.
  pub validate_inv :
      (state : String) (now : ℕ) (w : Store redis) (s : OauthState)
      → w.up ≡ true
      → (validate_and_retrieve_state redis setup state now w).0 ≡ ok s
      → (get OauthState state w.states ≡ some s) × (now ≤ s.timestamp + 600000)
  unfolding validate_and_retrieve_state
  validate_inv state now w s up h = elim (Option-cases (get OauthState state w.states)) [
    | inl missing ↦ absurd (ground arith)
    | inr (t, stored) ↦ ground arith
  ]

  pub validate-states :
      (state : String) (now : ℕ) (w : Store redis)
      → w.up ≡ true
      → ((validate_and_retrieve_state redis setup state now w).1.states
          ≡ del OauthState state w.states)
        ⊎ ((get OauthState state w.states ≡ none)
            × ((validate_and_retrieve_state redis setup state now w).1.states ≡ w.states))
  unfolding validate_and_retrieve_state
  validate-states state now w up = elim (Option-cases (get OauthState state w.states)) [
    | inl missing ↦ inr (missing, ground arith)
    | inr (t, stored) ↦ inl (ground arith)
  ]

  pub validate-ok :
      (state : String) (now : ℕ) (w : Store redis) (s : OauthState)
      → w.up ≡ true
      → get OauthState state w.states ≡ some s
      → now ≤ s.timestamp + 600000
      → (validate_and_retrieve_state redis setup state now w).0 ≡ ok s
  unfolding validate_and_retrieve_state
  validate-ok state now w s up stored young = ground arith

  pub validate-up :
      (state : String) (now : ℕ) (w : Store redis)
      → (validate_and_retrieve_state redis setup state now w).1.up ≡ w.up
  unfolding validate_and_retrieve_state
  validate-up state now w = ground arith

  pub validate_down :
      (state : String) (now : ℕ) (w : Store redis)
      → w.up ≡ false
      → (validate_and_retrieve_state redis setup state now w).1.states ≡ w.states
  unfolding validate_and_retrieve_state
  validate_down state now w down = ground arith

  pub after_read-ok :
      (state : String) (now : ℕ) (w : Store redis) (s : OauthState)
      → w.up ≡ true
      → now ≤ s.timestamp + 600000
      → (after_read redis setup state now (some s) w).0 ≡ ok s
  after_read-ok state now w s up young = ground arith

  pub after_read-up :
      (state : String) (now : ℕ) (w : Store redis) (found : Option OauthState)
      → (after_read redis setup state now found w).1.up ≡ w.up
  after_read-up state now w none = refl
  after_read-up state now w (some s) = ground arith
