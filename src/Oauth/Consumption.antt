-- ===== src/Oauth/Consumption.antt =====
-- What handleCallback of smp-auth-ts/src/services/oauth.service.ts leaves of the stored states.
use anticipation.Base.{
  ℕ, ◌≡◌, ◌≢◌, ◌⊎◌, refl, inl, inr, String, true, none, str_eq, if◌then◌else◌, Bool-cases, ap, ◌∙◌,
  sym, subst, eq_refl,
}
use anticipation.Base.Result.{ok, err}
use anticipation.Base.Exec.{resume, handle, Keeps-resume, Keeps-handle}
use anticipation.Redis.Laws.{Redis}
use anticipation.Oauth.State.{OauthState, OauthError, Store}
use anticipation.Oauth.{
  OauthSetup, CallbackRequest, present, check_request, validate_and_retrieve_state, sign_in,
  failing, handle_callback,
}
use anticipation.Oauth.Keeps.{view, sign_in-Keeps}
use anticipation.Oauth.Callback.{validate-states, validate_down}
use anticipation.Oauth.Redeem.{check_request-cases, check_request-ok, checked}

module _ (redis : Redis) (setup : OauthSetup) where
  open redis use {get, del, get-del}

  failing-Keeps :
      (request : CallbackRequest) (e : OauthError) (w : Store redis)
      → view redis setup (failing redis setup request e w).1 ≡ view redis setup w
  failing-Keeps request e w = refl

  after_check :
      (request : CallbackRequest) (password : String) (now : ℕ) (w : Store redis)
      → check_request redis setup request w ≡ (ok tt, w)
      → view redis setup (handle_callback redis setup request password now w).1
        ≡ view redis setup (validate_and_retrieve_state redis setup request.state now w).1
  unfolding handle_callback
  after_check request password now w fine =
      subst
        (λ z.
          view redis setup
            (handle (failing redis setup request)
              (resume (λ u. checked redis setup request password now) z)).1
          ≡ view redis setup (validate_and_retrieve_state redis setup request.state now w).1)
        (sym fine)
        (Keeps-handle (view redis setup) (failing redis setup request) (failing-Keeps request)
            (checked redis setup request password now w)
          ∙ Keeps-resume (view redis setup) (sign_in redis setup request password)
              (sign_in-Keeps redis setup request password)
              (validate_and_retrieve_state redis setup request.state now w))

  after_refusal :
      (request : CallbackRequest) (password : String) (now : ℕ) (w : Store redis) (e : OauthError)
      → check_request redis setup request w ≡ (err e, w)
      → view redis setup (handle_callback redis setup request password now w).1 ≡ view redis setup w
  unfolding handle_callback
  after_refusal request password now w e refused =
      subst
        (λ z.
          view redis setup
            (handle (failing redis setup request)
              (resume (λ u. checked redis setup request password now) z)).1
          ≡ view redis setup w)
        (sym refused) refl

  states_after :
      (state : String) (now : ℕ) (w : Store redis)
      → ((validate_and_retrieve_state redis setup state now w).1.states
          ≡ del OauthState state w.states)
        ⊎ ((validate_and_retrieve_state redis setup state now w).1.states ≡ w.states)
  states_after state now w = elim (Bool-cases w.up) [
    | inr down ↦ inr (validate_down redis setup state now w down)
    | inl up ↦ elim (validate-states redis setup state now w up) [
      | inl deleted ↦ inl deleted
      | inr (missing, kept) ↦ inr kept
    ]
  ]

  -- A callback stores no state: each is as before, or gone.
  pub handle_callback-get :
      (request : CallbackRequest) (password : String) (now : ℕ) (w : Store redis) (k : String)
      → (get OauthState k (handle_callback redis setup request password now w).1.states
          ≡ get OauthState k w.states)
        ⊎ (get OauthState k (handle_callback redis setup request password now w).1.states ≡ none)
  handle_callback-get request password now w k = elim (check_request-cases redis setup request w) [
    | inr (e, refused) ↦
        inl (ap (λ z. get OauthState k z.0) (after_refusal request password now w e refused))
    | inl fine ↦
        let same = ap (λ z. get OauthState k z.0) (after_check request password now w fine) in
        elim (states_after request.state now w) [
          | inr kept ↦ inl (same ∙ ap (λ z. get OauthState k z) kept)
          | inl deleted ↦
              let gone =
                same
                ∙ ap (λ z. get OauthState k z) deleted
                ∙ get-del OauthState request.state k w.states in
              elim (Bool-cases (str_eq request.state k)) [
                | inl hit ↦ inr (gone ∙ ap (λ b. if b then none else get OauthState k w.states) hit)
                | inr miss ↦
                    inl (gone ∙ ap (λ b. if b then none else get OauthState k w.states) miss)
              ]
        ]
  ]

  -- The state of a callback that passes the first checks is gone after it, whatever it returns.
  pub handle_callback_consumes :
      (request : CallbackRequest) (password : String) (now : ℕ) (w : Store redis)
      → w.up ≡ true
      → present request.error ≡ none
      → request.code ≢ ""
      → get OauthState request.state (handle_callback redis setup request password now w).1.states
        ≡ none
  handle_callback_consumes request password now w up no_error has_code =
      let same =
        ap (λ z. get OauthState request.state z.0)
          (after_check request password now w
            (check_request-ok redis setup request w no_error has_code)) in
      elim (validate-states redis setup request.state now w up) [
        | inr (missing, kept) ↦ same ∙ ap (λ z. get OauthState request.state z) kept ∙ missing
        | inl deleted ↦
            same
            ∙ ap (λ z. get OauthState request.state z) deleted
            ∙ get-del OauthState request.state request.state w.states
            ∙ ap (λ b. if b then none else get OauthState request.state w.states)
                (eq_refl request.state)
      ]
