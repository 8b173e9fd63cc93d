-- ===== src/Oauth/Redeem.antt =====
-- When handleCallback of smp-auth-ts/src/services/oauth.service.ts succeeds, and which stored
-- states it leaves.
use anticipation.Base.{
  ℕ, ◌≡◌, ◌≢◌, ◌↔◌, ◌≤◌, ◌+◌, ◌⊎◌, refl, inl, inr, String, Bool, true, false, none, some, str_eq,
  Bool-cases, Option-cases, eq_iff, ap, ◌∙◌, sym, subst,
}
use anticipation.Base.Result.{Result, ok, err, ok_injective}
use anticipation.Base.Exec.{resume, handle, ◌>>=◌, ◌>>◌, resume_inv, resume_ok, handle_ok}
use anticipation.Redis.Laws.{Redis}
use anticipation.Oauth.State.{OauthState, OauthError, provider_error, no_code, Store, M}
use anticipation.Oauth.{
  OauthSetup, CallbackRequest, CallbackResponse, present, check_code, check_request,
  validate_and_retrieve_state, sign_in, failing, handle_callback,
}
use anticipation.Oauth.Callback.{
  IsKnown, sign_in_sound, sign_in_complete, check_request_inv, validate_inv, validate-ok,
}

abbrev pub Succeeds : {S E : Type 0} → Result E CallbackResponse × S → Type 0
Succeeds x = (r : CallbackResponse) × (x.0 ≡ ok r) × (r.success ≡ true)

module _ (redis : Redis) (setup : OauthSetup) where
  open redis use {get, del, get-del}

  -- What a callback must show: no error, a code, and a stored state of at most ten minutes for a
  -- provider that knows the user.
  pub record IsAccepted (request : CallbackRequest) (now : ℕ) (w : Store redis) : Type 0 where
    pub no_error : present request.error ≡ none
    pub has_code : request.code ≢ ""
    pub state : OauthState
    pub stored : get OauthState request.state w.states ≡ some state
    pub young : now ≤ state.timestamp + 600000
    pub known : IsKnown redis setup request state

  failing_inv :
      (request : CallbackRequest) (x : Result OauthError CallbackResponse × Store redis)
      → Succeeds (handle (failing redis setup request) x)
      → (r : CallbackResponse) × (x.0 ≡ ok r)
  failing_inv request (ok r, w) h = (r, refl)
  failing_inv request (err e, w) (r, told, good) =
      let bad : ◌≡◌ {A = Bool} false true =
        ap (λ (z : CallbackResponse). z.success) (ok_injective told) ∙ good in
      absurd cc

  abbrev pub checked : CallbackRequest → String → ℕ → M redis CallbackResponse
  checked request password now =
      validate_and_retrieve_state redis setup request.state now
      >>= sign_in redis setup request password

  handle_callback_sound :
      (request : CallbackRequest) (password : String) (now : ℕ) (w : Store redis)
      → w.up ≡ true
      → Succeeds (handle_callback redis setup request password now w)
      → IsAccepted request now w
  unfolding handle_callback
  handle_callback_sound request password now w up success =
      let (r, told) =
        failing_inv request ((check_request redis setup request >> checked request password now) w)
          success in
      let (u, allowed, h1) =
        resume_inv (λ u. checked request password now) (check_request redis setup request w) told in
      let (no_error, has_code, same) = check_request_inv redis setup request w allowed in
      let (s, validated, h2) =
        resume_inv (sign_in redis setup request password)
          (validate_and_retrieve_state redis setup request.state now
            (check_request redis setup request w).1)
          h1 in
      let (stored, young) = validate_inv redis setup request.state now w s up (
        subst (λ v. (validate_and_retrieve_state redis setup request.state now v).0 ≡ ok s) same
          validated) in
      record {
        no_error = no_error;
        has_code = has_code;
        state = s;
        stored = stored;
        young = young;
        known = sign_in_sound redis setup request password s _ h2;
      }

  pub check_request-ok :
      (request : CallbackRequest) (w : Store redis)
      → present request.error ≡ none
      → request.code ≢ ""
      → check_request redis setup request w ≡ (ok tt, w)
  check_request-ok request w fine full = elim (Bool-cases (str_eq request.code "")) [
    | inl empty ↦ absurd (full ((eq_iff request.code "").0 empty))
    | inr filled ↦ rw (fine, check_code, filled) refl
  ]

  pub check_request-cases :
      (request : CallbackRequest) (w : Store redis)
      → (check_request redis setup request w ≡ (ok tt, w))
        ⊎ ((e : OauthError) × (check_request redis setup request w ≡ (err e, w)))
  check_request-cases request w = elim (Option-cases (present request.error)) [
    | inr (e, there) ↦ inr (provider_error e, rw (there, check_code) refl)
    | inl fine ↦ elim (Bool-cases (str_eq request.code "")) [
      | inl empty ↦ inr (no_code, rw (fine, check_code, empty) refl)
      | inr filled ↦ inl (rw (fine, check_code, filled) refl)
    ]
  ]

  handle_callback_complete :
      (request : CallbackRequest) (password : String) (now : ℕ) (w : Store redis)
      → w.up ≡ true
      → IsAccepted request now w
      → Succeeds (handle_callback redis setup request password now w)
  unfolding handle_callback
  handle_callback_complete request password now w up a =
      let v = (validate_and_retrieve_state redis setup request.state now w).1 in
      let (r, told, good) = sign_in_complete redis setup request password a.state v a.known in
      let signed : (checked request password now w).0 ≡ ok r =
        ap (λ z. z.0)
          (resume_ok (sign_in redis setup request password) a.state
            (validate_and_retrieve_state redis setup request.state now w)
            (validate-ok redis setup request.state now w a.state up a.stored a.young))
        ∙ told in
      (
        r,
        subst
            (λ z.
              (handle (failing redis setup request)
                (resume (λ u. checked request password now) z)).0
              ≡ ok r)
            (sym (check_request-ok request w a.no_error a.has_code))
            (ap (λ z. z.0)
              (handle_ok (failing redis setup request) r (checked request password now w) signed)),
        good,
      )

  -- With the connection up, handleCallback succeeds exactly if the request has a code and no error,
  -- its state is stored for its provider and at most ten minutes old, and the enabled provider takes
  -- the code and names the user. What the identity server does with the user plays no part.
  pub handle_callback-Succeeds_iff :
      (request : CallbackRequest) (password : String) (now : ℕ) (w : Store redis)
      → w.up ≡ true
      → Succeeds (handle_callback redis setup request password now w) ↔ IsAccepted request now w
  handle_callback-Succeeds_iff request password now w up = (
    handle_callback_sound request password now w up,
    handle_callback_complete request password now w up,
  )
