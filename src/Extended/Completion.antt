-- ===== src/Extended/Completion.antt =====
-- When completeMFALogin of smp-auth-ts/src/services/auth-extended.service.ts gives a token.
use anticipation.Base.{
  ℕ, ◌≡◌, ◌↔◌, refl, sym, ap, ◌∙◌, String, Bool, true, Option, none, some, Bool-cases, inl, inr,
}
use anticipation.Base.Result.{Result, ok, err, Result-cases, ok_injective}
use anticipation.Base.Exec.{pure, handle, resume}
use anticipation.Redis.Laws.{Redis}
use anticipation.Auth.State.{AuthResponse}
use anticipation.Mfa.State.{Method, Challenge, Config, Error, World as MfaWorld}
use anticipation.Mfa.Challenges.Verify.{Outcome, Request, verify_challenge}
use anticipation.Mfa.Challenges.Code.{IsRight}
use anticipation.Mfa.Challenges.Decision.{IsOpen, Succeeds}
use anticipation.Mfa.Challenges.Success.{verify_challenge-Succeeds_iff}
use anticipation.Extended.{
  ExtendedOptions, Thrown, LoginResult, Both, failure, completion_failed, logged_in, with_mfa,
  after_code, complete_mfa_login,
}

some_injective : {A : Type 0} {a b : A} → ◌≡◌ {A = Option A} (some a) (some b) → a ≡ b
some_injective h = cc

module _ (redis : Redis) (config : Config) (options : ExtendedOptions) (hash : String → String)
    (totp_verify : String → Option String → Option Bool) where
  -- The call returns the token.
  abbrev pub Gives : AuthResponse → Result Thrown LoginResult → Type 0
  Gives response x = (r : LoginResult) × (x ≡ ok r) × (r.auth_response ≡ some response)

  given_response :
      {x : Result Thrown LoginResult} (r : LoginResult) (response : AuthResponse)
      → x ≡ ok r
      → Gives response x
      → r.auth_response ≡ some response
  given_response r response is_it (s, told, given) =
      ap (λ (z : LoginResult). z.auth_response) (ok_injective (sym is_it ∙ told)) ∙ given

  no_response :
      {x : Result Thrown LoginResult} (r : LoginResult) (response : AuthResponse)
      → r.auth_response ≡ none
      → x ≡ ok r
      → ¬ Gives response x
  no_response r response nothing is_it h =
      let bad : none ≡ some response = sym nothing ∙ given_response r response is_it h in cc

  abbrev completed_with :
      Result String AuthResponse
      → Both redis
      → Result Error Outcome × MfaWorld redis
      → Result Thrown LoginResult × Both redis
  completed_with credentials w x =
      handle (λ e. pure (failure (completion_failed e)))
        (resume (after_code redis config options credentials) (with_mfa redis w x))

  accepted_iff :
      (credentials : Result String AuthResponse) (w : Both redis) (o : Outcome) (u : MfaWorld redis)
      (response : AuthResponse)
      → Gives response (completed_with credentials w (ok o, u)).0
        ↔ ((credentials ≡ ok response) × (o.success ≡ true))
  accepted_iff credentials w o u response = elim (Bool-cases o.success) [
    | inr refused ↦
        rw refused
          ((λ h. absurd (no_response _ response refl refl h)), (λ (taken, yes'). absurd cc))
    | inl right ↦ rw right (elim (Result-cases credentials) [
      | inl (other, taken) ↦ rw taken (
        (λ h.
            let e = given_response (logged_in other o.device_trusted) response refl h in
            (ap ok (some_injective e), refl)),
        (λ (same, yes'). (logged_in other o.device_trusted, refl, ap some (ok_injective same))),
      )
      | inr (e, failed) ↦
          rw failed
            ((λ h. absurd (no_response _ response refl refl h)), (λ (same, yes'). absurd cc))
    ])
  ]

  completed_iff :
      (credentials : Result String AuthResponse) (w : Both redis)
      (x : Result Error Outcome × MfaWorld redis) (response : AuthResponse)
      → Gives response (completed_with credentials w x).0
        ↔ ((credentials ≡ ok response) × Succeeds redis config hash totp_verify x)
  completed_iff credentials w (ok o, u) response =
      let one = accepted_iff credentials w o u response in
      (
        (λ h. let (taken, right) = one.0 h in (taken, (o, refl, right))),
        (λ (taken, (p, told, right)).
            one.1 (taken, ap (λ (z : Outcome). z.success) (ok_injective told) ∙ right)),
      )
  completed_iff credentials w (err e, u) response =
      ((λ h. absurd (no_response _ response refl refl h)), (λ (taken, (p, told, right)). absurd cc))

  -- With the connection up, completeMFALogin gives a token exactly if second factors are on, the
  -- challenge of the request is there, has not expired and has attempts left, its method is there, the
  -- code is right for the method, and the token is the one that the identity server gives to the
  -- service itself.
  pub complete_mfa_login-Gives_iff :
      (credentials : Result String AuthResponse) (r : Request) (device : String) (now : ℕ)
      (w : Both redis)
      → w.mfa.up ≡ true
      → (response : AuthResponse)
      → Gives response
          (complete_mfa_login redis config options hash totp_verify credentials r device now w).0
        ↔ ((options.enable_mfa ≡ true)
            × ((credentials ≡ ok response)
                × ((c : Challenge) × (m : Method) × IsOpen redis config hash totp_verify r now w.mfa
                      c m
                    × IsRight redis config hash totp_verify m.kind m c r.code w.mfa)))
  unfolding complete_mfa_login
  complete_mfa_login-Gives_iff credentials r device now w up response =
      let verdict = verify_challenge redis config hash totp_verify r device now w.mfa in
      let done = completed_iff credentials w verdict response in
      let code =
        verify_challenge-Succeeds_iff redis config hash totp_verify r device now w.mfa up in
      elim (Bool-cases options.enable_mfa) [
        | inr off ↦
            rw off ((λ h. absurd (no_response _ response refl refl h)), (λ (on, rest). absurd cc))
        | inl on ↦ rw on (
          (λ h. let (taken, passed) = done.0 h in (refl, (taken, code.0 passed))),
          (λ (yes', (taken, passed)). done.1 (taken, code.1 passed)),
        )
      ]
