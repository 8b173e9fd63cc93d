-- ===== src/Extended/Login.antt =====
-- What loginWithMFA of smp-auth-ts/src/services/auth-extended.service.ts gives.
use anticipation.Base.{
  ◌≡◌, refl, sym, ap, ◌∙◌, String, true, false, Option, none, some, inl, inr, ◌⊎◌,
}
use anticipation.Base.Result.{Result, ok, err, ok_injective, Result-cases}
use anticipation.Base.Exec.{pure, handle, resume, Ensures, Ensures-resume}
use anticipation.Redis.Laws.{Redis}
use anticipation.Auth.State.{
  AuthResponse, TokenValidation, Servers, AuthError, invalid_credentials, World as AuthWorld,
}
use anticipation.Auth.{login, validate_token}
use anticipation.Mfa.State.{Challenge, Config, Error, World as MfaWorld}
use anticipation.Mfa.Challenges.{initiate_challenge}
use anticipation.Extended.{
  ExtendedOptions, Thrown, LoginResult, Both, Draw, Message, authentication_failed, failure,
  login_failed, with_mfa, with_auth, second_step, login_with_mfa, user_of, challenged, M,
  is_trusted,
}
use anticipation.Extended.Stored.{initiate_challenge-IsStored}

-- What loginWithMFA makes of an error is a result.
caught :
    (redis : Redis) (Q : LoginResult → Both redis → Type 0)
    (x : Result Thrown LoginResult × Both redis)
    → Ensures Q x
    → ((e : Thrown) (s : Both redis) → Q (failure (login_failed e)) s)
    → (r : LoginResult) × ((handle (λ e. pure (failure (login_failed e))) x).0 ≡ ok r)
      × Q r (handle (λ e. pure (failure (login_failed e))) x).1
caught redis Q (ok r, s) ensured failed = (r, refl, ensured r refl)
caught redis Q (err e, s) ensured failed = (failure (login_failed e), refl, failed e s)

module _ {A B : Type 0} (redis : Redis) (Q : B → Both redis → Type 0) (w : Both redis) where
  Ensures-with_auth :
      (f : A → M redis B) (x : Result AuthError A × AuthWorld redis)
      → ((a : A) → x.0 ≡ ok a → Ensures {E = Thrown} Q (f a (record w { auth = x.1 })))
      → Ensures {E = Thrown} Q (resume f (with_auth redis w x))
  Ensures-with_auth f (ok a, u) rest = rest a refl
  Ensures-with_auth f (err e, u) rest = λ b told. absurd cc

  Ensures-with_mfa :
      (f : A → M redis B) (x : Result Error A × MfaWorld redis)
      → ((a : A) → x.0 ≡ ok a → Ensures {E = Thrown} Q (f a (record w { mfa = x.1 })))
      → Ensures {E = Thrown} Q (resume f (with_mfa redis w x))
  Ensures-with_mfa f (ok a, u) rest = rest a refl
  Ensures-with_mfa f (err e, u) rest = λ b told. absurd cc

module _ (redis : Redis) (config : Config) (options : ExtendedOptions) where
  open redis use {Strings, get}

  -- The result has no token, and a challenge for the user if it is a success.
  abbrev IsAsked : Option String → Draw → LoginResult → Both redis → Type 0
  IsAsked user draw r s =
      (r.auth_response ≡ none)
      × ((r.success ≡ false)
          ⊎ ((c : Challenge) × (r.mfa_challenge ≡ some c)
              × (user ≡ some c.user_id)
              × (get Challenge draw.id s.mfa.challenges ≡ some c)))

  failure-IsAsked :
      (user : Option String) (draw : Draw) (m : Message) (r : LoginResult) (w : Both redis)
      → failure m ≡ r
      → IsAsked user draw r w
  failure-IsAsked user draw m r w same = (
    sym (ap (λ (z : LoginResult). z.auth_response) same),
    inl (sym (ap (λ (z : LoginResult). z.success) same)),
  )

  second_step-IsAsked :
      (response : AuthResponse) (fingerprint : Option String) (draw : Draw) (user : Option String)
      (w : Both redis)
      → options.enable_mfa ≡ true
      → Ensures
          (IsAsked user draw)
          (second_step redis config options response fingerprint draw user w)
  unfolding second_step
  second_step-IsAsked response fingerprint draw none w on =
      λ r told. failure-IsAsked none draw authentication_failed r w (ok_injective told)
  second_step-IsAsked response fingerprint draw (some user) w on =
      Ensures-resume (IsAsked (some user) draw) _
        (λ trusted v. rw on (
          Ensures-with_mfa redis (IsAsked (some user) draw) v _
            (initiate_challenge redis config user none draw.id draw.random draw.now v.mfa)
            (λ c told.
              let (stored, owned) =
                initiate_challenge-IsStored redis config user draw.id draw.random none draw.now
                  v.mfa c told in
              λ r told'.
                let same : challenged c trusted ≡ r = ok_injective told' in
                (
                  sym (ap (λ (z : LoginResult). z.auth_response) same),
                  inr (
                    c,
                    sym (ap (λ (z : LoginResult). z.mfa_challenge) same),
                    ap some (sym owned),
                    stored,
                  ),
                ))))
        (is_trusted redis config options user fingerprint draw.now w)

  login_inv :
      (servers : Servers) (username password : String) (w : AuthWorld redis)
      (response : AuthResponse)
      → (login redis options.base servers username password w).0 ≡ ok response
      → servers.login username password ≡ ok response
  unfolding login
  login_inv servers username password w response told =
      elim (Result-cases (servers.login username password)) [
        | inl (given, taken) ↦
            let same : ◌≡◌ {A = Result AuthError AuthResponse} (ok given) (ok response) =
              simp taken at told in
            taken ∙ ap ok (ok_injective same)
        | inr (e, failed) ↦
            let bad : ◌≡◌ {A = Result AuthError AuthResponse} (err (invalid_credentials e))
                (ok response) =
              simp failed at told in
            absurd cc
      ]

  module _ (token_hash : String → String) where
    -- The challenge of a login: the identity server took the password, and the challenge, which is
    -- stored, is for the user of the token that it gave.
    pub record IsChallenge (servers : Servers) (username password : String) (draw : Draw)
        (w : Both redis) (c : Challenge) (s : Both redis) : Type 0 where
      pub response : AuthResponse
      pub accepted : servers.login username password ≡ ok response
      pub validation : TokenValidation
      pub validated :
          (validate_token redis options.base token_hash servers response.access_token draw.now
            (login redis options.base servers username password w.auth).1).0
          ≡ ok validation
      pub user : user_of redis config options validation ≡ some c.user_id
      pub stored : get Challenge draw.id s.mfa.challenges ≡ some c

    abbrev pub NeedsCode :
        Servers → String → String → Draw → Both redis → LoginResult → Both redis → Type 0
    NeedsCode servers username password draw w r s =
        (r.auth_response ≡ none)
        × ((r.success ≡ false)
            ⊎ ((c : Challenge) × (r.mfa_challenge ≡ some c)
                × IsChallenge servers username password draw w c s))

    -- With second factors on, loginWithMFA gives no token. It returns without an error, and what it
    -- returns is a failure, or has a challenge: then the identity server took the password, and the
    -- challenge is stored for the user of the token that it gave.
    pub login_with_mfa-NeedsCode :
        (servers : Servers) (username password : String) (fingerprint : Option String) (draw : Draw)
        (w : Both redis)
        → options.enable_mfa ≡ true
        → (r : LoginResult) × ((login_with_mfa redis config options token_hash servers username
              password fingerprint draw w).0
            ≡ ok r)
          × NeedsCode servers username password draw w r
              (login_with_mfa redis config options token_hash servers username password fingerprint
                draw w).1
    unfolding login_with_mfa
    login_with_mfa-NeedsCode servers username password fingerprint draw w on =
        caught redis Q _
          (Ensures-with_auth redis Q w _ (login redis options.base servers username password w.auth)
            (λ response told.
              Ensures-with_auth redis Q
                (record w { auth = (login redis options.base servers username password w.auth).1 })
                _ _
                (λ validation told' r told''.
                  let (silent, either) =
                    second_step-IsAsked response fingerprint draw
                      (user_of redis config options validation)
                      (record w {
                        auth =
                            (validate_token redis options.base token_hash servers
                              response.access_token draw.now
                              (login redis options.base servers username password w.auth).1).1;
                      })
                      on r told'' in
                  (
                    silent,
                    elim either [
                      | inl failed ↦ inl failed
                      | inr (c, shown, owned, stored) ↦ inr (
                        c,
                        shown,
                        record {
                          response = response;
                          accepted = login_inv servers username password w.auth response told;
                          validation = validation;
                          validated = told';
                          user = owned;
                          stored = stored;
                        },
                      )
                    ],
                  ))))
          (λ e s. (refl, inl refl))
      where
        Q : LoginResult → Both redis → Type 0
        Q = NeedsCode servers username password draw w
