-- ===== src/Extended.antt =====
-- Login in two steps of smp-auth-ts/src/services/auth-extended.service.ts: the service of tokens and
-- that of second factors one after the other, each on its own keys of one Redis server.
pub mod Stored
pub mod Login
pub mod Completion
pub mod Tests
use anticipation.Base.{
  ℕ, String, Bool, true, false, ◌&&◌, not, Option, none, some, str_eq, if◌then◌else◌,
}
use anticipation.Base.Result.{Result, ok, err}
use anticipation.Base.Exec.{Exec, pure, throw, ◌>>=◌, ◌>>◌, try}
use anticipation.Redis.Laws.{Redis}
use anticipation.Auth.State.{
  AuthResponse, AuthOptions, TokenValidation, Servers, AuthError, service_unavailable,
  World as AuthWorld, M as AuthM,
}
use anticipation.Auth.{login, validate_token, present}
use anticipation.Mfa.State.{Challenge, Config, Error, World as MfaWorld, M as MfaM}
use anticipation.Mfa.Challenges.{initiate_challenge}
use anticipation.Mfa.Challenges.Verify.{Outcome, Request, verify_challenge}
use anticipation.Mfa.Devices.{is_device_trusted}

pub record ExtendedOptions : Type 0 where
  pub base : AuthOptions
  -- The service of second factors is there exactly if this is set.
  pub enable_mfa : Bool
  pub enable_device_trust : Bool

pub data Thrown : Type 0 where
  auth_error : AuthError → Thrown
  mfa_error : Error → Thrown

-- The messages, by what they say.
pub data Message : Type 0 where
  authentication_failed mfa_required mfa_unavailable completed : Message
  code_refused : Outcome → Message
  login_failed completion_failed : Thrown → Message

pub record LoginResult : Type 0 where
  pub success : Bool
  pub auth_response : Option AuthResponse
  pub requires_mfa : Option Bool
  pub mfa_challenge : Option Challenge
  pub trusted_device : Option Bool
  pub message : Option Message

abbrev pub failure : Message → LoginResult
failure m = record {
  success = false;
  auth_response = none;
  requires_mfa = none;
  mfa_challenge = none;
  trusted_device = none;
  message = some m;
}

abbrev pub without_mfa : AuthResponse → Bool → LoginResult
without_mfa response trusted = record {
  success = true;
  auth_response = some response;
  requires_mfa = some false;
  mfa_challenge = none;
  trusted_device = some trusted;
  message = none;
}

abbrev pub challenged : Challenge → Bool → LoginResult
challenged c trusted = record {
  success = true;
  auth_response = none;
  requires_mfa = some true;
  mfa_challenge = some c;
  trusted_device = some trusted;
  message = some mfa_required;
}

abbrev pub logged_in : AuthResponse → Option Bool → LoginResult
logged_in response trusted = record {
  success = true;
  auth_response = some response;
  requires_mfa = some false;
  mfa_challenge = none;
  trusted_device = trusted;
  message = some completed;
}

-- What a password login brings: its time, and what a challenge draws.
pub record Draw : Type 0 where
  pub now : ℕ
  pub id : String
  pub random : String

module _ (redis : Redis) where
  pub record Both : Type 0 where
    pub auth : AuthWorld redis
    pub mfa : MfaWorld redis

  abbrev pub M : Type 0 → Type 0
  M A = Exec Both Thrown A

  abbrev pub with_auth :
      {A : Type 0} → Both → Result AuthError A × AuthWorld redis → Result Thrown A × Both
  with_auth w (ok a, u) = (ok a, record w { auth = u })
  with_auth w (err e, u) = (err (auth_error e), record w { auth = u })

  abbrev pub with_mfa :
      {A : Type 0} → Both → Result Error A × MfaWorld redis → Result Thrown A × Both
  with_mfa w (ok a, u) = (ok a, record w { mfa = u })
  with_mfa w (err e, u) = (err (mfa_error e), record w { mfa = u })

  -- A call of this.baseAuthService, and one of this.mfaService.
  abbrev pub on_auth : {A : Type 0} → AuthM redis A → M A
  on_auth m w = with_auth w (m w.auth)

  abbrev pub on_mfa : {A : Type 0} → MfaM redis A → M A
  on_mfa m w = with_mfa w (m w.mfa)

module _ (redis : Redis) (config : Config) (options : ExtendedOptions) where
  abbrev pub is_trusted : String → Option String → ℕ → M redis Bool
  is_trusted user none now = pure false
  is_trusted user (some fingerprint) now =
      if options.enable_device_trust && (not (str_eq fingerprint "") && options.enable_mfa)
      then on_mfa redis (is_device_trusted redis user fingerprint now)
      else pure false

  -- The rest of loginWithMFA, for the user of the token.
  unfoldable pub second_step :
      AuthResponse → Option String → Draw → Option String → M redis LoginResult
  second_step response fingerprint draw none = pure (failure authentication_failed)
  second_step response fingerprint draw (some user) = do
    trusted ← is_trusted user fingerprint draw.now
    if options.enable_mfa
        then (do
          c ← on_mfa redis (initiate_challenge redis config user none draw.id draw.random draw.now)
          pure (challenged c trusted))
        else pure (without_mfa response trusted)

  -- tokenValidation.valid && tokenValidation.userId
  abbrev pub user_of : TokenValidation → Option String
  user_of v = if v.valid then present v.user_id else none

  module _ (token_hash : String → String) where
    unfoldable pub login_with_mfa :
        Servers → String → String → Option String → Draw → M redis LoginResult
    unfolding second_step
    login_with_mfa servers username password fingerprint draw =
        try
          (do
            response ← on_auth redis (login redis options.base servers username password)
            validation ← on_auth redis (
                validate_token redis options.base token_hash servers response.access_token draw.now)
            second_step response fingerprint draw (user_of validation))
          (λ e. pure (failure (login_failed e)))

  -- getClientCredentialsToken, by what the identity server answers.
  abbrev pub client_credentials : Result String AuthResponse → M redis AuthResponse
  client_credentials (ok response) = pure response
  client_credentials (err e) = throw (auth_error (service_unavailable e))

  abbrev pub after_code : Result String AuthResponse → Outcome → M redis LoginResult
  after_code credentials o =
      if o.success
      then (do
        response ← client_credentials credentials
        pure (logged_in response o.device_trusted))
      else pure (failure (code_refused o))

  module _ (hash : String → String) (totp_verify : String → Option String → Option Bool) where
    unfoldable pub complete_mfa_login :
        Result String AuthResponse → Request → String → ℕ → M redis LoginResult
    complete_mfa_login credentials request device now =
        if options.enable_mfa
        then try
            (do
              o ← on_mfa redis (verify_challenge redis config hash totp_verify request device now)
              after_code credentials o)
            (λ e. pure (failure (completion_failed e)))
        else pure (failure mfa_unavailable)
