-- ===== src/Oauth.antt =====
-- smp-auth-ts/src/services/oauth.service.ts: authorization and its callback. Linked accounts are in
-- Oauth/Accounts. Random values, the clock and the answers of other services are arguments.
pub mod State
pub mod Accounts
pub mod Keeps
pub mod Callback
pub mod Consumption
pub mod Redeem
pub mod Race
pub mod SingleUse
pub mod Lifetime
pub mod Linking
mod Tests
use anticipation.Base.{
  ℕ, zero, suc, ◌-◌, String, List, [], ◌∷◌, Bool, true, false, Option, none, some, str_eq, ltb,
  if◌then◌else◌,
}
use anticipation.Base.Result.{Result, ok, err}
use anticipation.Base.Exec.{pure, throw, ◌>>=◌, ◌>>◌, try}
use anticipation.Base.JsMap.{map_get}
use anticipation.Redis.Laws.{Redis}
use anticipation.Oauth.State.{
  Tokens, OauthUser, OauthState, Provider, NewUser, Keycloak, started, failed, user_info_retrieved,
  completed, OauthError, redis_down, provider_missing, no_code, invalid_state, state_expired,
  provider_mismatch, auto_creation_disabled, creation_failed, user_missing, provider_error, remote,
  pair_key, Store, M, answer, get_state, set_state, delete_state, set_tokens, emit,
}

pub record OauthSetup : Type 0 where
  -- The providers that the configuration enables, by name.
  pub providers : List (String × Provider)
  pub keycloak : Keycloak
  pub auto_create_user : Bool

pub record AuthRequest : Type 0 where
  pub provider : String
  pub redirect_uri : Option String
  pub original_url : Option String

pub record AuthUrl : Type 0 where
  pub auth_url : String
  pub state : String
  pub provider : String

pub record CallbackRequest : Type 0 where
  pub provider : String
  pub code : String
  pub state : String
  pub error : Option String

pub record CallbackResponse : Type 0 where
  pub success : Bool
  pub user : Option OauthUser
  pub tokens : Option Tokens
  pub keycloak_tokens : Option Tokens
  pub error : Option OauthError

-- The text of an error, of which the model keeps the kind.
abbrev pub message : OauthError → String
message redis_down = "redis"
message provider_missing = "provider not found"
message no_code = "Authorization code not provided"
message invalid_state = "Invalid or expired OAuth state"
message state_expired = "OAuth state expired"
message provider_mismatch = "Provider mismatch in state"
message auto_creation_disabled = "User does not exist and auto-creation is disabled"
message creation_failed = "Failed to create user"
message user_missing = "Failed to retrieve user after creation"
message (provider_error e) = e
message (remote e) = e

-- A text that is defined and not empty.
abbrev pub present : Option String → Option String
present none = none
present (some s) = if str_eq s "" then none else some s

-- `expires_in || 3600`
abbrev pub or_hour : ℕ → ℕ
or_hour zero = 3600
or_hour (suc n) = suc n

abbrev pub is_some : {A : Type 0} → Option A → Bool
is_some none = false
is_some (some a) = true

abbrev pub verified_of : Option Bool → Bool
verified_of none = false
verified_of (some b) = b

-- `userInfo.username || userInfo.email`
abbrev pub username_of : Option String → String → String
username_of none email = email
username_of (some name) email = name

module _ (redis : Redis) (setup : OauthSetup) where
  abbrev pub require_provider : Option Provider → M redis Provider
  require_provider none = throw provider_missing
  require_provider (some p) = pure p

  -- getAuthorizationUrl; `state` and `nonce` are the random values that the call draws.
  unfoldable pub get_authorization_url : AuthRequest → String → String → ℕ → M redis AuthUrl
  get_authorization_url request state nonce now =
      try
        (do
          provider ← require_provider (map_get request.provider setup.providers)
          set_state redis state
              (record {
                provider = request.provider;
                redirect_uri = request.redirect_uri;
                timestamp = now;
                nonce = nonce;
                original_url = request.original_url;
              })
              600
          emit redis (started request.provider)
          pure (record {
            auth_url = provider.auth_url state;
            state = state;
            provider = request.provider;
          }))
        (λ e. do emit redis (failed request.provider (message e)); throw e)

  abbrev pub check_age : OauthState → ℕ → M redis OauthState
  check_age s now = if ltb 600000 (now - s.timestamp) then throw state_expired else pure s

  abbrev pub after_read : String → ℕ → Option OauthState → M redis OauthState
  after_read state now none = throw invalid_state
  after_read state now (some s) = do delete_state redis state; check_age s now

  unfoldable pub validate_and_retrieve_state : String → ℕ → M redis OauthState
  validate_and_retrieve_state state now = get_state redis state >>= after_read state now

  abbrev pub new_user : OauthUser → String → NewUser
  new_user user password = record {
    username = username_of (present user.username) user.email;
    email = user.email;
    password = password;
    email_verified = verified_of user.verified;
    oauth_provider = user.provider;
    oauth_user_id = user.id;
  }

  abbrev pub create_user : OauthUser → String → M redis (Option String)
  create_user user password = do
    done ← answer redis (setup.keycloak.register (new_user user password))
    (if done
        then answer redis (setup.keycloak.registered_user user.email)
        else throw creation_failed)

  -- updateUserOAuthAttributes asks for a token, catches its error, and updates nothing.
  abbrev pub find_or_create : OauthUser → String → Option String → M redis (Option String)
  find_or_create user password (some id) = pure (some id)
  find_or_create user password none =
      if setup.auto_create_user then create_user user password else throw auto_creation_disabled

  abbrev pub require_user : Option String → M redis String
  require_user none = throw user_missing
  require_user (some id) = pure id

  -- createKeycloakSessionForUser: the token is that of the service, for every user.
  abbrev pub create_session : M redis (Option Tokens)
  create_session =
      try (do tokens ← answer redis setup.keycloak.client_token; pure (some tokens))
        (λ e. pure none)

  abbrev pub open_session : M redis (Option Tokens)
  open_session = answer redis setup.keycloak.admin_token >>= λ admin. create_session

  -- storeUserTokens, and the session after it
  abbrev pub store_user_tokens : OauthUser → Tokens → String → M redis (Option Tokens)
  store_user_tokens user tokens id =
      set_tokens redis (pair_key id user.provider) tokens (or_hour tokens.expires_in)
      >> open_session

  abbrev pub with_known : OauthUser → Tokens → Option String → M redis (Option Tokens)
  with_known user tokens known = require_user known >>= store_user_tokens user tokens

  abbrev pub with_found : OauthUser → Tokens → String → Option String → M redis (Option Tokens)
  with_found user tokens password found =
      find_or_create user password found >>= with_known user tokens

  abbrev pub integrate : OauthUser → Tokens → String → M redis (Option Tokens)
  integrate user tokens password =
      answer redis (setup.keycloak.user_by_email user.email) >>= with_found user tokens password

  -- handleKeycloakIntegration: an error gives no tokens. `password` is random.
  unfoldable pub handle_keycloak_integration : OauthUser → Tokens → String → M redis (Option Tokens)
  handle_keycloak_integration user tokens password =
      try (integrate user tokens password) (λ e. pure none)

  abbrev pub check_code : CallbackRequest → Option String → M redis (Unit {0})
  check_code request (some e) = throw (provider_error e)
  check_code request none = if str_eq request.code "" then throw no_code else pure tt

  abbrev pub check_request : CallbackRequest → M redis (Unit {0})
  check_request request = check_code request (present request.error)

  abbrev pub signed_in : OauthUser → Tokens → Option Tokens → CallbackResponse
  signed_in user tokens keycloak_tokens = record {
    success = true;
    user = some user;
    tokens = some tokens;
    keycloak_tokens = keycloak_tokens;
    error = none;
  }

  abbrev pub complete :
      CallbackRequest → OauthUser → Tokens → Option Tokens → M redis CallbackResponse
  complete request user tokens keycloak_tokens =
      emit redis (completed request.provider user.email (is_some keycloak_tokens))
      >> pure (signed_in user tokens keycloak_tokens)

  abbrev pub with_user : CallbackRequest → Tokens → String → OauthUser → M redis CallbackResponse
  with_user request tokens password user =
      emit redis (user_info_retrieved request.provider user.email)
      >> (handle_keycloak_integration user tokens password >>= complete request user tokens)

  abbrev pub with_tokens : CallbackRequest → String → Provider → Tokens → M redis CallbackResponse
  with_tokens request password provider tokens =
      answer redis (provider.user_info tokens.access_token) >>= with_user request tokens password

  abbrev pub with_provider : CallbackRequest → String → Provider → M redis CallbackResponse
  with_provider request password provider =
      answer redis (provider.exchange_code request.code request.state)
      >>= with_tokens request password provider

  abbrev pub check_provider : CallbackRequest → OauthState → M redis (Unit {0})
  check_provider request s =
      if str_eq s.provider request.provider then pure tt else throw provider_mismatch

  -- What follows once the state is validated.
  unfoldable pub sign_in : CallbackRequest → String → OauthState → M redis CallbackResponse
  unfolding handle_keycloak_integration
  sign_in request password s =
      check_provider request s
      >> (require_provider (map_get request.provider setup.providers)
          >>= with_provider request password)

  abbrev pub failing : CallbackRequest → OauthError → M redis CallbackResponse
  failing request e = do
    emit redis (failed request.provider (message e))
    pure (record {
      success = false;
      user = none;
      tokens = none;
      keycloak_tokens = none;
      error = some e;
    })

  unfoldable pub handle_callback : CallbackRequest → String → ℕ → M redis CallbackResponse
  unfolding validate_and_retrieve_state sign_in
  handle_callback request password now =
      try
        (check_request request
          >> (validate_and_retrieve_state request.state now >>= sign_in request password))
        (failing request)

  -- The part of handleCallback after the state is read.
  abbrev pub finish_callback :
      CallbackRequest → String → ℕ → Option OauthState → M redis CallbackResponse
  finish_callback request password now found =
      try (after_read request.state now found >>= sign_in request password) (failing request)
