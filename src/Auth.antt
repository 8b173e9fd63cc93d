-- ===== src/Auth.antt =====
-- smp-auth-ts/src/services/auth.service.ts: tokens, users and logout; Auth/Permission has the checks
-- of permissions. The clock and the servers' answers are arguments of the calls; a hash that the
-- source computes by MD5 is a parameter.
pub mod State
pub mod Permission
pub mod Logout
pub mod Tests
use Prim.Native.String.{◌++◌ as append}
use anticipation.Base.{
  ℕ, String, List, [], ◌∷◌, Bool, true, false, ◌&&◌, Option, none, some, str_eq, if◌then◌else◌,
}
use anticipation.Base.Result.{Result, ok, err}
use anticipation.Base.Exec.{pure, throw, ◌>>=◌, ◌>>◌, try}
use anticipation.Redis.Laws.{Redis}
use anticipation.RedisClient.Sessions.{close_user_sessions}
use anticipation.Auth.State.{
  UserInfo, AuthResponse, TokenValidation, Registration, Registered, AuthOptions, Servers,
  AuthEvent, logged_in, login_failed, token_refreshed, refresh_failed, token_validated,
  validation_failed, user_registered, registration_failed, logged_out, logout_failed, AuthError,
  server_failed, invalid_credentials, token_invalid, service_unavailable, World, M, answer, emit,
  read_token, write_token, read_info, write_info, read_roles, write_roles,
}

-- error.message
abbrev pub message : AuthError → String
message (server_failed e) = e
message (invalid_credentials e) = e
message (token_invalid e) = e
message (service_unavailable e) = e

-- A text that is defined and not empty.
abbrev pub present : Option String → Option String
present none = none
present (some s) = if str_eq s "" then none else some s

abbrev pub valid_token : UserInfo → TokenValidation
valid_token info = record {
  valid = true;
  user_id = some info.sub;
  email = info.email;
  given_name = info.given_name;
  family_name = info.family_name;
  roles = some info.roles;
}

abbrev pub invalid_token : TokenValidation
invalid_token = record {
  valid = false;
  user_id = none;
  email = none;
  given_name = none;
  family_name = none;
  roles = none;
}

abbrev pub user_tag : String → String
user_tag user = append "user:" user

module _ (redis : Redis) (options : AuthOptions) where
  unfoldable pub login : Servers → String → String → M redis AuthResponse
  login servers username password =
      try
        (do
          response ← answer redis (servers.login username password)
          emit redis options (logged_in username response.session_id)
          pure response)
        (λ e. do
          emit redis options (login_failed username (message e))
          throw (invalid_credentials (message e)))

  abbrev pub cache_user_info : UserInfo → ℕ → M redis (Unit {0})
  cache_user_info info now =
      write_info redis info.sub info options.cache_expiry ("user_info" ∷ user_tag info.sub ∷ []) now

  unfoldable pub refresh_token : Servers → String → ℕ → M redis AuthResponse
  refresh_token servers token now =
      try
        (do
          response ← answer redis (servers.refresh token)
          info ← answer redis (servers.validate response.access_token)
          (if options.enable_cache then cache_user_info info now else pure tt)
          emit redis options (token_refreshed info.sub)
          pure response)
        (λ e. do emit redis options (refresh_failed (message e)); throw (token_invalid (message e)))

  module _ (token_hash : String → String) where
    unfoldable pub validate_now : Servers → String → ℕ → M redis TokenValidation
    validate_now servers token now = do
      info ← answer redis (servers.validate token)
      (if options.enable_cache
          then write_token redis (token_hash token) (valid_token info) options.cache_expiry
              ("token_validation" ∷ user_tag info.sub ∷ []) now
          else pure tt)
      emit redis options (token_validated info.sub)
      pure (valid_token info)

    unfoldable pub unless_cached :
        Servers → String → ℕ → Option TokenValidation → M redis TokenValidation
    unfolding validate_now
    unless_cached servers token now none = validate_now servers token now
    unless_cached servers token now (some v) = pure v

    unfoldable pub validate_token : Servers → String → ℕ → M redis TokenValidation
    unfolding unless_cached
    validate_token servers token now =
        try
          (do
            cached ←
                (if options.enable_cache
                  then read_token redis (token_hash token) now
                  else pure none)
            unless_cached servers token now cached)
          (λ e. do emit redis options (validation_failed (message e)); pure invalid_token)

  abbrev pub emit_registered : Registration → Registered → Option String → M redis (Unit {0})
  emit_registered given result none = pure tt
  emit_registered given result (some user) =
      if result.success
      then emit redis options (user_registered user given.username given.email)
      else pure tt

  unfoldable pub register_user : Servers → Registration → M redis Registered
  register_user servers given =
      try
        (do
          result ← answer redis (servers.register given)
          emit_registered given result (present result.user_id)
          pure result)
        (λ e. do
          emit redis options (registration_failed given.username (message e))
          pure (record { success = false; user_id = none; errors = "SYSTEM_ERROR" ∷ [] }))

  abbrev pub cache_found : String → Option UserInfo → ℕ → M redis (Unit {0})
  cache_found user none now = pure tt
  cache_found user (some info) now =
      write_info redis user info options.cache_expiry ("user_info" ∷ user_tag user ∷ []) now

  abbrev pub info_unless_cached : Servers → String → ℕ → Option UserInfo → M redis (Option UserInfo)
  info_unless_cached servers user now (some info) = pure (some info)
  info_unless_cached servers user now none = do
    found ← answer redis (servers.user_info user)
    (if options.enable_cache then cache_found user found now else pure tt)
    pure found

  unfoldable pub get_user_info : Servers → String → ℕ → M redis (Option UserInfo)
  get_user_info servers user now =
      try
        (do
          cached ← (if options.enable_cache then read_info redis user now else pure none)
          info_unless_cached servers user now cached)
        (λ e. pure none)

  abbrev pub roles_unless_cached :
      Servers → String → ℕ → Option (List String) → M redis (List String)
  roles_unless_cached servers user now (some roles) = pure roles
  roles_unless_cached servers user now none = do
    roles ← answer redis (servers.roles user)
    (if options.enable_cache
        then write_roles redis user roles options.cache_expiry ("user_roles" ∷ user_tag user ∷ [])
            now
        else pure tt)
    pure roles

  unfoldable pub get_user_roles : Servers → String → ℕ → M redis (List String)
  get_user_roles servers user now =
      try
        (do
          cached ← (if options.enable_cache then read_roles redis user now else pure none)
          roles_unless_cached servers user now cached)
        (λ e. pure [])

  -- The user of a token, or nothing if the identity server rejects it.
  abbrev pub token_user : Result String UserInfo → Option String
  token_user (ok info) = present (some info.sub)
  token_user (err e) = none

  -- invalidateTokenCache comes before this and does nothing.
  abbrev pub close_sessions : Option String → M redis (Unit {0})
  close_sessions none w = (ok tt, w)
  close_sessions (some user) w = (
    ok tt,
    record w {
      sessions =
          if options.enable_session_tracking
          then close_user_sessions redis w.up user w.sessions
          else w.sessions;
    },
  )

  unfoldable pub logout : Servers → String → M redis (Unit {0})
  logout servers token =
      try
        (do
          answer redis (servers.logout token)
          close_sessions (token_user (servers.validate token))
          emit redis options (logged_out (token_user (servers.validate token))))
        (λ e. do
          emit redis options (logout_failed (message e))
          throw (service_unavailable (message e)))
