-- ===== src/Oauth/Keeps.antt =====
-- Signing in after a callback leaves the stored states and the connection alone.
use anticipation.Base.{refl, String, Bool, Option, none, some, str_eq, if◌then◌else◌}
use anticipation.Base.Result.{Result, ok, err}
use anticipation.Base.Exec.{pure, throw, ◌>>=◌, Keeps, Keeps->>=, Keeps->>, Keeps-try, Keeps-if}
use anticipation.Base.JsMap.{map_get}
use anticipation.Redis.Laws.{Redis}
use anticipation.Oauth.State.{
  Tokens, OauthUser, OauthState, Provider, provider_mismatch, creation_failed,
  auto_creation_disabled, user_info_retrieved, Store, M, answer, emit, set_tokens, pair_key,
}
use anticipation.Oauth.{
  OauthSetup, CallbackRequest, require_provider, require_user, new_user, find_or_create,
  create_user, integrate, with_found, with_known, store_user_tokens, open_session, complete,
  with_user, with_tokens, with_provider, check_provider, create_session,
  handle_keycloak_integration, sign_in, or_hour,
}

module _ (redis : Redis) (setup : OauthSetup) where
  open redis use {Strings, get, del}

  abbrev pub view : Store redis → Strings OauthState × Bool
  view w = (w.states, w.up)

  answer-Keeps : {A : Type 0} (r : Result String A) → Keeps view (answer redis r)
  answer-Keeps (ok a) w = refl
  answer-Keeps (err e) w = refl

  require_provider-Keeps : (p : Option Provider) → Keeps view (require_provider redis setup p)
  require_provider-Keeps none w = refl
  require_provider-Keeps (some p) w = refl

  require_user-Keeps : (u : Option String) → Keeps view (require_user redis setup u)
  require_user-Keeps none w = refl
  require_user-Keeps (some u) w = refl

  register_or_throw : OauthUser → Bool → M redis (Option String)
  register_or_throw user done =
      if done
      then answer redis (setup.keycloak.registered_user user.email)
      else throw creation_failed

  create_user-Keeps :
      (user : OauthUser) (password : String) → Keeps view (create_user redis setup user password)
  unfolding register_or_throw
  create_user-Keeps user password =
      Keeps->>= view (answer redis (setup.keycloak.register (new_user redis setup user password)))
        (register_or_throw user)
        (answer-Keeps (setup.keycloak.register (new_user redis setup user password)))
        (λ done.
          Keeps-if view done (answer redis (setup.keycloak.registered_user user.email))
            (throw creation_failed) (answer-Keeps (setup.keycloak.registered_user user.email))
            (λ w. refl))

  find_or_create-Keeps :
      (user : OauthUser) (password : String) (found : Option String)
      → Keeps view (find_or_create redis setup user password found)
  find_or_create-Keeps user password (some id) = λ w. refl
  find_or_create-Keeps user password none =
      Keeps-if view setup.auto_create_user (create_user redis setup user password)
        (throw auto_creation_disabled) (create_user-Keeps user password) (λ w. refl)

  session_tokens : M redis (Option Tokens)
  session_tokens = answer redis setup.keycloak.client_token >>= λ tokens. pure (some tokens)

  create_session-Keeps : Keeps view (create_session redis setup)
  unfolding session_tokens
  create_session-Keeps =
      Keeps-try view session_tokens (λ e. pure none)
        (Keeps->>= view (answer redis setup.keycloak.client_token) (λ tokens. pure (some tokens))
          (answer-Keeps setup.keycloak.client_token) (λ tokens w. refl))
        (λ e w. refl)

  store_user_tokens-Keeps :
      (user : OauthUser) (tokens : Tokens) (id : String)
      → Keeps view (store_user_tokens redis setup user tokens id)
  store_user_tokens-Keeps user tokens id =
      Keeps->> view
        (set_tokens redis (pair_key id user.provider) tokens (or_hour tokens.expires_in))
        (open_session redis setup) (λ w. refl)
        (Keeps->>= view (answer redis setup.keycloak.admin_token)
          (λ admin. create_session redis setup) (answer-Keeps setup.keycloak.admin_token)
          (λ admin. create_session-Keeps))

  keycloak-Keeps :
      (user : OauthUser) (tokens : Tokens) (password : String)
      → Keeps view (handle_keycloak_integration redis setup user tokens password)
  unfolding handle_keycloak_integration
  keycloak-Keeps user tokens password =
      Keeps-try view (integrate redis setup user tokens password) (λ e. pure none)
        (Keeps->>= view (answer redis (setup.keycloak.user_by_email user.email))
          (with_found redis setup user tokens password)
          (answer-Keeps (setup.keycloak.user_by_email user.email))
          (λ found.
            Keeps->>= view (find_or_create redis setup user password found)
              (with_known redis setup user tokens) (find_or_create-Keeps user password found)
              (λ known.
                Keeps->>= view (require_user redis setup known)
                  (store_user_tokens redis setup user tokens) (require_user-Keeps known)
                  (store_user_tokens-Keeps user tokens))))
        (λ e w. refl)

  with_user-Keeps :
      (request : CallbackRequest) (tokens : Tokens) (password : String) (user : OauthUser)
      → Keeps view (with_user redis setup request tokens password user)
  with_user-Keeps request tokens password user w =
      Keeps->>= view (handle_keycloak_integration redis setup user tokens password)
        (complete redis setup request user tokens) (keycloak-Keeps user tokens password)
        (λ keycloak_tokens v. refl)
        (emit redis (user_info_retrieved request.provider user.email) w).1

  pub sign_in-Keeps :
      (request : CallbackRequest) (password : String) (s : OauthState)
      → Keeps view (sign_in redis setup request password s)
  unfolding sign_in
  sign_in-Keeps request password s =
      Keeps->> view (check_provider redis setup request s)
        (require_provider redis setup (map_get request.provider setup.providers)
          >>= with_provider redis setup request password)
        (Keeps-if view (str_eq s.provider request.provider) (pure tt) (throw provider_mismatch)
          (λ w. refl) (λ w. refl))
        (Keeps->>= view (require_provider redis setup (map_get request.provider setup.providers))
          (with_provider redis setup request password)
          (require_provider-Keeps (map_get request.provider setup.providers))
          (λ provider.
            Keeps->>= view (answer redis (provider.exchange_code request.code request.state))
              (with_tokens redis setup request password provider)
              (answer-Keeps (provider.exchange_code request.code request.state))
              (λ tokens.
                Keeps->>= view (answer redis (provider.user_info tokens.access_token))
                  (with_user redis setup request tokens password)
                  (answer-Keeps (provider.user_info tokens.access_token))
                  (with_user-Keeps request tokens password))))
