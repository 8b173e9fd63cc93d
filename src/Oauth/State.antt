-- ===== src/Oauth/State.antt =====
-- The data of smp-auth-ts/src/interface/oauth.interface.ts, what
-- smp-auth-ts/src/services/oauth.service.ts keeps in Redis, and what it asks of the providers and of
-- the identity server.
use Prim.Native.String.{◌++◌ as append}
use anticipation.Base.{
  ℕ, String, List, [], ◌∷◌, ◌++◌, Bool, true, false, Option, none, some, if◌then◌else◌,
}
use anticipation.Base.Result.{Result, ok, err}
use anticipation.Base.Exec.{Exec}
use anticipation.Redis.Laws.{Redis}

pub record Tokens : Type 0 where
  pub access_token : String
  pub token_type : String
  pub expires_in : ℕ
  pub refresh_token : Option String

pub record OauthUser : Type 0 where
  pub id : String
  pub email : String
  pub username : Option String
  pub verified : Option Bool
  pub provider : String

pub record OauthState : Type 0 where
  pub provider : String
  pub redirect_uri : Option String
  pub timestamp : ℕ
  pub nonce : String
  pub original_url : Option String

pub record LinkedAccount : Type 0 where
  pub user_id : String
  pub provider : String
  pub provider_user_id : String
  pub email : String
  pub linked_at : ℕ

-- A provider and what it answers during a call; `err` is a thrown error.
pub record Provider : Type 0 where
  pub auth_url : String → String
  pub exchange_code : String → String → Result String Tokens
  pub user_info : String → Result String OauthUser
  pub refresh : Option (String → Result String Tokens)

pub record NewUser : Type 0 where
  pub username : String
  pub email : String
  pub password : String
  pub email_verified : Bool
  pub oauth_provider : String
  pub oauth_user_id : String

-- What the identity server answers during a call.
pub record Keycloak : Type 0 where
  pub user_by_email : String → Result String (Option String)
  -- Whether the registration succeeds.
  pub register : NewUser → Result String Bool
  -- The search after a registration.
  pub registered_user : String → Result String (Option String)
  pub admin_token : Result String String
  pub client_token : Result String Tokens

pub data OauthEvent : Type 0 where
  started : String → OauthEvent
  failed : String → String → OauthEvent
  user_info_retrieved : String → String → OauthEvent
  completed : String → String → Bool → OauthEvent
  account_linked account_unlinked : String → String → String → OauthEvent
  token_refreshed : String → String → ℕ → OauthEvent

-- What the methods throw.
pub data OauthError : Type 0 where
  redis_down provider_missing no_code invalid_state state_expired provider_mismatch : OauthError
  auto_creation_disabled creation_failed user_missing : OauthError
  provider_error : String → OauthError
  remote : String → OauthError

-- What stands in the holes of a key with two holes, with the colon between them.
abbrev pub pair_key : String → String → String
pair_key a b = append a (append ":" b)

module _ (redis : Redis) where
  open redis use {Strings, get, set, del}

  pub record Store : Type 0 where
    -- Whether the connection to Redis works during the call.
    pub up : Bool
    -- oauth:state:${state}
    pub states : Strings OauthState
    -- oauth:linked:${user}:${provider}
    pub linked : Strings LinkedAccount
    -- oauth:user:${provider}:${provider user}
    pub owners : Strings String
    -- oauth:tokens:${user}:${provider}
    pub tokens : Strings Tokens
    -- What emitEvent handed to the listeners, and what it stored under oauth:events:${id}.
    pub emitted : List OauthEvent
    pub stored : List OauthEvent

  abbrev pub M : Type 0 → Type 0
  M A = Exec Store OauthError A

  -- What another service answers.
  abbrev pub answer : {A : Type 0} → Result String A → M A
  answer (ok a) w = (ok a, w)
  answer (err e) w = (err (remote e), w)

  -- A command through RedisClientImpl.get, set or delete: it throws if the connection is down.
  abbrev pub outcome : {A : Type 0} → Bool → A → Result OauthError A
  outcome true a = ok a
  outcome false a = err redis_down

  abbrev pub get_state : String → M (Option OauthState)
  get_state k w = (outcome w.up (get OauthState k w.states), w)

  abbrev pub set_state : String → OauthState → ℕ → M (Unit {0})
  set_state k v ttl w = (
    outcome w.up tt,
    record w { states = if w.up then set OauthState k v (some ttl) w.states else w.states },
  )

  abbrev pub delete_state : String → M (Unit {0})
  delete_state k w =
      (outcome w.up tt, record w { states = if w.up then del OauthState k w.states else w.states })

  abbrev pub get_linked : String → M (Option LinkedAccount)
  get_linked k w = (outcome w.up (get LinkedAccount k w.linked), w)

  abbrev pub set_linked : String → LinkedAccount → M (Unit {0})
  set_linked k v w = (
    outcome w.up tt,
    record w { linked = if w.up then set LinkedAccount k v none w.linked else w.linked },
  )

  abbrev pub delete_linked : String → M (Unit {0})
  delete_linked k w = (
    outcome w.up tt,
    record w { linked = if w.up then del LinkedAccount k w.linked else w.linked },
  )

  abbrev pub set_owner : String → String → M (Unit {0})
  set_owner k v w = (
    outcome w.up tt,
    record w { owners = if w.up then set String k v none w.owners else w.owners },
  )

  abbrev pub delete_owner : String → M (Unit {0})
  delete_owner k w =
      (outcome w.up tt, record w { owners = if w.up then del String k w.owners else w.owners })

  abbrev pub get_tokens : String → M (Option Tokens)
  get_tokens k w = (outcome w.up (get Tokens k w.tokens), w)

  abbrev pub set_tokens : String → Tokens → ℕ → M (Unit {0})
  set_tokens k v ttl w = (
    outcome w.up tt,
    record w { tokens = if w.up then set Tokens k v (some ttl) w.tokens else w.tokens },
  )

  -- emitEvent: neither a listener nor Redis makes it fail.
  abbrev pub emit : OauthEvent → M (Unit {0})
  emit e w = (
    ok tt,
    record w {
      emitted = w.emitted ++ e ∷ [];
      stored = if w.up then w.stored ++ e ∷ [] else w.stored;
    },
  )
