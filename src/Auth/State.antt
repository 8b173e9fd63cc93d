-- ===== src/Auth/State.antt =====
-- The data of smp-auth-ts/src/services/auth.service.ts, what it keeps in Redis and in the client of
-- the policy server, and what it asks of the identity server.
use anticipation.Base.{ℕ, String, List, [], ◌∷◌, ◌++◌, Bool, true, false, Option, if◌then◌else◌}
use anticipation.Base.Result.{Result, ok, err}
use anticipation.Base.Exec.{Exec}
use anticipation.Redis.Laws.{Redis}
use anticipation.RedisClient.Cache.{CacheEntry, get_cache, set_cache}
use anticipation.RedisClient.Sessions.{SessionState}
use anticipation.Opa.{Json, Fields, Answer, Client, check_permission, OpaResult}

pub record UserInfo : Type 0 where
  pub sub : String
  pub email : Option String
  pub given_name : Option String
  pub family_name : Option String
  pub roles : List String
  pub organization_ids : Option (List String)
  pub state : Option String
  pub attributes : Option Json

pub record AuthResponse : Type 0 where
  pub access_token : String
  pub refresh_token : Option String
  pub token_type : String
  pub expires_in : ℕ
  pub session_id : Option String

pub record TokenValidation : Type 0 where
  pub valid : Bool
  pub user_id : Option String
  pub email : Option String
  pub given_name : Option String
  pub family_name : Option String
  pub roles : Option (List String)

pub record Authorization : Type 0 where
  pub allowed : Bool
  pub reason : Option Json
  pub timestamp : ℕ
  pub cached : Bool

pub record Registration : Type 0 where
  pub username : String
  pub email : String
  pub password : String

pub record Registered : Type 0 where
  pub success : Bool
  pub user_id : Option String
  pub errors : List String

pub record OpaUser : Type 0 where
  pub id : String
  pub roles : List String
  pub organization_ids : Option (List String)
  pub state : Option String
  pub attributes : Option Json

pub record OpaInput : Type 0 where
  pub user : OpaUser
  pub resource_id : String
  pub resource_type : String
  pub action : String
  pub context : Fields

pub record AuthOptions : Type 0 where
  pub enable_cache : Bool
  pub cache_expiry : ℕ
  pub enable_logging : Bool
  pub enable_session_tracking : Bool

pub record Clock : Type 0 where
  pub now : ℕ
  -- Of the local time.
  pub hour : ℕ
  pub day : ℕ

-- What the identity server and the policy server answer during a call; `err` is a thrown error.
pub record Servers : Type 0 where
  pub login : String → String → Result String AuthResponse
  pub refresh : String → Result String AuthResponse
  pub validate : String → Result String UserInfo
  pub logout : String → Result String (Unit {0})
  pub user_info : String → Result String (Option UserInfo)
  pub roles : String → Result String (List String)
  pub register : Registration → Result String Registered
  pub policy : OpaInput → Answer

pub data AuthEvent : Type 0 where
  logged_in : String → Option String → AuthEvent
  login_failed : String → String → AuthEvent
  token_refreshed : String → AuthEvent
  refresh_failed : String → AuthEvent
  token_validated : String → AuthEvent
  validation_failed : String → AuthEvent
  user_registered : String → String → String → AuthEvent
  registration_failed : String → String → AuthEvent
  logged_out : Option String → AuthEvent
  logout_failed : String → AuthEvent
  access_checked : String → String → String → String → Bool → Option Json → AuthEvent
  check_failed : String → String → String → String → AuthEvent

pub record LogEntry : Type 0 where
  pub user_id : String
  pub resource_id : String
  pub resource_type : String
  pub action : String
  pub allowed : Bool
  pub reason : Option Json
  pub context : Fields

-- What enhanceError makes of an error.
pub data AuthError : Type 0 where
  server_failed : String → AuthError
  invalid_credentials token_invalid service_unavailable : String → AuthError

module _ (redis : Redis) where
  open redis use {Strings, Sets}

  pub record World : Type 0 where
    -- Whether the connection to Redis works during the call.
    pub up : Bool
    -- auth:token:validation:${hash}
    pub tokens : Strings (CacheEntry TokenValidation)
    -- auth:user:info:${user}
    pub infos : Strings (CacheEntry UserInfo)
    -- auth:user:roles:${user}
    pub roles : Strings (CacheEntry (List String))
    -- auth:authz:${hash}
    pub decisions : Strings (CacheEntry Authorization)
    -- cache:tags:${tag}
    pub tags : Sets
    pub sessions : SessionState redis
    -- auth:log:${id}, in the order of the calls
    pub logs : List LogEntry
    -- What emitEvent handed to the listeners, and what it stored under auth:events:${id}.
    pub emitted : List AuthEvent
    pub stored : List AuthEvent
    pub opa : Client

  abbrev pub M : Type 0 → Type 0
  M A = Exec World AuthError A

  -- What a server answers.
  abbrev pub answer : {A : Type 0} → Result String A → M A
  answer (ok a) w = (ok a, w)
  answer (err e) w = (err (server_failed e), w)

  abbrev pub keep : List AuthEvent → AuthEvent → Bool → Bool → List AuthEvent
  keep es e true true = es ++ e ∷ []
  keep es e true false = es
  keep es e false up = es

  -- emitEvent: neither a listener nor Redis makes it fail.
  abbrev pub emit : AuthOptions → AuthEvent → M (Unit {0})
  emit options e w = (
    ok tt,
    record w {
      emitted = w.emitted ++ e ∷ [];
      stored = keep w.stored e options.enable_logging w.up;
    },
  )

  -- logAuthorizationDecision, whose errors are caught.
  abbrev pub log_decision : LogEntry → M (Unit {0})
  log_decision e w = (ok tt, record w { logs = if w.up then w.logs ++ e ∷ [] else w.logs })

  -- Reads and writes of the four caches: an error gives nothing, or is dropped.
  abbrev pub read_token : String → ℕ → M (Option TokenValidation)
  read_token key now w =
      let (found, s) =
        get_cache redis w.up key now (record { entries = w.tokens; tags = w.tags }) in
      (ok found, record w { tokens = s.entries; tags = s.tags })

  abbrev pub write_token : String → TokenValidation → ℕ → List String → ℕ → M (Unit {0})
  write_token key v ttl names now w =
      let s =
        (set_cache redis w.up key v ttl names now
          (record { entries = w.tokens; tags = w.tags })).1 in
      (ok tt, record w { tokens = s.entries; tags = s.tags })

  abbrev pub read_info : String → ℕ → M (Option UserInfo)
  read_info key now w =
      let (found, s) = get_cache redis w.up key now (record { entries = w.infos; tags = w.tags }) in
      (ok found, record w { infos = s.entries; tags = s.tags })

  abbrev pub write_info : String → UserInfo → ℕ → List String → ℕ → M (Unit {0})
  write_info key v ttl names now w =
      let s =
        (set_cache redis w.up key v ttl names now
          (record { entries = w.infos; tags = w.tags })).1 in
      (ok tt, record w { infos = s.entries; tags = s.tags })

  abbrev pub read_roles : String → ℕ → M (Option (List String))
  read_roles key now w =
      let (found, s) = get_cache redis w.up key now (record { entries = w.roles; tags = w.tags }) in
      (ok found, record w { roles = s.entries; tags = s.tags })

  abbrev pub write_roles : String → List String → ℕ → List String → ℕ → M (Unit {0})
  write_roles key v ttl names now w =
      let s =
        (set_cache redis w.up key v ttl names now
          (record { entries = w.roles; tags = w.tags })).1 in
      (ok tt, record w { roles = s.entries; tags = s.tags })

  abbrev pub read_decision : String → ℕ → M (Option Authorization)
  read_decision key now w =
      let (found, s) =
        get_cache redis w.up key now (record { entries = w.decisions; tags = w.tags }) in
      (ok found, record w { decisions = s.entries; tags = s.tags })

  abbrev pub write_decision : String → Authorization → ℕ → List String → ℕ → M (Unit {0})
  write_decision key v ttl names now w =
      let s =
        (set_cache redis w.up key v ttl names now
          (record { entries = w.decisions; tags = w.tags })).1 in
      (ok tt, record w { decisions = s.entries; tags = s.tags })

  abbrev pub server_error : {A : Type 0} → Result String A → Result AuthError A
  server_error (ok a) = ok a
  server_error (err e) = err (server_failed e)

  -- checkPermission of the policy client; `key` is its key of the input.
  abbrev pub ask_policy : String → ℕ → Answer → M OpaResult
  ask_policy key now body w =
      let (result, client) = check_permission key now body w.opa in
      (server_error result, record w { opa = client })
