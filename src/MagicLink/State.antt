-- ===== src/MagicLink/State.antt =====
-- The data of magic links in smp-auth-ts/src/interface/mfa.interface.ts, and what
-- smp-auth-ts/src/services/magic-link.service.ts keeps in Redis and asks of other services.
use anticipation.Base.{ℕ, String, List, [], ◌∷◌, ◌++◌, Bool, Option, none, some, if◌then◌else◌}
use anticipation.Base.Result.{Result, ok, err}
use anticipation.Base.Exec.{Exec}
use anticipation.Redis.Laws.{Redis}

pub data Action : Type 0 where
  login register reset_password verify_email : Action

pub data LinkStatus : Type 0 where
  pending used expired revoked : LinkStatus

pub record Link : Type 0 where
  pub id : String
  pub token : String
  pub email : String
  pub user_id : Option String
  pub status : LinkStatus
  pub action : Action
  pub created_at : ℕ
  pub expires_at : ℕ
  pub used_at : Option ℕ
  pub redirect_url : String

pub record Reset : Type 0 where
  pub email : String
  pub user_id : Option String
  pub created_at : ℕ
  pub expires_at : ℕ

pub record UserInfo : Type 0 where
  pub sub : String
  pub roles : List String
  pub risk_score : Option ℕ

pub record LinkConfig : Type 0 where
  pub enabled : Bool
  pub expiry_minutes : ℕ
  pub max_uses_per_day : ℕ
  pub require_existing_user : Bool
  pub auto_create_user : Bool
  pub login_path : String
  pub register_path : String
  pub reset_password_path : String
  pub verify_email_path : String

-- What the identity server and the mail service answer during a call; `err` is a thrown error, and
-- a registration that is refused gives no user.
pub record Services : Type 0 where
  pub user_by_email : String → Result String (Option String)
  pub user_info : String → Result String (Option UserInfo)
  pub client_token : Result String String
  pub register_user : String → Result String (Option String)
  pub verify_email : String → String → Result String Bool
  pub send_link : Link → Result String Bool

pub data LinkEvent : Type 0 where
  link_generated : String → String → Action → Bool → LinkEvent
  link_used : String → String → Action → Bool → LinkEvent

pub data LinkError : Type 0 where
  redis_down daily_limit : LinkError
  service_failed : String → LinkError

module _ (redis : Redis) where
  open redis use {Strings, Sets, get, set, del, members, add}

  pub record Store : Type 0 where
    -- Whether the connection to Redis works during the call.
    pub up : Bool
    -- magic_link:${id}
    pub links : Strings Link
    -- magic_link:token:${token}
    pub tokens : Strings String
    -- magic_link:email:${email}
    pub by_email : Sets
    -- magic_link:daily:${email}:${day}
    pub counters : Strings ℕ
    -- password_reset:${token}
    pub resets : Strings Reset
    -- magic_link:event:${id}, in the order of the calls
    pub events : List LinkEvent

  abbrev pub Run : Type 0 → Type 0
  Run A = Exec Store LinkError A

  abbrev pub command : {A : Type 0} → A → Store → Store → Result LinkError A × Store
  command a after w = if w.up then (ok a, after) else (err redis_down, w)

  abbrev pub get_token : String → Run (Option String)
  get_token k w = command (get String k w.tokens) w w

  abbrev pub set_token : String → String → ℕ → Run (Unit {0})
  set_token k v ttl w = command tt (record w { tokens = set String k v (some ttl) w.tokens }) w

  abbrev pub set_link : String → Link → ℕ → Run (Unit {0})
  set_link k v ttl w = command tt (record w { links = set Link k v (some ttl) w.links }) w

  -- getMagicLink gives nothing where the command throws.
  abbrev pub get_link : String → Run (Option Link)
  get_link k w = (ok (if w.up then get Link k w.links else none), w)

  abbrev pub get_count : String → Run (Option ℕ)
  get_count k w = command (get ℕ k w.counters) w w

  abbrev pub set_count : String → ℕ → ℕ → Run (Unit {0})
  set_count k v ttl w = command tt (record w { counters = set ℕ k v (some ttl) w.counters }) w

  abbrev pub set_reset : String → Reset → ℕ → Run (Unit {0})
  set_reset k v ttl w = command tt (record w { resets = set Reset k v (some ttl) w.resets }) w

  abbrev pub link_ids : String → Run (List String)
  link_ids k w = (ok (if w.up then members k w.by_email else []), w)

  -- The key's time to live is set as well; a set may lose it later.
  abbrev pub add_link_id : String → String → Run (Unit {0})
  add_link_id k x w = (ok tt, if w.up then record w { by_email = add k x w.by_email } else w)

  -- emitEvent stores the event, which throws if the connection is down.
  abbrev pub emit_event : LinkEvent → Run (Unit {0})
  emit_event e w = command tt (record w { events = w.events ++ e ∷ [] }) w

  -- What another service answers.
  abbrev pub answer : {A : Type 0} → Result String A → Run A
  answer (ok a) w = (ok a, w)
  answer (err e) w = (err (service_failed e), w)
