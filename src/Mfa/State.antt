-- ===== src/Mfa/State.antt =====
-- The data of smp-auth-ts/src/interface/mfa.interface.ts, and the state that the service keeps in
-- Redis with the accesses of smp-auth-ts/src/clients/redis.client.ts to it.
use anticipation.Base.{ℕ, String, List, [], ◌∷◌, ◌++◌, Bool, Option, some, if◌then◌else◌}
use anticipation.Base.Result.{Result, ok, err}
use anticipation.Base.Exec.{Exec}
use anticipation.Redis.Laws.{Redis}

pub data MethodType : Type 0 where
  totp sms email webauthn backup_codes hardware_token push voice magic_link : MethodType

pub data VerificationStatus : Type 0 where
  pending verified failed expired rate_limited : VerificationStatus

pub record Metadata : Type 0 where
  pub secret : Option String
  pub phone_number : Option String
  pub email_address : Option String
  pub device_name : Option String

pub record Method : Type 0 where
  pub id : String
  pub user_id : String
  pub kind : MethodType
  pub name : String
  pub is_enabled : Bool
  pub is_primary : Bool
  pub is_verified : Bool
  pub created_at : ℕ
  pub last_used_at : Option ℕ
  pub metadata : Metadata

pub record Challenge : Type 0 where
  pub id : String
  pub user_id : String
  pub method_id : String
  pub method_type : MethodType
  pub status : VerificationStatus
  pub code : Option String
  pub created_at : ℕ
  pub expires_at : ℕ
  pub attempts_remaining : ℕ

pub record BackupCodes : Type 0 where
  pub user_id : String
  pub codes : List String
  pub generated_at : ℕ
  pub used_codes : List String
  pub remaining_codes : ℕ

pub record Device : Type 0 where
  pub id : String
  pub user_id : String
  pub fingerprint : String
  -- `none` stands for the name that is made of the time.
  pub name : Option String
  pub is_active : Bool
  pub created_at : ℕ
  pub last_used_at : ℕ
  pub expires_at : ℕ

pub record Config : Type 0 where
  pub max_attempts : ℕ
  pub code_expiry : ℕ
  pub rate_max_attempts : ℕ
  pub rate_window_minutes : ℕ
  pub require_backup_codes : Bool
  pub remember_device_days : ℕ

pub data Event : Type 0 where
  challenge_created : String → MethodType → String → Event
  verification_success : String → MethodType → String → Event
  verification_failed : String → MethodType → String → ℕ → Event
  method_added method_removed : String → MethodType → String → Event
  device_trusted : String → String → Event

-- What the methods throw.
pub data Error : Type 0 where
  redis_down method_not_found last_method no_active_method type_not_active limited : Error
  unequal_lengths undefined_value totp_failed unsupported_method phone_required email_required :
      Error

module _ (redis : Redis) where
  open redis use {Strings, Sets, get, set, del, members, add, rem}

  pub record World : Type 0 where
    -- Whether the connection to Redis works during the call.
    pub up : Bool
    -- mfa:method:${id}
    pub methods : Strings Method
    -- mfa:challenge:${id}; the setup challenge of a method has the id `setup:${method}`
    pub challenges : Strings Challenge
    -- mfa:backup_codes:${user}
    pub backups : Strings BackupCodes
    -- mfa:device:${id}
    pub devices : Strings Device
    -- mfa:rate_limit:${user}
    pub limits : Strings ℕ
    -- mfa:user:${user}:methods
    pub user_methods : Sets
    -- mfa:user:${user}:devices
    pub user_devices : Sets
    -- What emitEvent handed to the listeners.
    pub events : List Event

  abbrev pub M : Type 0 → Type 0
  M A = Exec World Error A

  -- A command through RedisClientImpl.get, set or delete: it throws if the connection is down.
  abbrev pub command : {A : Type 0} → A → World → World → Result Error A × World
  command a after w = if w.up then (ok a, after) else (err redis_down, w)

  abbrev pub get_method : String → M (Option Method)
  get_method k w = command (get Method k w.methods) w w

  abbrev pub set_method : String → Method → ℕ → M (Unit {0})
  set_method k v ttl w = command tt (record w { methods = set Method k v (some ttl) w.methods }) w

  abbrev pub delete_method : String → M (Unit {0})
  delete_method k w = command tt (record w { methods = del Method k w.methods }) w

  abbrev pub get_challenge : String → M (Option Challenge)
  get_challenge k w = command (get Challenge k w.challenges) w w

  abbrev pub set_challenge : String → Challenge → ℕ → M (Unit {0})
  set_challenge k v ttl w =
      command tt (record w { challenges = set Challenge k v (some ttl) w.challenges }) w

  abbrev pub delete_challenge : String → M (Unit {0})
  delete_challenge k w = command tt (record w { challenges = del Challenge k w.challenges }) w

  abbrev pub get_backup : String → M (Option BackupCodes)
  get_backup k w = command (get BackupCodes k w.backups) w w

  abbrev pub set_backup : String → BackupCodes → ℕ → M (Unit {0})
  set_backup k v ttl w =
      command tt (record w { backups = set BackupCodes k v (some ttl) w.backups }) w

  abbrev pub get_device : String → M (Option Device)
  get_device k w = command (get Device k w.devices) w w

  abbrev pub set_device : String → Device → Option ℕ → M (Unit {0})
  set_device k v ttl w = command tt (record w { devices = set Device k v ttl w.devices }) w

  abbrev pub delete_device : String → M (Unit {0})
  delete_device k w = command tt (record w { devices = del Device k w.devices }) w

  abbrev pub get_limit : String → M (Option ℕ)
  get_limit k w = command (get ℕ k w.limits) w w

  abbrev pub set_limit : String → ℕ → ℕ → M (Unit {0})
  set_limit k v ttl w = command tt (record w { limits = set ℕ k v (some ttl) w.limits }) w

  -- sMembers, sAdd and sRem do not throw: an error gives the empty list, or is dropped.
  abbrev pub method_ids : String → M (List String)
  method_ids k w = (ok (if w.up then members k w.user_methods else []), w)

  abbrev pub add_method_id : String → String → M (Unit {0})
  add_method_id k x w =
      (ok tt, if w.up then record w { user_methods = add k x w.user_methods } else w)

  abbrev pub remove_method_id : String → String → M (Unit {0})
  remove_method_id k x w =
      (ok tt, if w.up then record w { user_methods = rem k x w.user_methods } else w)

  abbrev pub device_ids : String → M (List String)
  device_ids k w = (ok (if w.up then members k w.user_devices else []), w)

  abbrev pub add_device_id : String → String → M (Unit {0})
  add_device_id k x w =
      (ok tt, if w.up then record w { user_devices = add k x w.user_devices } else w)

  abbrev pub remove_device_id : String → String → M (Unit {0})
  remove_device_id k x w =
      (ok tt, if w.up then record w { user_devices = rem k x w.user_devices } else w)

  -- emitEvent: an error of a listener is caught, so a call never fails here.
  abbrev pub emit : Event → M (Unit {0})
  emit e w = (ok tt, record w { events = w.events ++ e ∷ [] })
