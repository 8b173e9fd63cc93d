-- ===== src/Mfa/Devices.antt =====
-- trustDevice, isDeviceTrusted, getTrustedDevices and revokeTrustedDevice of
-- smp-auth-ts/src/services/mfa.service.ts.
pub mod Trust
pub mod Lifetime
use anticipation.Base.{
  ℕ, ◌+◌, ◌*◌, String, List, [], ◌∷◌, ◌++◌, Bool, true, false, ◌&&◌, Option, none, some, leb, ltb,
  str_eq, if◌then◌else◌,
}
use anticipation.Base.Exec.{pure, ◌>>=◌, ◌>>◌}
use anticipation.Redis.Laws.{Redis}
use anticipation.Mfa.State.{
  Config, Device, World, M, get_device, set_device, delete_device, device_ids, add_device_id,
  remove_device_id, emit, device_trusted,
}

abbrev pub day_seconds : ℕ
day_seconds = 86400

-- `request.trustDurationDays || config.rememberDeviceDays`
abbrev pub trust_days : Config → Option ℕ → ℕ
trust_days config none = config.remember_device_days
trust_days config (some n) = if ltb 0 n then n else config.remember_device_days

abbrev pub time_to_live : ℕ → Option ℕ
time_to_live n = if ltb 0 n then some n else none

-- Array.sort by the last use, newest first.
unfoldable pub insert_device : Device → List Device → List Device
insert_device d [] = d ∷ []
insert_device d (e ∷ es) =
    if leb e.last_used_at d.last_used_at then d ∷ e ∷ es else e ∷ insert_device d es

unfoldable pub sort_devices : List Device → List Device
unfolding insert_device
sort_devices [] = []
sort_devices (d ∷ ds) = insert_device d (sort_devices ds)

-- The device answers for the fingerprint at this time.
abbrev pub matches : String → ℕ → Device → Bool
matches fingerprint now d =
    str_eq d.fingerprint fingerprint && (d.is_active && ltb now d.expires_at)

module _ (redis : Redis) where
  unfoldable pub trust_device :
      Config → String → String → Option String → Option ℕ → String → ℕ → M redis Bool
  trust_device config user fingerprint name days id now = do
    let seconds = trust_days config days * day_seconds
    let device : Device = record {
      id = id;
      user_id = user;
      fingerprint = fingerprint;
      name = name;
      is_active = true;
      created_at = now;
      last_used_at = now;
      expires_at = now + seconds * 1000;
    }
    set_device redis id device (time_to_live seconds)
    add_device_id redis user id
    emit redis (device_trusted user fingerprint)
    pure true

  -- One round: `rest` is what the following rounds do.
  unfoldable pub check_found : String → String → ℕ → M redis Bool → Option Device → M redis Bool
  check_found fingerprint id now rest none = rest
  check_found fingerprint id now rest (some d) =
      if matches fingerprint now d
      then set_device redis id (record d { last_used_at = now }) none >> pure true
      else rest

  unfoldable pub check_devices : String → ℕ → List String → M redis Bool
  unfolding check_found
  check_devices fingerprint now [] = pure false
  check_devices fingerprint now (id ∷ ids) =
      get_device redis id >>= check_found fingerprint id now (check_devices fingerprint now ids)

  unfoldable pub is_device_trusted : String → String → ℕ → M redis Bool
  unfolding check_devices
  is_device_trusted user fingerprint now = do
    ids ← device_ids redis user
    check_devices fingerprint now ids

  unfoldable pub revoke_found : String → Option Device → M redis (Unit {0})
  revoke_found id none = pure tt
  revoke_found id (some d) = do delete_device redis id; remove_device_id redis d.user_id id

  unfoldable pub revoke_trusted_device : String → M redis (Unit {0})
  unfolding revoke_found
  revoke_trusted_device id = do found ← get_device redis id; revoke_found id found

  -- One round of getTrustedDevices: an expired device is revoked and left out.
  pub load_device : String → ℕ → Option Device → M redis (List Device)
  unfolding revoke_trusted_device
  load_device id now none = pure []
  load_device id now (some d) =
      if leb d.expires_at now then revoke_trusted_device id >> pure [] else pure (d ∷ [])

  pub load_devices : ℕ → List String → M redis (List Device)
  unfolding load_device
  load_devices now [] = pure []
  load_devices now (id ∷ ids) = do
    found ← get_device redis id
    kept ← load_device id now found
    rest ← load_devices now ids
    pure (kept ++ rest)

  unfoldable pub get_trusted_devices : String → ℕ → M redis (List Device)
  unfolding load_devices sort_devices
  get_trusted_devices user now = do
    ids ← device_ids redis user
    devices ← load_devices now ids
    pure (sort_devices devices)
