-- ===== src/Mfa/Devices/Lifetime.antt =====
-- How long a device stays trusted in smp-auth-ts/src/services/mfa.service.ts.
use anticipation.Base.{
  ℕ, ◌≡◌, ◌+◌, ◌*◌, ◌<◌, ◌∙◌, refl, String, Bool, true, false, ◌||◌, Option, none, some, arith,
  eq_refl, ap, ltb, if◌then◌else◌, Bool-cases, inl, inr,
}
use anticipation.Base.Result.{ok}
use anticipation.Redis.Laws.{Redis, contains}
use anticipation.Redis.Expiry.{Expiry, lives}
use anticipation.Mfa.State.{Config, Method, Challenge, BackupCodes, Device, World}
use anticipation.Mfa.Devices.{
  is_device_trusted, trust_device, trust_days, day_seconds, time_to_live,
}
use anticipation.Mfa.Devices.Trust.{new_device, is_device_trusted_iff}

or_true : (b : Bool) → (b || true) ≡ true
or_true true = refl
or_true false = refl

time_to_live-lives :
    (seconds elapsed : ℕ) → elapsed < seconds * 1000 → lives (time_to_live seconds) elapsed ≡ true
time_to_live-lives seconds elapsed early = elim (Bool-cases (ltb 0 seconds)) [
  | inl timed ↦ rw timed (ground arith)
  | inr endless ↦ rw endless refl
]

module _ (redis : Redis) (time : Expiry redis) where
  open redis use {get, set, members, members-add}
  open time use {pass, get-pass-set}

  -- The server when so many milliseconds have passed.
  abbrev pub wait : ℕ → World redis → World redis
  wait elapsed w = record w {
    methods = pass Method elapsed w.methods;
    challenges = pass Challenge elapsed w.challenges;
    backups = pass BackupCodes elapsed w.backups;
    devices = pass Device elapsed w.devices;
    limits = pass ℕ elapsed w.limits;
  }

  trust_device-after :
      (config : Config) (user fingerprint : String) (name : Option String) (days : Option ℕ)
      (id : String) (now : ℕ) (w : World redis)
      → w.up ≡ true
      → let v = (trust_device redis config user fingerprint name days id now w).1 in
        (v.up ≡ true)
        × (contains id (members user v.user_devices) ≡ true)
        × (v.devices
            ≡ set Device id
                (new_device redis config user fingerprint name days id now)
                (time_to_live (trust_days config days * day_seconds))
                w.devices)
  unfolding trust_device
  trust_device-after config user fingerprint name days id now w up =
      (simp up, simp (up, members-add, eq_refl, or_true), simp up)

  -- With the connection up, a device that was trusted is trusted for the days it was given, if
  -- nothing is called in between, though its key expires with its time to live.
  pub is_device_trusted-trust_device :
      (config : Config) (user fingerprint : String) (name : Option String) (days : Option ℕ)
      (id : String) (now elapsed : ℕ) (w : World redis)
      → w.up ≡ true
      → elapsed < trust_days config days * day_seconds * 1000
      → (is_device_trusted redis user fingerprint
          (now + elapsed)
          (wait elapsed (trust_device redis config user fingerprint name days id now w).1)).0
        ≡ ok true
  is_device_trusted-trust_device config user fingerprint name days id now elapsed w up early =
      let (still, listed, written) =
        trust_device-after config user fingerprint name days id now w up in
      let v = (trust_device redis config user fingerprint name days id now w).1 in
      let device = new_device redis config user fingerprint name days id now in
      let seconds = trust_days config days * day_seconds in
      let found : get Device id (pass Device elapsed v.devices) ≡ some device =
        ap (λ z. get Device id (pass Device elapsed z)) written
        ∙ get-pass-set Device id device (time_to_live seconds) elapsed w.devices
        ∙ ap (λ b. if b then some device else none) (time_to_live-lives seconds elapsed early) in
      (is_device_trusted_iff redis user fingerprint (now + elapsed) (wait elapsed v) still).1
        (id, device, listed, found, refl, refl, omega (arith, early))
