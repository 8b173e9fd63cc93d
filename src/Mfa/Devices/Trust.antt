-- ===== src/Mfa/Devices/Trust.antt =====
-- Which devices isDeviceTrusted of smp-auth-ts/src/services/mfa.service.ts accepts.
use anticipation.Base.{
  ℕ, ◌≡◌, ◌+◌, ◌*◌, ◌<◌, refl, String, List, [], ◌∷◌, Bool, true, false, ◌||◌, Option, none, some,
  arith, inl, inr, Option-cases, Bool-cases, str_eq, eq_iff, eq_refl, sym, ap, ◌∙◌, ◌↔◌, any,
}
use anticipation.Base.Result.{ok, ok_injective}
use anticipation.Redis.Laws.{Redis, contains}
use anticipation.Mfa.State.{Config, Device, World}
use anticipation.Mfa.Devices.{
  matches, check_found, check_devices, is_device_trusted, trust_days, day_seconds,
}

abbrev pub is_match : String → ℕ → Option Device → Bool
is_match fingerprint now none = false
is_match fingerprint now (some d) = matches fingerprint now d

or_true : (b : Bool) → (b || true) ≡ true
or_true true = refl
or_true false = refl

any-contains :
    (p : String → Bool) (ids : List String)
    → any p ids ≡ true
    → (id : String) × (contains id ids ≡ true) × (p id ≡ true)
any-contains p [] h = absurd cc
any-contains p (id ∷ ids) h = elim (Bool-cases (p id)) [
  | inl here ↦ (id, rw (eq_refl id) refl, here)
  | inr there ↦
      let (j, listed, holds) = any-contains p ids (rw there at h) in (j, ground arith, holds)
]

contains-any :
    (p : String → Bool) (ids : List String) (j : String)
    → contains j ids ≡ true
    → p j ≡ true
    → any p ids ≡ true
contains-any p [] j h holds = absurd cc
contains-any p (id ∷ ids) j h holds = elim (Bool-cases (str_eq id j)) [
  | inl here ↦ rw (ap p ((eq_iff id j).0 here)) (rw holds refl)
  | inr there ↦ ground (arith, contains-any p ids j)
]

module _ (redis : Redis) where
  open redis use {Strings, get, members, get-set, members-add}

  check_devices-any :
      (fingerprint : String) (now : ℕ) (ids : List String) (w : World redis)
      → w.up ≡ true
      → (check_devices redis fingerprint now ids w).0
        ≡ ok (any (λ id. is_match fingerprint now (get Device id w.devices)) ids)
  unfolding check_devices check_found
  check_devices-any fingerprint now [] w up = refl
  check_devices-any fingerprint now (id ∷ ids) w up =
      let rest = check_devices-any fingerprint now ids w up in
      elim (Option-cases (get Device id w.devices)) [
        | inl missing ↦ simp (up, missing, rest)
        | inr (d, found) ↦ elim (Bool-cases (matches fingerprint now d)) [
          | inl hit ↦ simp (up, found, hit)
          | inr miss ↦ simp (up, found, miss, rest)
        ]
      ]

  -- A stored device of the user's set answers for the fingerprint now.
  abbrev pub IsTrusted : String → String → ℕ → World redis → Type 0
  IsTrusted user fingerprint now w =
      (id : String) × (d : Device) × (contains id (members user w.user_devices) ≡ true)
      × (get Device id w.devices ≡ some d)
      × (d.fingerprint ≡ fingerprint)
      × (d.is_active ≡ true)
      × (now < d.expires_at)

  is_device_trusted-any :
      (user fingerprint : String) (now : ℕ) (w : World redis)
      → w.up ≡ true
      → (is_device_trusted redis user fingerprint now w).0
        ≡ ok (
            any
              (λ id. is_match fingerprint now (get Device id w.devices))
              (members user w.user_devices))
  unfolding is_device_trusted
  is_device_trusted-any user fingerprint now w up =
      simp (up, check_devices-any fingerprint now (members user w.user_devices) w up)

  match-IsTrusted :
      (user fingerprint : String) (now : ℕ) (w : World redis) (id : String)
      → contains id (members user w.user_devices) ≡ true
      → is_match fingerprint now (get Device id w.devices) ≡ true
      → IsTrusted user fingerprint now w
  match-IsTrusted user fingerprint now w id listed hit =
      elim (Option-cases (get Device id w.devices)) [
        | inl missing ↦ absurd (cc (rw missing at hit))
        | inr (d, found) ↦
            let hit' : matches fingerprint now d ≡ true = rw found at hit in
            let same : str_eq d.fingerprint fingerprint ≡ true = ground arith in
            (
              id,
              d,
              listed,
              found,
              (eq_iff d.fingerprint fingerprint).0 same,
              ground arith,
              ground arith,
            )
      ]

  IsTrusted-match :
      (user fingerprint : String) (now : ℕ) (w : World redis)
      → IsTrusted user fingerprint now w
      → any (λ id. is_match fingerprint now (get Device id w.devices)) (members user w.user_devices)
        ≡ true
  IsTrusted-match user fingerprint now w (id, d, listed, found, same, active, intime) =
      let print : str_eq d.fingerprint fingerprint ≡ true =
        (eq_iff d.fingerprint fingerprint).1 same in
      let hit : matches fingerprint now d ≡ true = ground arith in
      contains-any (λ j. is_match fingerprint now (get Device j w.devices))
        (members user w.user_devices) id listed (rw found hit)

  -- With the connection up, a device is trusted exactly if one of the user's stored devices has the
  -- fingerprint, is active and has not expired.
  pub is_device_trusted_iff :
      (user fingerprint : String) (now : ℕ) (w : World redis)
      → w.up ≡ true
      → ((is_device_trusted redis user fingerprint now w).0 ≡ ok true)
        ↔ IsTrusted user fingerprint now w
  is_device_trusted_iff user fingerprint now w up =
      let answer = is_device_trusted-any user fingerprint now w up in
      (
        (λ h.
            let (id, listed, hit) =
              any-contains (λ j. is_match fingerprint now (get Device j w.devices))
                (members user w.user_devices) (ok_injective (sym answer ∙ h)) in
            match-IsTrusted user fingerprint now w id listed hit),
        λ t. rw answer (ap (λ b. ok b) (IsTrusted-match user fingerprint now w t)),
      )

  -- The device that trustDevice stores.
  abbrev pub new_device : Config → String → String → Option String → Option ℕ → String → ℕ → Device
  new_device config user fingerprint name days id now = record {
    id = id;
    user_id = user;
    fingerprint = fingerprint;
    name = name;
    is_active = true;
    created_at = now;
    last_used_at = now;
    expires_at = now + trust_days config days * day_seconds * 1000;
  }
