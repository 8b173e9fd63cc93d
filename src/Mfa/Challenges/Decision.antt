-- ===== src/Mfa/Challenges/Decision.antt =====
-- What verifyMFAChallenge of smp-auth-ts/src/services/mfa.service.ts does once the method is known.
use anticipation.Base.{
  ℕ, ◌≡◌, ◌+◌, ◌-◌, ◌≤◌, ◌<◌, refl, String, Bool, true, false, Option, none, some, arith,
  Option-cases, Bool-cases, inl, inr, ◌⊎◌, ◌≢◌, str_eq, eq_refl, if◌then◌else◌, ◌∙◌, not, ◌&&◌,
}
use anticipation.Base.Result.{Result, ok, Result-cases, ok_true-cases}
use anticipation.Base.Exec.{try-ok, try-err, pure}
use anticipation.Redis.Laws.{Redis}
use anticipation.Mfa.State.{Method, Challenge, Config, World, Error, verified}
use anticipation.Mfa.Challenges.Code.{IsRight, check_code-ok_true, check_code-frame}
use anticipation.Mfa.Devices.{trust_device}
use anticipation.Mfa.Challenges.Verify.{
  Outcome, Request, check_code, remember, accept, reject, decide, status_after,
}

module _ (redis : Redis) (config : Config) (hash : String → String)
    (totp_verify : String → Option String → Option Bool) where
  open redis use {Strings, get, set, del, get-set, get-del}

  abbrev pub Succeeds : Result Error Outcome × World redis → Type 0
  Succeeds x = (o : Outcome) × (x.0 ≡ ok o) × (o.success ≡ true)

  -- The call tried no code.
  abbrev pub IsUntried : Request → World redis → Result Error Outcome × World redis → Type 0
  IsUntried r w x =
      ((o : Outcome) → x.0 ≡ ok o → (o.success ≡ false) × (o.attempts_remaining ≡ none))
      × ((get Challenge r.challenge_id x.1.challenges ≡ get Challenge r.challenge_id w.challenges)
          ⊎ (get Challenge r.challenge_id x.1.challenges ≡ none))

  -- The call found a challenge that may be tried now, with its method.
  abbrev pub IsOpen : Request → ℕ → World redis → Challenge → Method → Type 0
  IsOpen r now w c m =
      (get Challenge r.challenge_id w.challenges ≡ some c)
      × (now ≤ c.expires_at)
      × (0 < c.attempts_remaining)
      × (get Method c.method_id w.methods ≡ some m)

  -- A right code was given, and the challenge is gone.
  abbrev pub IsPassed : Request → ℕ → World redis → Result Error Outcome × World redis → Type 0
  IsPassed r now w x =
      (c : Challenge) × (m : Method) × IsOpen r now w c m
      × IsRight redis config hash totp_verify m.kind m c r.code w
      × Succeeds x
      × (get Challenge r.challenge_id x.1.challenges ≡ none)

  -- A wrong code was given, and the challenge has one attempt less.
  abbrev pub IsFailed : Request → ℕ → World redis → Result Error Outcome × World redis → Type 0
  IsFailed r now w x =
      (c : Challenge) × (m : Method) × IsOpen r now w c m
      × ((o : Outcome) × (x.0 ≡ ok o) × (o.success ≡ false))
      × ((d : Challenge) × (get Challenge r.challenge_id x.1.challenges ≡ some d)
          × (d.attempts_remaining + 1 ≡ c.attempts_remaining))

  pub accept-Succeeds :
      (r : Request) (c : Challenge) (m : Method) (device : String) (now : ℕ) (v : World redis)
      → v.up ≡ true
      → Succeeds (accept redis config hash totp_verify r c m device now v)
  unfolding accept remember trust_device
  accept-Succeeds r c m device now v up = elim (Option-cases r.device_fingerprint) [
    | inl missing ↦ (
      record {
        success = true;
        status = verified;
        attempts_remaining = none;
        device_trusted = some false;
      },
      simp (up, missing),
      refl,
    )
    | inr (print, found) ↦ elim (Bool-cases (r.remember_device && not (str_eq print ""))) [
      | inl asked ↦ (
        record {
          success = true;
          status = verified;
          attempts_remaining = none;
          device_trusted = some true;
        },
        simp (up, found, asked),
        refl,
      )
      | inr unasked ↦ (
        record {
          success = true;
          status = verified;
          attempts_remaining = none;
          device_trusted = some false;
        },
        simp (up, found, unasked),
        refl,
      )
    ]
  ]

  accept-gone :
      (r : Request) (c : Challenge) (m : Method) (device : String) (now : ℕ) (v : World redis)
      → v.up ≡ true
      → get Challenge r.challenge_id
          (accept redis config hash totp_verify r c m device now v).1.challenges
        ≡ none
  unfolding accept remember trust_device
  accept-gone r c m device now v up = elim (Option-cases r.device_fingerprint) [
    | inl missing ↦ simp (up, missing, get-del, eq_refl)
    | inr (print, found) ↦ elim (Bool-cases (r.remember_device && not (str_eq print ""))) [
      | inl asked ↦ simp (up, found, asked, get-del, eq_refl)
      | inr unasked ↦ simp (up, found, unasked, get-del, eq_refl)
    ]
  ]

  reject-left :
      (r : Request) (c : Challenge) (m : Method) (v : World redis)
      → v.up ≡ true
      → 0 < c.attempts_remaining
      → ((o : Outcome) × ((reject redis config hash totp_verify r c m v).0 ≡ ok o)
          × (o.success ≡ false))
        × ((d : Challenge) × (get Challenge r.challenge_id
                (reject redis config hash totp_verify r c m v).1.challenges
              ≡ some d)
            × (d.attempts_remaining + 1 ≡ c.attempts_remaining))
  unfolding reject
  reject-left r c m v up some_left = (
    (
      record {
        success = false;
        status = status_after (c.attempts_remaining - 1);
        attempts_remaining = some (c.attempts_remaining - 1);
        device_trusted = none;
      },
      simp up,
      refl,
    ),
    (
      record c {
        attempts_remaining = c.attempts_remaining - 1;
        status = status_after (c.attempts_remaining - 1);
      },
      simp (up, get-set, eq_refl),
      omega arith,
    ),
  )

  pub decide-accept :
      (r : Request) (c : Challenge) (m : Method) (device : String) (now : ℕ) (w : World redis)
      → (check_code redis config hash totp_verify m.kind m c r.code w).0 ≡ ok true
      → decide redis config hash totp_verify r c device now m w
        ≡ accept redis config hash totp_verify r c m device now
            (check_code redis config hash totp_verify m.kind m c r.code w).1
  unfolding decide
  decide-accept r c m device now w right =
      try-ok (check_code redis config hash totp_verify m.kind m c r.code) (λ e. pure false)
        (λ (b : Bool).
          if b
          then accept redis config hash totp_verify r c m device now
          else reject redis config hash totp_verify r c m)
        w true right

  decide-reject :
      (r : Request) (c : Challenge) (m : Method) (device : String) (now : ℕ) (w : World redis)
      → (check_code redis config hash totp_verify m.kind m c r.code w).0 ≢ ok true
      → decide redis config hash totp_verify r c device now m w
        ≡ reject redis config hash totp_verify r c m
            (check_code redis config hash totp_verify m.kind m c r.code w).1
  unfolding decide
  decide-reject r c m device now w wrong =
      elim (Result-cases (check_code redis config hash totp_verify m.kind m c r.code w).0) [
        | inl (true, right) ↦ absurd (wrong right)
        | inl (false, other) ↦
            try-ok (check_code redis config hash totp_verify m.kind m c r.code) (λ e. pure false)
              (λ (b : Bool).
                if b
                then accept redis config hash totp_verify r c m device now
                else reject redis config hash totp_verify r c m)
              w false other
        | inr (e, thrown) ↦
            try-err (check_code redis config hash totp_verify m.kind m c r.code) (λ e. pure false)
              (λ (b : Bool).
                if b
                then accept redis config hash totp_verify r c m device now
                else reject redis config hash totp_verify r c m)
              w e false refl thrown
      ]

  -- A challenge that is open to a try is passed or failed.
  pub decide-fate :
      (r : Request) (c : Challenge) (m : Method) (device : String) (now : ℕ) (w : World redis)
      → w.up ≡ true
      → IsOpen r now w c m
      → IsPassed r now w (decide redis config hash totp_verify r c device now m w)
        ⊎ IsFailed r now w (decide redis config hash totp_verify r c device now m w)
  decide-fate r c m device now w up (found, intime, some_left, known) =
      let (kept, still_up) = check_code-frame redis config hash totp_verify m.kind m c r.code w in
      elim (ok_true-cases (check_code redis config hash totp_verify m.kind m c r.code w).0) [
        | inl right ↦ inl (
          c,
          m,
          (found, intime, some_left, known),
          check_code-ok_true redis config hash totp_verify m.kind m c r.code w right,
          rw (decide-accept r c m device now w right) (
              accept-Succeeds r c m device now
                (check_code redis config hash totp_verify m.kind m c r.code w).1 (still_up ∙ up)),
          rw (decide-accept r c m device now w right) (
              accept-gone r c m device now
                (check_code redis config hash totp_verify m.kind m c r.code w).1 (still_up ∙ up)),
        )
        | inr wrong ↦
            let (answered, left) =
              reject-left r c m (check_code redis config hash totp_verify m.kind m c r.code w).1
                (still_up ∙ up) some_left in
            let same = decide-reject r c m device now w wrong in
            inr (c, m, (found, intime, some_left, known), rw same answered, rw same left)
      ]
