-- ===== src/Mfa/Challenges/Counting.antt =====
-- How initiateMFAChallenge of smp-auth-ts/src/services/mfa.service.ts counts the challenges of a user.
use anticipation.Base.{
  ℕ, ◌≡◌, ◌+◌, ◌*◌, ◌≤◌, ◌<◌, refl, String, true, false, Option, none, some, leb, arith, Bool-cases,
  inl, inr, ◌⊎◌, eq_refl, ◌∙◌, ap,
}
use anticipation.Base.Result.{Result, ok, err}
use anticipation.Base.Exec.{resume, pure, ◌>>◌}
use anticipation.Redis.Laws.{Redis}
use anticipation.Mfa.State.{
  Method, Challenge, Config, World, M, Error, limited, redis_down, sms, email, challenge_created,
  set_challenge, emit,
}
use anticipation.Mfa.Challenges.{
  attempts_of, check_rate_limit, create_challenge, address, present, same_type, new_challenge,
}

-- 1 for a challenge that was made.
abbrev pub made : Result Error Challenge → ℕ
made (ok c) = 1
made (err e) = 0

module _ (redis : Redis) (config : Config) where
  open redis use {Strings, Sets, get, set, members, get-set}

  abbrev pub count : String → World redis → ℕ
  count user w = attempts_of (get ℕ user w.limits)

  -- A call that makes a challenge counts it below the limit; another never lowers the count.
  abbrev pub IsCounted : String → World redis → Result Error Challenge × World redis → Type 0
  IsCounted user w x =
      ((count user w < config.rate_max_attempts) × (count user x.1 ≡ count user w + 1))
      ⊎ ((made x.0 ≡ 0) × (count user w ≤ count user x.1))

  limits-resume :
      {A B : Type 0} (f : A → M redis B) (w : World redis) (x : Result Error A × World redis)
      → x.1.limits ≡ w.limits
      → ((a : A) (v : World redis) → v.limits ≡ w.limits → (f a v).1.limits ≡ w.limits)
      → (resume f x).1.limits ≡ w.limits
  limits-resume f w (ok a, v) kept then_kept = then_kept a v kept
  limits-resume f w (err e, v) kept then_kept = kept

  present-kept : (o : Option String) (v : World redis) → (present redis config o v).1 ≡ v
  present-kept none v = refl
  present-kept (some text) v = refl

  address-kept : (m : Method) (v : World redis) → (address redis config m v).1 ≡ v
  address-kept m v = elim (Bool-cases (same_type m.kind sms)) [
    | inl by_phone ↦ rw by_phone (present-kept m.metadata.phone_number v)
    | inr other ↦ elim (Bool-cases (same_type m.kind email)) [
      | inl by_mail ↦ rw other (rw by_mail (present-kept m.metadata.email_address v))
      | inr neither ↦ rw other (rw neither refl)
    ]
  ]

  -- What follows the check of the limit.
  abbrev rest : String → String → String → ℕ → Method → M redis Challenge
  rest user id random now m =
      address redis config m
      >> (set_challenge redis id (new_challenge redis config id user m random now)
            config.code_expiry
          >> (emit redis (challenge_created user m.kind id)
              >> pure (new_challenge redis config id user m random now)))

  stored-limits :
      (user id random : String) (now : ℕ) (m : Method) (w v : World redis)
      → v.limits ≡ w.limits
      → ((set_challenge redis id
              (new_challenge redis config id user m random now)
              config.code_expiry
            >> (emit redis (challenge_created user m.kind id)
                >> pure (new_challenge redis config id user m random now)))
          v).1.limits
        ≡ w.limits
  stored-limits user id random now m w v kept = elim (Bool-cases v.up) [
    | inl up ↦ simp (up, kept)
    | inr down ↦ simp (down, kept)
  ]

  rest-limits :
      (user id random : String) (now : ℕ) (m : Method) (w : World redis)
      → (rest user id random now m w).1.limits ≡ w.limits
  rest-limits user id random now m w =
      limits-resume
        (λ (_ : Unit {0}).
          set_challenge redis id (new_challenge redis config id user m random now)
            config.code_expiry
          >> (emit redis (challenge_created user m.kind id)
              >> pure (new_challenge redis config id user m random now)))
        w (address redis config m w) (ap (λ (v : World redis). v.limits) (address-kept m w))
        (λ a v kept. stored-limits user id random now m w v kept)

  create_challenge-rest :
      (user id random : String) (now : ℕ) (m : Method) (w : World redis)
      → create_challenge redis config user id random now m w
        ≡ resume
            (λ (_ : Unit {0}). rest user id random now m)
            (check_rate_limit redis config user w)
  unfolding create_challenge
  create_challenge-rest user id random now m w = refl

  abbrev counted : String → World redis → World redis
  counted user w = record w {
    limits = set ℕ user (count user w + 1) (some (config.rate_window_minutes * 60)) w.limits;
  }

  check_rate_limit_down :
      (user : String) (w : World redis)
      → w.up ≡ false
      → check_rate_limit redis config user w ≡ (err redis_down, w)
  unfolding check_rate_limit
  check_rate_limit_down user w down = simp down

  check_rate_limit_full :
      (user : String) (w : World redis)
      → w.up ≡ true
      → leb config.rate_max_attempts (count user w) ≡ true
      → check_rate_limit redis config user w ≡ (err limited, w)
  unfolding check_rate_limit
  check_rate_limit_full user w up full = simp (up, full)

  check_rate_limit_free :
      (user : String) (w : World redis)
      → w.up ≡ true
      → leb config.rate_max_attempts (count user w) ≡ false
      → check_rate_limit redis config user w ≡ (ok tt, counted user w)
  unfolding check_rate_limit
  check_rate_limit_free user w up free = simp (up, free)

  counted-count : (user : String) (w : World redis) → count user (counted user w) ≡ count user w + 1
  counted-count user w = rw get-set (rw (eq_refl user) refl)

  pub create_challenge-IsCounted :
      (user id random : String) (now : ℕ) (m : Method) (w : World redis)
      → IsCounted user w (create_challenge redis config user id random now m w)
  create_challenge-IsCounted user id random now m w =
      rw (create_challenge-rest user id random now m w) (elim (Bool-cases w.up) [
        | inr down ↦ rw (check_rate_limit_down user w down) (inr (refl, omega arith))
        | inl up ↦ elim (Bool-cases (leb config.rate_max_attempts (count user w))) [
          | inl full ↦ rw (check_rate_limit_full user w up full) (inr (refl, omega arith))
          | inr free ↦ rw (check_rate_limit_free user w up free) (
              inl (
                ground arith,
                ap (λ (s : Strings ℕ). attempts_of (get ℕ user s))
                      (rest-limits user id random now m (counted user w))
                    ∙ counted-count user w,
              ))
        ]
      ])
