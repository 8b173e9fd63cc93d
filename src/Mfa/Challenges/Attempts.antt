-- ===== src/Mfa/Challenges/Attempts.antt =====
-- The attempts at one challenge over a run of calls of verifyMFAChallenge.
use anticipation.Base.{
  ℕ, ◌≡◌, ◌+◌, ◌≤◌, refl, String, Bool, false, Option, none, some, arith, inl, inr, ◌⊎◌, ◌≢◌, sym,
  subst, ◌∙◌,
}
use anticipation.Base.Result.{Result, ok, err}
use anticipation.Redis.Laws.{Redis}
use anticipation.Mfa.State.{Challenge, Config, World, Error}
use anticipation.Mfa.Challenges.Verify.{Outcome, Request, verify_challenge}
use anticipation.Mfa.Challenges.Decision.{Succeeds}
use anticipation.Mfa.Challenges.Fate.{verify_challenge-fate}
use anticipation.Mfa.Challenges.Success.{success_gone}

-- 1 if the outcome tells of attempts that are left, as it does after a wrong code.
abbrev pub told : Option ℕ → ℕ
told none = 0
told (some n) = 1

abbrev pub tells_failure : Result Error Outcome → ℕ
tells_failure (err e) = 0
tells_failure (ok o) = told o.attempts_remaining

told_le : (o : Option ℕ) → told o ≤ 1
told_le none = omega arith
told_le (some n) = omega arith

tells_failure_le : (x : Result Error Outcome) → tells_failure x ≤ 1
tells_failure_le (err e) = omega arith
tells_failure_le (ok o) = told_le o.attempts_remaining

tells_failure-zero :
    (x : Result Error Outcome)
    → ((o : Outcome) → x ≡ ok o → (o.success ≡ false) × (o.attempts_remaining ≡ none))
    → tells_failure x ≡ 0
tells_failure-zero (err e) silent = refl
tells_failure-zero (ok o) silent = rw (silent o refl).1 refl

module _ (redis : Redis) (config : Config) (hash : String → String)
    (totp_verify : String → Option String → Option Bool) where
  open redis use {Strings, get, set, del, get-set, get-del}

  -- A run of calls of verifyMFAChallenge with the challenge `k`, and the number of its outcomes that
  -- tell of a wrong code. The steps between the calls leave the challenge alone or remove it, as
  -- when the key expires.
  pub data Run (k : String) (w : World redis) : World redis → ℕ → Type 0 where
    start : Run k w w 0
    call :
        {v : World redis} {n : ℕ}
        → Run k w v n
        → (r : Request) (device : String) (now : ℕ) → r.challenge_id ≡ k
        → Run k w
            (verify_challenge redis config hash totp_verify r device now v).1
            (n + tells_failure (verify_challenge redis config hash totp_verify r device now v).0)
    elsewhere :
        {v : World redis} {n : ℕ}
        → Run k w v n
        → (u : World redis)
        → (get Challenge k u.challenges ≡ get Challenge k v.challenges)
          ⊎ (get Challenge k u.challenges ≡ none)
        → Run k w u n

  -- Along a run the challenge is gone, or has lost an attempt for each wrong code.
  abbrev pub Holds : String → Challenge → World redis → ℕ → Type 0
  Holds k c v n =
      (n ≤ c.attempts_remaining)
      × ((get Challenge k v.challenges ≡ none)
          ⊎ ((d : Challenge) × (get Challenge k v.challenges ≡ some d)
              × (d.attempts_remaining + n ≤ c.attempts_remaining)))

  Holds-elsewhere :
      (k : String) (c : Challenge) (v u : World redis) (n : ℕ)
      → (get Challenge k u.challenges ≡ get Challenge k v.challenges)
        ⊎ (get Challenge k u.challenges ≡ none)
      → Holds k c v n
      → Holds k c u n
  Holds-elsewhere k c v u n (inl same) (few, held) = (few, rw same held)
  Holds-elsewhere k c v u n (inr gone) (few, held) = (few, inl gone)

  plus_zero : (n : ℕ) → n ≡ n + 0
  plus_zero n = omega arith

  -- An open challenge has the attempts that are not told of.
  spare :
      (c d : Challenge) (v : World redis) (n : ℕ) (k : String)
      → get Challenge k v.challenges ≡ some d
      → (get Challenge k v.challenges ≡ none)
        ⊎ ((e : Challenge) × (get Challenge k v.challenges ≡ some e)
            × (e.attempts_remaining + n ≤ c.attempts_remaining))
      → d.attempts_remaining + n ≤ c.attempts_remaining
  spare c d v n k found (inl missing) = absurd cc
  spare c d v n k found (inr (e, found', room)) =
      let both : some e ≡ some d = sym found' ∙ found in
      let same : e ≡ d = cc in
      subst (λ (x : Challenge). x.attempts_remaining + n ≤ c.attempts_remaining) same room

  Holds-call :
      (c : Challenge) (v : World redis) (n : ℕ) (r : Request) (device : String) (now : ℕ)
      → Holds r.challenge_id c v n
      → Holds r.challenge_id c
          (verify_challenge redis config hash totp_verify r device now v).1
          (n + tells_failure (verify_challenge redis config hash totp_verify r device now v).0)
  Holds-call c v n r device now (few, held) =
      let x = verify_challenge redis config hash totp_verify r device now v in
      elim (verify_challenge-fate redis config hash totp_verify r device now v) [
        | inl (silent, kept) ↦
            let zero_told = tells_failure-zero x.0 silent in
            Holds-elsewhere r.challenge_id c v x.1 (n + tells_failure x.0) kept
              (rw zero_told (subst (Holds r.challenge_id c v) (plus_zero n) (few, held)))
        | inr (inl (d, m, (found, intime, left, known), right, succeeds, gone)) ↦
            let room = spare c d v n r.challenge_id found held in
            let small = tells_failure_le x.0 in (omega arith, inl gone)
        | inr (inr (d, m, (found, intime, left, known), refused_outcome, (d', found', less))) ↦
            let room = spare c d v n r.challenge_id found held in
            let small = tells_failure_le x.0 in (omega arith, inr (d', found', omega arith))
      ]

  Run-Holds :
      (k : String) (c : Challenge) {w v : World redis} {n : ℕ}
      → Run k w v n
      → get Challenge k w.challenges ≡ some c
      → Holds k c v n
  Run-Holds k c start found = (omega arith, inr (c, found, omega arith))
  Run-Holds k c (call {v = v} {n = n} run r device now same) found =
      subst
        (λ j.
          Holds j c v n
          → Holds j c (verify_challenge redis config hash totp_verify r device now v).1
              (n + tells_failure (verify_challenge redis config hash totp_verify r device now v).0))
        same (Holds-call c v n r device now) (Run-Holds k c run found)
  Run-Holds k c (elsewhere {v = v} {n = n} run u kept) found =
      Holds-elsewhere k c v u n kept (Run-Holds k c run found)

  -- Over any run of calls with one challenge, no more wrong codes are told of than the challenge
  -- has attempts.
  pub verify_challenge_bounded :
      (k : String) (c : Challenge) (w v : World redis) (n : ℕ)
      → get Challenge k w.challenges ≡ some c
      → Run k w v n
      → n ≤ c.attempts_remaining
  verify_challenge_bounded k c w v n found run = (Run-Holds k c run found).0

  call_gone :
      (r : Request) (device : String) (now : ℕ) (v : World redis)
      → get Challenge r.challenge_id v.challenges ≡ none
      → get Challenge r.challenge_id
          (verify_challenge redis config hash totp_verify r device now v).1.challenges
        ≡ none
  call_gone r device now v gone =
      elim (verify_challenge-fate redis config hash totp_verify r device now v) [
        | inl (silent, inl kept) ↦ kept ∙ gone
        | inl (silent, inr lost) ↦ lost
        | inr (inl (c, m, (found, intime, left, known), right, succeeds, lost)) ↦ absurd cc
        | inr (inr (c, m, (found, intime, some_left, known), refused_outcome, left)) ↦ absurd cc
      ]

  Succeeds-found :
      (r : Request) (device : String) (now : ℕ) (v : World redis)
      → Succeeds redis config hash totp_verify
          (verify_challenge redis config hash totp_verify r device now v)
      → get Challenge r.challenge_id v.challenges ≢ none
  Succeeds-found r device now v (o, returned, succeeded) gone =
      elim (verify_challenge-fate redis config hash totp_verify r device now v) [
        | inl (silent, kept) ↦ cc (silent o returned).0
        | inr (inl (c, m, (found, intime, left, known), right, succeeds, lost)) ↦ cc
        | inr (inr (c, m, (found, intime, some_left, known), refused_outcome, left)) ↦ cc
      ]

  Run-gone :
      {k : String} {w v : World redis} {n : ℕ}
      → Run k w v n
      → get Challenge k w.challenges ≡ none
      → get Challenge k v.challenges ≡ none
  Run-gone start gone = gone
  Run-gone (call {v = v} run r device now same) gone =
      subst
        (λ j.
          get Challenge j v.challenges ≡ none
          → get Challenge j
              (verify_challenge redis config hash totp_verify r device now v).1.challenges
            ≡ none)
        same (call_gone r device now v) (Run-gone run gone)
  Run-gone (elsewhere run u (inl same)) gone = same ∙ Run-gone run gone
  Run-gone (elsewhere run u (inr lost)) gone = lost

  -- A challenge is passed only once: after a success no call with it succeeds again, whatever calls
  -- with it come between, unless a challenge is stored anew under its identifier.
  pub verify_challenge_once :
      (r : Request) (device : String) (now : ℕ) (r' : Request) (device' : String) (now' : ℕ)
      (w v : World redis) (n : ℕ)
      → Succeeds redis config hash totp_verify
          (verify_challenge redis config hash totp_verify r device now w)
      → Run r.challenge_id (verify_challenge redis config hash totp_verify r device now w).1 v n
      → r'.challenge_id ≡ r.challenge_id
      → ¬ Succeeds redis config hash totp_verify
          (verify_challenge redis config hash totp_verify r' device' now' v)
  verify_challenge_once r device now r' device' now' w v n s run same again =
      Succeeds-found r' device' now' v again
        (rw same (Run-gone run (success_gone redis config hash totp_verify r device now w s)))
