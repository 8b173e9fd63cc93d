-- ===== src/Mfa/Challenges/Fate.antt =====
-- What a call of verifyMFAChallenge does to its challenge.
use anticipation.Base.{
  ℕ, ◌≡◌, refl, String, Bool, false, Option, none, leb, ltb, arith, Option-cases, Bool-cases, inl,
  inr, ◌⊎◌, eq_refl, subst,
}
use anticipation.Base.Result.{Result, ok}
use anticipation.Redis.Laws.{Redis}
use anticipation.Mfa.State.{
  Method, Challenge, Config, World, Error, VerificationStatus, expired, failed, rate_limited,
}
use anticipation.Mfa.Challenges.Verify.{
  Outcome, Request, refused, decide, with_method, with_challenge, verify_challenge,
}
use anticipation.Mfa.Challenges.Decision.{IsFailed, IsPassed, IsUntried, decide-fate}

module _ (redis : Redis) (config : Config) (hash : String → String)
    (totp_verify : String → Option String → Option Bool) where
  open redis use {Strings, get, set, del, get-set, get-del}

  IsUntried-refused :
      (r : Request) (w v : World redis) (x : Result Error Outcome × World redis)
      (status : VerificationStatus)
      → x ≡ (ok (refused status), v)
      → (get Challenge r.challenge_id v.challenges ≡ get Challenge r.challenge_id w.challenges)
        ⊎ (get Challenge r.challenge_id v.challenges ≡ none)
      → IsUntried redis config hash totp_verify r w x
  IsUntried-refused r w v x status same kept = rw same (told, kept)
    where
      told :
          (o : Outcome)
          → ◌≡◌ {A = Result Error Outcome} (ok (refused status)) (ok o)
          → (o.success ≡ false) × (o.attempts_remaining ≡ none)
      told o e =
          let e' : refused status ≡ o = cc in
          subst (λ (p : Outcome). (p.success ≡ false) × (p.attempts_remaining ≡ none)) e'
            (refl, refl)

  -- Each call of verifyMFAChallenge tried no code, or found an open challenge and passed it with a
  -- right code or failed it.
  pub verify_challenge-fate :
      (r : Request) (device : String) (now : ℕ) (w : World redis)
      → IsUntried redis config hash totp_verify r w
          (verify_challenge redis config hash totp_verify r device now w)
        ⊎ (IsPassed redis config hash totp_verify r now w
              (verify_challenge redis config hash totp_verify r device now w)
            ⊎ IsFailed redis config hash totp_verify r now w
                (verify_challenge redis config hash totp_verify r device now w))
  unfolding verify_challenge with_challenge with_method
  verify_challenge-fate r device now w = elim (Bool-cases w.up) [
    | inr down ↦ inl (ground arith)
    | inl up ↦ elim (Option-cases (get Challenge r.challenge_id w.challenges)) [
      | inl missing ↦ inl (
          IsUntried-refused r w w (verify_challenge redis config hash totp_verify r device now w)
            expired (simp (up, missing)) (inl refl))
      | inr (c, found) ↦ elim (Bool-cases (ltb c.expires_at now)) [
        | inl late ↦ inl (
            IsUntried-refused r w
              (record w { challenges = del Challenge r.challenge_id w.challenges })
              (verify_challenge redis config hash totp_verify r device now w) expired
              (simp (up, found, late)) (inr (simp (get-del, eq_refl))))
        | inr intime ↦ elim (Bool-cases (leb c.attempts_remaining 0)) [
          | inl spent ↦ inl (
              IsUntried-refused r w w
                (verify_challenge redis config hash totp_verify r device now w) rate_limited
                (simp (up, found, intime, spent)) (inl refl))
          | inr some_left ↦ elim (Option-cases (get Method c.method_id w.methods)) [
            | inl unknown ↦ inl (
                IsUntried-refused r w w
                  (verify_challenge redis config hash totp_verify r device now w) failed
                  (simp (up, found, intime, some_left, unknown)) (inl refl))
            | inr (m, known) ↦
                let same : verify_challenge redis config hash totp_verify r device now w
                    ≡ decide redis config hash totp_verify r c device now m w =
                  simp (up, found, intime, some_left, known) in
                inr (
                  rw same (
                    decide-fate redis config hash totp_verify r c m device now w up
                      (found, ground arith, ground arith, known)))
          ]
        ]
      ]
    ]
  ]
