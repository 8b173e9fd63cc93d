-- ===== src/Mfa/Challenges/Success.antt =====
-- When verifyMFAChallenge succeeds, and that a challenge is passed only once.
use anticipation.Base.{
  ℕ, ◌≡◌, String, Bool, true, false, Option, none, leb, ltb, arith, inl, inr, ◌↔◌, sym, ◌∙◌, ap,
}
use anticipation.Base.Result.{ok}
use anticipation.Redis.Laws.{Redis}
use anticipation.Mfa.State.{Method, Challenge, Config, World}
use anticipation.Mfa.Challenges.Code.{IsRight, check_code-frame, check_code_right}
use anticipation.Mfa.Challenges.Verify.{
  Outcome, Request, check_code, decide, with_method, with_challenge, verify_challenge,
}
use anticipation.Mfa.Challenges.Decision.{Succeeds, IsOpen, decide-accept, accept-Succeeds}
use anticipation.Mfa.Challenges.Fate.{verify_challenge-fate}

module _ (redis : Redis) (config : Config) (hash : String → String)
    (totp_verify : String → Option String → Option Bool) where
  open redis use {Strings, get, set, del, get-set, get-del}

  -- With the connection up, the call succeeds exactly if the challenge is there, has not expired and
  -- has attempts left, its method is there, and the code is right for the method.
  pub verify_challenge-Succeeds_iff :
      (r : Request) (device : String) (now : ℕ) (w : World redis)
      → w.up ≡ true
      → Succeeds redis config hash totp_verify
          (verify_challenge redis config hash totp_verify r device now w)
        ↔ ((c : Challenge) × (m : Method) × IsOpen redis config hash totp_verify r now w c m
            × IsRight redis config hash totp_verify m.kind m c r.code w)
  unfolding verify_challenge with_challenge with_method
  verify_challenge-Succeeds_iff r device now w up = (only, enough)
    where
      only :
          Succeeds redis config hash totp_verify
            (verify_challenge redis config hash totp_verify r device now w)
          → (c : Challenge) × (m : Method) × IsOpen redis config hash totp_verify r now w c m
            × IsRight redis config hash totp_verify m.kind m c r.code w
      only (o, returned, succeeded) =
          elim (verify_challenge-fate redis config hash totp_verify r device now w) [
            | inl (told, kept) ↦ absurd (cc (told o returned).0)
            | inr (inl (c, m, opened, right, succeeds, gone)) ↦ (c, m, opened, right)
            | inr (inr (c, m, opened, (p, returned', refused'), rest)) ↦
                let both : ok o ≡ ok p = sym returned ∙ returned' in
                let same : o ≡ p = cc in absurd (cc (ap (λ (q : Outcome). q.success) same))
          ]

      enough :
          ((c : Challenge) × (m : Method) × IsOpen redis config hash totp_verify r now w c m
            × IsRight redis config hash totp_verify m.kind m c r.code w)
          → Succeeds redis config hash totp_verify
              (verify_challenge redis config hash totp_verify r device now w)
      enough (c, m, (found, intime, left, known), right) =
          let accepted =
            check_code_right redis config hash totp_verify m.kind m c r.code w up right in
          let (kept, still_up) =
            check_code-frame redis config hash totp_verify m.kind m c r.code w in
          let fresh : ltb c.expires_at now ≡ false = ground arith in
          let some_left : leb c.attempts_remaining 0 ≡ false = ground arith in
          let same : verify_challenge redis config hash totp_verify r device now w
              ≡ decide redis config hash totp_verify r c device now m w =
            simp (up, found, fresh, some_left, known) in
          rw same (
            rw (decide-accept redis config hash totp_verify r c m device now w accepted) (
              accept-Succeeds redis config hash totp_verify r c m device now
                (check_code redis config hash totp_verify m.kind m c r.code w).1 (still_up ∙ up)))

  pub success_gone :
      (r : Request) (device : String) (now : ℕ) (w : World redis)
      → Succeeds redis config hash totp_verify
          (verify_challenge redis config hash totp_verify r device now w)
      → get Challenge r.challenge_id
          (verify_challenge redis config hash totp_verify r device now w).1.challenges
        ≡ none
  success_gone r device now w (o, returned, succeeded) =
      elim (verify_challenge-fate redis config hash totp_verify r device now w) [
        | inl (told, kept) ↦ absurd (cc (told o returned).0)
        | inr (inl (c, m, opened, right, succeeds, gone)) ↦ gone
        | inr (inr (c, m, opened, (p, returned', refused'), rest)) ↦
            let both : ok o ≡ ok p = sym returned ∙ returned' in
            let same : o ≡ p = cc in absurd (cc (ap (λ (q : Outcome). q.success) same))
      ]
