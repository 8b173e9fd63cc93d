-- ===== src/Mfa/Setup/Code.antt =====
-- The check of a code in verifyMFASetup of smp-auth-ts/src/services/mfa.service.ts enables a method.
use Prim.Native.String.{len}
use anticipation.Base.{
  ℕ, ◌≡◌, ◌≢◌, refl, String, Bool, true, false, Option, none, some, arith, inl, inr, ◌⊎◌,
  Option-cases, Bool-cases, str_eq, eq_iff, subst, sym, ap, ◌∙◌, ◌==◌,
}
use anticipation.Base.Result.{Result, ok, err}
use anticipation.Base.Exec.{◌>>=◌}
use anticipation.Redis.Laws.{Redis}
use anticipation.Mfa.State.{
  MethodType, totp, sms, email, webauthn, backup_codes, hardware_token, push, voice, magic_link,
  Method, Challenge, Config, World, Error, undefined_value, unequal_lengths, totp_failed,
  get_challenge,
}
use anticipation.Mfa.Challenges.Verify.{safe_equal}
use anticipation.Mfa.Setup.{setup_key, setup_answer, check_setup}

different_length : (a b : String) → (len a == len b) ≡ false → a ≢ b
different_length a b longer same =
    cc (subst (λ s. (len a == len s) ≡ true) same (same_number (len a)))
  where
    same_number : (n : ℕ) → (n == n) ≡ true
    same_number n = ground arith

module _ (redis : Redis) (config : Config) (hash : String → String)
    (totp_verify : String → Option String → Option Bool) where
  open redis use {Strings, get, members, set, get-set}

  -- The code that finishes the setup of a method of the kind.
  abbrev pub IsSetupRight : MethodType → Method → String → String → World redis → Type 0
  IsSetupRight totp m id code w = totp_verify code m.metadata.secret ≡ some true
  IsSetupRight sms m id code w =
      (c : Challenge) × (get Challenge (setup_key id) w.challenges ≡ some c) × (c.code ≡ some code)
  IsSetupRight email m id code w =
      (c : Challenge) × (get Challenge (setup_key id) w.challenges ≡ some c) × (c.code ≡ some code)
  IsSetupRight webauthn m id code w = code ≡ "webauthn-verified"
  IsSetupRight backup_codes m id code w = ⊥
  IsSetupRight hardware_token m id code w = ⊥
  IsSetupRight push m id code w = ⊥
  IsSetupRight voice m id code w = ⊥
  IsSetupRight magic_link m id code w = ⊥

  -- The check says whether `Right` holds, or throws where it does not.
  abbrev pub Tells : Type 0 → World redis → Result Error Bool × World redis → Type 0
  Tells Right w x =
      (Right × (x ≡ (ok true, w)))
      ⊎ ((¬ Right) × ((x ≡ (ok false, w)) ⊎ ((e : Error) × (x ≡ (err e, w)))))

  only_code :
      (k code : String) (w : World redis) (c : Challenge)
      → get Challenge k w.challenges ≡ some c
      → ((x : Challenge) × (get Challenge k w.challenges ≡ some x) × (x.code ≡ some code))
      → c.code ≡ some code
  only_code k code w c found (x, found', same) =
      let both : some c ≡ some x = sym found ∙ found' in
      let e : c ≡ x = cc in subst (λ (y : Challenge). y.code ≡ some code) (sym e) same

  only_sent :
      (k code sent : String) (w : World redis) (c : Challenge)
      → get Challenge k w.challenges ≡ some c
      → c.code ≡ some sent
      → ((x : Challenge) × (get Challenge k w.challenges ≡ some x) × (x.code ≡ some code))
      → code ≡ sent
  only_sent k code sent w c found present right =
      let both : some sent ≡ some code = sym present ∙ only_code k code w c found right in
      let e : sent ≡ code = cc in sym e

  answer-Tells :
      (id code : String) (w : World redis) (o : Option Challenge)
      → get Challenge (setup_key id) w.challenges ≡ o
      → Tells
          ((c : Challenge) × (get Challenge (setup_key id) w.challenges ≡ some c)
            × (c.code ≡ some code))
          w
          (setup_answer redis config hash totp_verify code o w)
  unfolding safe_equal
  answer-Tells id code w none missing = inr ((λ (c, found, same). cc), inl refl)
  answer-Tells id code w (some c) found = elim (Option-cases c.code) [
    | inl absent ↦ inr (
      (λ right. cc (only_code (setup_key id) code w c found right)),
      inr (undefined_value, rw absent refl),
    )
    | inr (sent, present) ↦ elim (Bool-cases (len code == len sent)) [
      | inr longer ↦ inr (
        (λ right.
            different_length code sent longer
              (only_sent (setup_key id) code sent w c found present right)),
        inr (unequal_lengths, rw present (rw longer refl)),
      )
      | inl sized ↦ elim (Bool-cases (str_eq code sent)) [
        | inl same ↦ inl (
          (c, found, present ∙ ap (λ x. some x) (sym ((eq_iff code sent).0 same))),
          rw present (rw sized (rw same refl)),
        )
        | inr other ↦ inr (
          (λ right.
              cc (
                (eq_iff code sent).1 (only_sent (setup_key id) code sent w c found present right))),
          inl (rw present (rw sized (rw other refl))),
        )
      ]
    ]
  ]

  other_answer : {o : Option Bool} → o ≡ some false → o ≢ some true
  other_answer refused right =
      let both : some false ≡ some true = sym refused ∙ right in let e : false ≡ true = cc in cc

  sent_answer :
      (id code : String) (w : World redis)
      → w.up ≡ true
      → (get_challenge redis (setup_key id) >>= setup_answer redis config hash totp_verify code) w
        ≡ setup_answer redis config hash totp_verify code
            (get Challenge (setup_key id) w.challenges)
            w
  sent_answer id code w up = simp up

  pub check_setup-Tells :
      (kind : MethodType) (m : Method) (id code : String) (w : World redis)
      → w.up ≡ true
      → Tells
          (IsSetupRight kind m id code w)
          w
          (check_setup redis config hash totp_verify kind m id code w)
  unfolding check_setup
  check_setup-Tells totp m id code w up = elim (Option-cases (totp_verify code m.metadata.secret)) [
    | inl missing ↦ inr ((λ right. cc), inr (totp_failed, rw missing refl))
    | inr (true, found) ↦ inl (found, rw found refl)
    | inr (false, found) ↦ inr ((λ right. other_answer found right), inl (rw found refl))
  ]
  check_setup-Tells sms m id code w up =
      rw (sent_answer id code w up)
        (answer-Tells id code w (get Challenge (setup_key id) w.challenges) refl)
  check_setup-Tells email m id code w up =
      rw (sent_answer id code w up)
        (answer-Tells id code w (get Challenge (setup_key id) w.challenges) refl)
  check_setup-Tells webauthn m id code w up = elim (Bool-cases (str_eq code "webauthn-verified")) [
    | inl same ↦ inl ((eq_iff code "webauthn-verified").0 same, rw same refl)
    | inr other ↦
        inr ((λ right. cc ((eq_iff code "webauthn-verified").1 right)), inl (rw other refl))
  ]
  check_setup-Tells backup_codes m id code w up = inr ((λ h. h), inl refl)
  check_setup-Tells hardware_token m id code w up = inr ((λ h. h), inl refl)
  check_setup-Tells push m id code w up = inr ((λ h. h), inl refl)
  check_setup-Tells voice m id code w up = inr ((λ h. h), inl refl)
  check_setup-Tells magic_link m id code w up = inr ((λ h. h), inl refl)
