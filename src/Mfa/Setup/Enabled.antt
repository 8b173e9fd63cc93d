-- ===== src/Mfa/Setup/Enabled.antt =====
-- When verifyMFASetup of smp-auth-ts/src/services/mfa.service.ts enables a method.
use anticipation.Base.{
  ℕ, ◌≡◌, ◌≢◌, refl, String, List, Bool, true, false, Option, none, some, inl, inr, ◌⊎◌, ◌&&◌,
  Option-cases, Bool-cases, subst, sym, ap, ◌∙◌, ◌↔◌,
}
use anticipation.Base.Result.{Result, ok, err, ok_injective}
use anticipation.Base.Exec.{handle_ok, pure}
use anticipation.Redis.Laws.{Redis}
use anticipation.Mfa.State.{Method, Config, World, Error}
use anticipation.Mfa.Backup.{generate_backup_codes}
use anticipation.Mfa.Methods.Loads.{get_user_methods-stored}
use anticipation.Mfa.Setup.{Verdict, is_totp, check_setup, enable, verify_found, verify_setup}
use anticipation.Mfa.Setup.Code.{IsSetupRight, check_setup-Tells}

module _ (redis : Redis) (config : Config) (hash : String → String)
    (totp_verify : String → Option String → Option Bool) where
  open redis use {Strings, get, members, set, get-set}

  enable-valid :
      (id : String) (m : Method) (codes : List String) (now : ℕ) (w : World redis)
      → w.up ≡ true
      → (enable redis config hash totp_verify id m codes now w).0 ≡ ok (record { valid = true })
  unfolding enable generate_backup_codes
  enable-valid id m codes now w up =
      rw (get_user_methods-stored redis m.user_id w up)
        (elim (Bool-cases (config.require_backup_codes && is_totp m.kind)) [
          | inl asked ↦ simp (up, asked)
          | inr unasked ↦ simp (up, unasked)
        ])

  verify_setup_known :
      (id code : String) (codes : List String) (now : ℕ) (w : World redis) (o : Option Method)
      → w.up ≡ true
      → get Method id w.methods ≡ o
      → verify_setup redis config hash totp_verify id code codes now w
        ≡ verify_found redis config hash totp_verify id code codes now o w
  unfolding verify_setup
  verify_setup_known id code codes now w o up found = simp (up, found)

  verify_found_right :
      (id code : String) (codes : List String) (now : ℕ) (w : World redis) (m : Method)
      → w.up ≡ true
      → check_setup redis config hash totp_verify m.kind m id code w ≡ (ok true, w)
      → (verify_found redis config hash totp_verify id code codes now (some m) w).0
        ≡ ok (record { valid = true })
  unfolding verify_found
  verify_found_right id code codes now w m up right = rw right (
      ap (λ (x : Result Error Verdict × World redis). x.0)
        (handle_ok (λ (e : Error). pure {S = World redis} (record { valid = false }))
          (record { valid = true }) (enable redis config hash totp_verify id m codes now w)
          (enable-valid id m codes now w up)))

  verify_found_wrong :
      (id code : String) (codes : List String) (now : ℕ) (w : World redis) (m : Method)
      → ((check_setup redis config hash totp_verify m.kind m id code w ≡ (ok false, w))
          ⊎ ((e : Error) × (check_setup redis config hash totp_verify m.kind m id code w
                ≡ (err e, w))))
      → verify_found redis config hash totp_verify id code codes now (some m) w
        ≡ (ok (record { valid = false }), w)
  unfolding verify_found
  verify_found_wrong id code codes now w m (inl refused) = rw refused refl
  verify_found_wrong id code codes now w m (inr (e, thrown)) = rw thrown refl

  not_valid :
      ◌≢◌ {A = Result Error Verdict} (ok (record { valid = false })) (ok (record { valid = true }))
  not_valid h = cc (ap (λ (v : Verdict). v.valid) (ok_injective h))

  verify_found-none :
      (id code : String) (codes : List String) (now : ℕ) (w : World redis)
      → (verify_found redis config hash totp_verify id code codes now none w).0
        ≢ ok (record { valid = true })
  unfolding verify_found
  verify_found-none id code codes now w h = not_valid h

  -- The verdict of the setup of a stored method.
  verify_found-valid :
      (id code : String) (codes : List String) (now : ℕ) (w : World redis) (m : Method)
      → w.up ≡ true
      → ((verify_found redis config hash totp_verify id code codes now (some m) w).0
          ≡ ok (record { valid = true }))
        ↔ IsSetupRight redis config hash totp_verify m.kind m id code w
  verify_found-valid id code codes now w m up =
      elim (check_setup-Tells redis config hash totp_verify m.kind m id code w up) [
        | inl (right, told) ↦
            ((λ h. right), (λ h. verify_found_right id code codes now w m up told))
        | inr (wrong, told) ↦ (
          (λ h. absurd (
              not_valid (
                sym (
                  ap (λ (x : Result Error Verdict × World redis). x.0)
                    (verify_found_wrong id code codes now w m told))
                ∙ h))),
          (λ right. absurd (wrong right)),
        )
      ]

  -- With the connection up, the setup of a method succeeds exactly if the method is stored and the
  -- code is right for it.
  pub verify_setup-valid_iff :
      (id code : String) (codes : List String) (now : ℕ) (w : World redis)
      → w.up ≡ true
      → ((verify_setup redis config hash totp_verify id code codes now w).0
          ≡ ok (record { valid = true }))
        ↔ ((m : Method) × (get Method id w.methods ≡ some m)
            × IsSetupRight redis config hash totp_verify m.kind m id code w)
  verify_setup-valid_iff id code codes now w up = elim (Option-cases (get Method id w.methods)) [
    | inl missing ↦
        rw (verify_setup_known id code codes now w none up missing) (
          (λ h. absurd (verify_found-none id code codes now w h)),
          (λ (m, found, right). absurd cc),
        )
    | inr (m, found) ↦ rw (verify_setup_known id code codes now w (some m) up found) (
      (λ h. (m, found, (verify_found-valid id code codes now w m up).0 h)),
      λ (x, found', right).
          let both : some x ≡ some m = sym found' ∙ found in
          let same : x ≡ m = cc in
          (verify_found-valid id code codes now w m up).1 (
            subst (λ (y : Method). IsSetupRight redis config hash totp_verify y.kind y id code w)
              same right),
    )
  ]
