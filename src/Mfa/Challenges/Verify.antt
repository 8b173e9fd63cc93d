-- ===== src/Mfa/Challenges/Verify.antt =====
-- verifyMFAChallenge of smp-auth-ts/src/services/mfa.service.ts. The check of a time-based code
-- (otplib) is a parameter, which fails where that throws.
use Prim.Native.String.{len}
use anticipation.Base.{
  ℕ, ◌-◌, String, Bool, true, false, ◌&&◌, not, Option, none, some, leb, ltb, ◌==◌, str_eq,
  if◌then◌else◌,
}
use anticipation.Base.Exec.{pure, throw, ◌>>=◌, ◌>>◌, try}
use anticipation.Redis.Laws.{Redis}
use anticipation.Mfa.State.{
  MethodType, totp, sms, email, webauthn, backup_codes, hardware_token, push, voice, magic_link,
  VerificationStatus, pending, verified, failed, expired, rate_limited, Method, Challenge, Config,
  M, get_method, set_method, get_challenge, set_challenge, delete_challenge, emit, unequal_lengths,
  totp_failed, verification_success, verification_failed,
}
use anticipation.Mfa.Backup.{one_year, use_backup_code}
use anticipation.Mfa.Devices.{trust_device}

pub record Outcome : Type 0 where
  pub success : Bool
  pub status : VerificationStatus
  pub attempts_remaining : Option ℕ
  pub device_trusted : Option Bool

abbrev pub refused : VerificationStatus → Outcome
refused status = record {
  success = false;
  status = status;
  attempts_remaining = none;
  device_trusted = none;
}

pub record Request : Type 0 where
  pub challenge_id : String
  pub code : String
  pub device_fingerprint : Option String
  pub remember_device : Bool

-- The status after a failed check, by the attempts that are left.
abbrev pub status_after : ℕ → VerificationStatus
status_after n = if ltb 0 n then pending else rate_limited

module _ (redis : Redis) (config : Config) where
  -- timingSafeEqual throws if the numbers of bytes differ, which `len` counts.
  unfoldable pub safe_equal : String → String → M redis Bool
  safe_equal a b = if len a == len b then pure (str_eq a b) else throw unequal_lengths

  module _ (hash : String → String) (totp_verify : String → Option String → Option Bool) where
    unfoldable pub check_totp : String → Option String → M redis Bool
    check_totp code secret = answer (totp_verify code secret)
      where
        answer : Option Bool → M redis Bool
        answer none = throw totp_failed
        answer (some b) = pure b

    unfoldable pub check_sent_code : Option String → String → M redis Bool
    unfolding safe_equal
    check_sent_code none code = pure false
    check_sent_code (some sent) code = if str_eq sent "" then pure false else safe_equal code sent

    unfoldable pub check_code : MethodType → Method → Challenge → String → M redis Bool
    unfolding check_totp check_sent_code
    check_code totp m c code = check_totp code m.metadata.secret
    check_code sms m c code = check_sent_code c.code code
    check_code email m c code = check_sent_code c.code code
    check_code backup_codes m c code = use_backup_code redis hash c.user_id code
    check_code webauthn m c code = pure (str_eq code "webauthn-success")
    check_code hardware_token m c code = pure false
    check_code push m c code = pure false
    check_code voice m c code = pure false
    check_code magic_link m c code = pure false

    -- The trust in the device, if it is asked for; `device` is a fresh id.
    unfoldable pub remember : Request → Challenge → String → ℕ → Option String → M redis Bool
    remember request c device now none = pure false
    remember request c device now (some print) =
        if request.remember_device && not (str_eq print "")
        then trust_device redis config c.user_id print none (some config.remember_device_days)
            device now
        else pure false

    unfoldable pub accept : Request → Challenge → Method → String → ℕ → M redis Outcome
    unfolding remember
    accept request c m device now = do
      delete_challenge redis request.challenge_id
      set_method redis c.method_id (record m { last_used_at = some now }) one_year
      trusted ← remember request c device now request.device_fingerprint
      emit redis (verification_success c.user_id m.kind request.challenge_id)
      pure (record {
        success = true;
        status = verified;
        attempts_remaining = none;
        device_trusted = some trusted;
      })

    unfoldable pub reject : Request → Challenge → Method → M redis Outcome
    reject request c m = do
      let left = c.attempts_remaining - 1
      let status = status_after left
      set_challenge redis request.challenge_id
          (record c { attempts_remaining = left; status = status }) config.code_expiry
      emit redis (verification_failed c.user_id m.kind request.challenge_id left)
      pure (record {
        success = false;
        status = status;
        attempts_remaining = some left;
        device_trusted = none;
      })

    unfoldable pub decide : Request → Challenge → String → ℕ → Method → M redis Outcome
    unfolding check_code accept reject
    decide request c device now m = do
      valid ← try (check_code m.kind m c request.code) (λ e. pure false)
      if valid then accept request c m device now else reject request c m

    unfoldable pub with_method : Request → Challenge → String → ℕ → Option Method → M redis Outcome
    unfolding decide
    with_method request c device now none = pure (refused failed)
    with_method request c device now (some m) = decide request c device now m

    unfoldable pub with_challenge : Request → String → ℕ → Option Challenge → M redis Outcome
    unfolding with_method
    with_challenge request device now none = pure (refused expired)
    with_challenge request device now (some c) =
        if ltb c.expires_at now
        then delete_challenge redis request.challenge_id >> pure (refused expired)
        else if leb c.attempts_remaining 0
        then pure (refused rate_limited)
        else do found ← get_method redis c.method_id; with_method request c device now found

    unfoldable pub verify_challenge : Request → String → ℕ → M redis Outcome
    unfolding with_challenge
    verify_challenge request device now = do
      found ← get_challenge redis request.challenge_id
      with_challenge request device now found
