-- ===== src/Mfa/Setup.antt =====
-- setupMFAMethod, verifyMFASetup and createVerificationChallenge of
-- smp-auth-ts/src/services/mfa.service.ts. The secret, the code and the identifiers that are drawn
-- at random are arguments.
pub mod Code
pub mod Enabled
use Prim.Native.String.{◌++◌ as append}
use anticipation.Base.{
  ℕ, ◌+◌, ◌*◌, String, List, [], ◌∷◌, Bool, true, false, ◌&&◌, Option, none, some, is_nil, str_eq,
  if◌then◌else◌,
}
use anticipation.Base.Exec.{pure, throw, ◌>>=◌, ◌>>◌, try}
use anticipation.Redis.Laws.{Redis}
use anticipation.Mfa.State.{
  MethodType, totp, sms, email, webauthn, backup_codes, hardware_token, push, voice, magic_link,
  pending, Metadata, Method, Challenge, Config, World, M, Error, undefined_value, phone_required,
  email_required, unsupported_method, totp_failed, get_method, set_method, get_challenge,
  set_challenge, delete_challenge, add_method_id, emit, method_added,
}
use anticipation.Mfa.Backup.{one_year, generate_backup_codes}
use anticipation.Mfa.Methods.{get_user_methods}
use anticipation.Mfa.Challenges.{code_for}
use anticipation.Mfa.Challenges.Verify.{safe_equal}

pub record SetupRequest : Type 0 where
  pub user_id : String
  pub kind : MethodType
  pub name : String
  pub phone_number : Option String
  pub email_address : Option String
  pub device_name : Option String

abbrev pub one_day : ℕ
one_day = 86400

-- The part of `mfa:challenge:setup:${id}` after `mfa:challenge:`.
abbrev pub setup_key : String → String
setup_key id = append "setup:" id

abbrev pub no_metadata : Metadata
no_metadata = record {
  secret = none;
  phone_number = none;
  email_address = none;
  device_name = none;
}

abbrev pub or_empty : Option String → String
or_empty none = ""
or_empty (some s) = s

-- `deviceInfo?.name || 'Security Key'`
abbrev pub key_name : Option String → String
key_name none = "Security Key"
key_name (some s) = if str_eq s "" then "Security Key" else s

-- A method as the setup stores it: neither enabled nor verified.
abbrev pub fresh_method : SetupRequest → String → Metadata → ℕ → Method
fresh_method request id metadata now = record {
  id = id;
  user_id = request.user_id;
  kind = request.kind;
  name = request.name;
  is_enabled = false;
  is_primary = false;
  is_verified = false;
  created_at = now;
  last_used_at = none;
  metadata = metadata;
}

pub record Verdict : Type 0 where
  pub valid : Bool

abbrev pub first_is_primary : List Method → Method → Method
first_is_primary [] m = record m { is_enabled = true; is_verified = true; is_primary = true }
first_is_primary (n ∷ ns) m = record m { is_enabled = true; is_verified = true }

abbrev pub is_totp : MethodType → Bool
is_totp totp = true
is_totp _ = false

module _ (redis : Redis) (config : Config) where
  unfoldable pub create_verification_challenge :
      String → MethodType → String → String → ℕ → M redis Challenge
  create_verification_challenge method_id kind id random now = do
    let challenge : Challenge = record {
      id = id;
      user_id = "";
      method_id = method_id;
      method_type = kind;
      status = pending;
      code = code_for kind random;
      created_at = now;
      expires_at = now + config.code_expiry * 1000;
      attempts_remaining = config.max_attempts;
    }
    set_challenge redis (setup_key method_id) challenge config.code_expiry
    pure challenge

  abbrev pub store : SetupRequest → String → Metadata → ℕ → M redis (Unit {0})
  store request id metadata now = set_method redis id (fresh_method request id metadata now) one_day

  unfoldable pub setup_totp : SetupRequest → String → String → ℕ → M redis (Option Challenge)
  setup_totp request id secret now =
      store request id (record no_metadata { secret = some secret }) now >> pure none

  unfoldable pub setup_sms :
      SetupRequest → String → String → String → ℕ → M redis (Option Challenge)
  unfolding create_verification_challenge
  setup_sms request id challenge_id random now =
      if str_eq (or_empty request.phone_number) "" then throw phone_required else do
        store request id (record no_metadata { phone_number = request.phone_number }) now
        challenge ← create_verification_challenge id sms challenge_id random now
        pure (some challenge)

  unfoldable pub setup_email :
      SetupRequest → String → String → String → ℕ → M redis (Option Challenge)
  unfolding create_verification_challenge
  setup_email request id challenge_id random now =
      if str_eq (or_empty request.email_address) "" then throw email_required else do
        store request id (record no_metadata { email_address = request.email_address }) now
        challenge ← create_verification_challenge id email challenge_id random now
        pure (some challenge)

  unfoldable pub setup_webauthn : SetupRequest → String → ℕ → M redis (Option Challenge)
  setup_webauthn request id now =
      store request id (record no_metadata { device_name = some (key_name request.device_name) })
        now
      >> pure none

  unfoldable pub setup_kind :
      MethodType → SetupRequest → String → String → String → String → ℕ → M redis (Option Challenge)
  unfolding setup_totp setup_sms setup_email setup_webauthn
  setup_kind totp request id challenge_id secret random now = setup_totp request id secret now
  setup_kind sms request id challenge_id secret random now =
      setup_sms request id challenge_id random now
  setup_kind email request id challenge_id secret random now =
      setup_email request id challenge_id random now
  setup_kind webauthn request id challenge_id secret random now = setup_webauthn request id now
  setup_kind backup_codes request id challenge_id secret random now = throw unsupported_method
  setup_kind hardware_token request id challenge_id secret random now = throw unsupported_method
  setup_kind push request id challenge_id secret random now = throw unsupported_method
  setup_kind voice request id challenge_id secret random now = throw unsupported_method
  setup_kind magic_link request id challenge_id secret random now = throw unsupported_method

  -- The challenge of the result, where it has one. The text that a failure is wrapped in is left out.
  unfoldable pub setup_method :
      SetupRequest → String → String → String → String → ℕ → M redis (Option Challenge)
  unfolding setup_kind
  setup_method request id challenge_id secret random now =
      setup_kind request.kind request id challenge_id secret random now

  module _ (hash : String → String) (totp_verify : String → Option String → Option Bool) where
    abbrev pub totp_answer : Option Bool → M redis Bool
    totp_answer none = throw totp_failed
    totp_answer (some b) = pure b

    -- The code of the setup challenge, where there is one. Buffer.from throws on a missing code.
    abbrev pub setup_answer : String → Option Challenge → M redis Bool
    setup_answer code none = pure false
    setup_answer code (some c) = compared c.code
      where
        compared : Option String → M redis Bool
        compared none = throw undefined_value
        compared (some sent) = safe_equal redis config code sent

    unfoldable pub check_setup : MethodType → Method → String → String → M redis Bool
    unfolding safe_equal
    check_setup totp m id code = totp_answer (totp_verify code m.metadata.secret)
    check_setup sms m id code = get_challenge redis (setup_key id) >>= setup_answer code
    check_setup email m id code = get_challenge redis (setup_key id) >>= setup_answer code
    check_setup webauthn m id code = pure (str_eq code "webauthn-verified")
    check_setup backup_codes m id code = pure false
    check_setup hardware_token m id code = pure false
    check_setup push m id code = pure false
    check_setup voice m id code = pure false
    check_setup magic_link m id code = pure false

    unfoldable pub enable : String → Method → List String → ℕ → M redis Verdict
    unfolding get_user_methods generate_backup_codes
    enable id m codes now = do
      methods ← get_user_methods redis m.user_id
      set_method redis id (first_is_primary methods m) one_year
      add_method_id redis m.user_id id
      (if config.require_backup_codes && is_totp m.kind
          then generate_backup_codes redis hash m.user_id codes now >> pure tt
          else pure tt)
      delete_challenge redis (setup_key id)
      emit redis (method_added m.user_id m.kind m.id)
      pure (record { valid = true })

    unfoldable pub verify_found :
        String → String → List String → ℕ → Option Method → M redis Verdict
    unfolding check_setup enable
    verify_found id code codes now none = pure (record { valid = false })
    verify_found id code codes now (some m) =
        try
          (check_setup m.kind m id code >>= λ (right : Bool).
            if right then enable id m codes now else pure (record { valid = false }))
          (λ e. pure (record { valid = false }))

    unfoldable pub verify_setup : String → String → List String → ℕ → M redis Verdict
    unfolding verify_found
    verify_setup id code codes now = do
      found ← get_method redis id
      verify_found id code codes now found
