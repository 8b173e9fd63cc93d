-- ===== src/Mfa/Challenges.antt =====
-- initiateMFAChallenge and checkRateLimit of smp-auth-ts/src/services/mfa.service.ts.
pub mod Verify
pub mod Counting
pub mod Rate
pub mod Code
pub mod Decision
pub mod Fate
pub mod Success
pub mod Attempts
use Prim.Native.String.{len}
use anticipation.Base.{
  ℕ, ◌+◌, ◌-◌, ◌*◌, String, List, [], ◌∷◌, Bool, true, false, ◌&&◌, not, Option, none, some, leb,
  ltb, ◌==◌, str_eq, if◌then◌else◌,
}
use anticipation.Base.Result.{Result, ok, err}
use anticipation.Base.Exec.{pure, throw, ◌>>=◌, ◌>>◌, try}
use anticipation.Redis.Laws.{Redis}
use anticipation.Mfa.State.{
  MethodType, totp, sms, email, webauthn, backup_codes, hardware_token, push, voice, magic_link,
  VerificationStatus, pending, verified, failed, expired, rate_limited, Method, Challenge, Config,
  Device, World, M, Error, get_method, set_method, get_challenge, set_challenge, delete_challenge,
  get_limit, set_limit, emit, no_active_method, undefined_value, type_not_active, limited,
  unequal_lengths, totp_failed, challenge_created, verification_success, verification_failed,
}
use anticipation.Mfa.Backup.{one_year, use_backup_code}
use anticipation.Mfa.Methods.{get_user_methods}
use anticipation.Mfa.Devices.{trust_device}

-- === on the members of the union.
abbrev pub same_type : MethodType → MethodType → Bool
same_type totp totp = true
same_type sms sms = true
same_type email email = true
same_type webauthn webauthn = true
same_type backup_codes backup_codes = true
same_type hardware_token hardware_token = true
same_type push push = true
same_type voice voice = true
same_type magic_link magic_link = true
same_type _ _ = false

abbrev pub enabled_only : List Method → List Method
enabled_only [] = []
enabled_only (m ∷ ms) = if m.is_enabled then m ∷ enabled_only ms else enabled_only ms

-- Array.find
abbrev pub find_method : (Method → Bool) → List Method → Option Method
find_method p [] = none
find_method p (m ∷ ms) = if p m then some m else find_method p ms

-- `found || activeMethods[0]`
abbrev pub or_first : Option Method → Method → Method
or_first (some m) first = m
or_first none first = first

-- `attempts ? parseInt(attempts) : 0`
abbrev pub attempts_of : Option ℕ → ℕ
attempts_of none = 0
attempts_of (some n) = n

-- generateMFACode, where `random` is what Math.random and randomBytes give.
abbrev pub code_for : MethodType → String → Option String
code_for sms random = some random
code_for email random = some random
code_for backup_codes random = some random
code_for totp random = none
code_for webauthn random = some ""
code_for hardware_token random = some ""
code_for push random = some ""
code_for voice random = some ""
code_for magic_link random = some ""

module _ (redis : Redis) (config : Config) where
  unfoldable pub check_rate_limit : String → M redis (Unit {0})
  check_rate_limit user = do
    found ← get_limit redis user
    let attempts = attempts_of found
    if leb config.rate_max_attempts attempts
        then throw limited
        else set_limit redis user (attempts + 1) (config.rate_window_minutes * 60)

  abbrev pub or_throw : Error → Option Method → M redis Method
  or_throw e none = throw e
  or_throw e (some m) = pure m

  unfoldable pub select_method : Option MethodType → List Method → M redis Method
  select_method kind [] = throw no_active_method
  select_method (some kind) (m ∷ ms) =
      or_throw type_not_active (find_method (λ n. same_type n.kind kind) (m ∷ ms))
  select_method none (m ∷ ms) = pure (or_first (find_method (λ n. n.is_primary) (m ∷ ms)) m)

  abbrev pub new_challenge : String → String → Method → String → ℕ → Challenge
  new_challenge id user m random now = record {
    id = id;
    user_id = user;
    method_id = m.id;
    method_type = m.kind;
    status = pending;
    code = code_for m.kind random;
    created_at = now;
    expires_at = now + config.code_expiry * 1000;
    attempts_remaining = config.max_attempts;
  }

  -- maskPhone and maskEmail read a property of an address that is not there.
  abbrev pub present : Option String → M redis (Unit {0})
  present none = throw undefined_value
  present (some text) = pure tt

  abbrev pub address : Method → M redis (Unit {0})
  address m =
      if same_type m.kind sms
      then present m.metadata.phone_number
      else if same_type m.kind email
      then present m.metadata.email_address
      else pure tt

  -- The rest of initiateMFAChallenge, for the method that is selected.
  unfoldable pub create_challenge : String → String → String → ℕ → Method → M redis Challenge
  unfolding check_rate_limit
  create_challenge user id random now method = do
    check_rate_limit user
    address method
    let challenge = new_challenge id user method random now
    set_challenge redis id challenge config.code_expiry
    emit redis (challenge_created user method.kind id)
    pure challenge

  unfoldable pub initiate_challenge :
      String → Option MethodType → String → String → ℕ → M redis Challenge
  unfolding select_method create_challenge
  initiate_challenge user kind id random now = do
    methods ← get_user_methods redis user
    method ← select_method kind (enabled_only methods)
    create_challenge user id random now method
