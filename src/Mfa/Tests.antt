-- ===== src/Mfa/Tests.antt =====
-- Runs of the service for second factors, on a Redis server in memory.
use Prim.Native.String.{◌++◌ as append}
use anticipation.Base.{
  ◌+◌, ◌≡◌, ◌≢◌, ◌≤◌, refl, String, [], ◌∷◌, Bool, true, false, Option, none, some, arith, inl, inr,
  ◌⊎◌, ◌↔◌, str_eq, Bool-cases, eq_iff, ap, sym, ◌∙◌,
}
use anticipation.Base.Result.{ok, err}
use anticipation.Redis.Expiry.{timed, clock}
use anticipation.Mfa.Devices.Lifetime.{wait, is_device_trusted-trust_device}
use anticipation.Redis.Memory.{memory, write}
use anticipation.Mfa.State.{totp, email, pending, Method, Challenge, Config, World, last_method}
use anticipation.Mfa.Backup.{use_backup_code, generate_backup_codes}
use anticipation.Mfa.Backup.SingleUse.{here, use_backup_code_once, use-generate_backup_codes}
use anticipation.Mfa.Methods.{
  remove_method, get_user_methods, load_methods, sort_methods, insert_sorted,
}
use anticipation.Mfa.Methods.Primary.{IsWellKeyed, HasEnabled}
use anticipation.Mfa.Methods.Removal.{remove_method-HasEnabled}
use anticipation.Mfa.Devices.{is_device_trusted, trust_device}
use anticipation.Mfa.Devices.Trust.{IsTrusted, is_device_trusted_iff}
use anticipation.Mfa.Challenges.{
  initiate_challenge, select_method, create_challenge, check_rate_limit,
}
use anticipation.Mfa.Challenges.Verify.{
  Request, verify_challenge, with_challenge, with_method, decide, check_code, check_sent_code,
  safe_equal, reject,
}
use anticipation.Mfa.Challenges.Code.{IsRight}
use anticipation.Mfa.Challenges.Decision.{Succeeds, IsOpen}
use anticipation.Mfa.Challenges.Success.{verify_challenge-Succeeds_iff}
use anticipation.Mfa.Challenges.Attempts.{
  Run, start, call, verify_challenge_bounded, verify_challenge_once,
}
use anticipation.Mfa.Challenges.Rate.{
  Issues, start as begin, call as issue, initiate_challenge_bounded,
}
use anticipation.Mfa.Resend.{resend_code}
use anticipation.Mfa.Setup.{verify_setup}
use anticipation.Mfa.Setup.Code.{IsSetupRight}
use anticipation.Mfa.Setup.Enabled.{verify_setup-valid_iff}

abbrev pub config : Config
config = record {
  max_attempts = 3;
  code_expiry = 300;
  rate_max_attempts = 5;
  rate_window_minutes = 15;
  require_backup_codes = true;
  remember_device_days = 30;
}

abbrev pub hash : String → String
hash s = append "sha256:" s

abbrev pub totp_verify : String → Option String → Option Bool
totp_verify code none = none
totp_verify code (some secret) = some (str_eq code "123456")

abbrev pub by_mail : Method
by_mail = record {
  id = "m1";
  user_id = "ada";
  kind = email;
  name = "Mail";
  is_enabled = true;
  is_primary = true;
  is_verified = true;
  created_at = 1;
  last_used_at = none;
  metadata = record {
    secret = none;
    phone_number = none;
    email_address = some "ada@example.org";
    device_name = none;
  };
}

abbrev by_app : Method
by_app = record by_mail { id = "m2"; kind = totp; is_primary = false }

abbrev methods : String → Option Method
methods = write "m1" (some by_mail) (write "m2" (some by_app) (λ k. none))

abbrev pub challenge : Challenge
challenge = record {
  id = "c1";
  user_id = "ada";
  method_id = "m1";
  method_type = email;
  status = pending;
  code = some "482913";
  created_at = 0;
  expires_at = 300000;
  attempts_remaining = 3;
}

abbrev pub world : World memory
world = record {
  up = true;
  methods = methods;
  challenges = write "c1" (some challenge) (λ k. none);
  backups = λ k. none;
  devices = λ k. none;
  limits = λ k. none;
  user_methods = write "ada" ("m1" ∷ "m2" ∷ []) (λ k. []);
  user_devices = λ k. [];
  events = [];
}

abbrev pub right : Request
right = record {
  challenge_id = "c1";
  code = "482913";
  device_fingerprint = some "print";
  remember_device = true;
}

abbrev wrong : Request
wrong = record right { code = "000000" }

verify_challenge-Succeeds_iff_example :
    Succeeds memory config hash totp_verify
      (verify_challenge memory config hash totp_verify right "d1" 1000 world)
    ↔ ((c : Challenge) × (m : Method) × IsOpen memory config hash totp_verify right 1000 world c m
        × IsRight memory config hash totp_verify m.kind m c right.code world)
verify_challenge-Succeeds_iff_example =
    verify_challenge-Succeeds_iff memory config hash totp_verify right "d1" 1000 world refl

one_wrong :
    Run memory config hash totp_verify "c1" world
      (verify_challenge memory config hash totp_verify wrong "d1" 1000 world).1
      1
unfolding verify_challenge with_challenge with_method decide check_code check_sent_code safe_equal
    reject
one_wrong = call start wrong "d1" 1000 refl

verify_challenge_bounded_example : 1 ≤ 3
verify_challenge_bounded_example =
    verify_challenge_bounded memory config hash totp_verify "c1" challenge world
      (verify_challenge memory config hash totp_verify wrong "d1" 1000 world).1 1 refl one_wrong

pub is_open : IsOpen memory config hash totp_verify right 1000 world challenge by_mail
is_open = (refl, omega arith, omega arith, refl)

passed :
    Succeeds memory config hash totp_verify
      (verify_challenge memory config hash totp_verify right "d1" 1000 world)
passed = verify_challenge-Succeeds_iff_example.1 (challenge, by_mail, is_open, (refl, λ h. cc))

verify_challenge_once_example : ¬ Succeeds memory config hash totp_verify (
    verify_challenge memory config hash totp_verify right "d2" 2000
      (verify_challenge memory config hash totp_verify right "d1" 1000 world).1)
verify_challenge_once_example =
    verify_challenge_once memory config hash totp_verify right "d1" 1000 right "d2" 2000 world
      (verify_challenge memory config hash totp_verify right "d1" 1000 world).1 0 passed start refl

abbrev issued : World memory
issued = record world {
  backups =
      write "ada"
        (some (record {
          user_id = "ada";
          codes = "sha256:A1" ∷ "sha256:B2" ∷ [];
          generated_at = 0;
          used_codes = [];
          remaining_codes = 2;
        }))
        (λ k. none);
}

code_accepted : (use_backup_code memory hash "ada" "A1" issued).0 ≡ ok true
unfolding use_backup_code
code_accepted = refl

use_backup_code_once_example :
    (use_backup_code memory hash "ada" "A1" (use_backup_code memory hash "ada" "A1" issued).1).0
    ≢ ok true
use_backup_code_once_example =
    use_backup_code_once memory hash "ada" "A1" "A1" issued
      (use_backup_code memory hash "ada" "A1" issued).1 code_accepted here refl

use-generate_backup_codes_example :
    (use_backup_code memory hash "ada" "B2"
      (generate_backup_codes memory hash "ada" ("A1" ∷ "B2" ∷ []) 5 world).1).0
    ≡ ok true
use-generate_backup_codes_example =
    use-generate_backup_codes memory hash "ada" "B2" ("A1" ∷ "B2" ∷ []) 5 world refl refl

well_keyed : IsWellKeyed memory world
well_keyed k m found = elim (Bool-cases (str_eq "m1" k)) [
  | inl first ↦
      let both : some by_mail ≡ some m = rw first at found in
      let same : by_mail ≡ m = cc in ap (λ (n : Method). n.id) (sym same) ∙ (eq_iff "m1" k).0 first
  | inr later ↦ elim (Bool-cases (str_eq "m2" k)) [
    | inl second ↦
        let both : some by_app ≡ some m = rw second at (rw later at found) in
        let same : by_app ≡ m = cc in
        ap (λ (n : Method). n.id) (sym same) ∙ (eq_iff "m2" k).0 second
    | inr neither ↦ absurd (cc (rw neither at (rw later at found)))
  ]
]

remove_method-HasEnabled_example :
    (remove_method memory "m1" world ≡ (err last_method, world))
    ⊎ (((remove_method memory "m1" world).0 ≡ ok tt)
        × HasEnabled memory "ada" (remove_method memory "m1" world).1)
remove_method-HasEnabled_example =
    remove_method-HasEnabled memory "m1" by_mail world refl well_keyed refl

is_device_trusted_iff_example :
    ((is_device_trusted memory "ada" "print" 1000 world).0 ≡ ok true)
    ↔ IsTrusted memory "ada" "print" 1000 world
is_device_trusted_iff_example = is_device_trusted_iff memory "ada" "print" 1000 world refl

abbrev fresh : World timed
fresh = record {
  up = true;
  methods = λ k. none;
  challenges = λ k. none;
  backups = λ k. none;
  devices = λ k. none;
  limits = λ k. none;
  user_methods = λ k. [];
  user_devices = λ k. [];
  events = [];
}

is_device_trusted-trust_device_example :
    (is_device_trusted timed "ada" "print" (1000 + 2591999999) (
      wait timed clock 2591999999
        (trust_device timed config "ada" "print" none none "d1" 1000 fresh).1)).0
    ≡ ok true
is_device_trusted-trust_device_example =
    is_device_trusted-trust_device timed clock config "ada" "print" none none "d1" 1000 2591999999
      fresh refl (omega arith)

verify_setup-valid_iff_example :
    ((verify_setup memory config hash totp_verify "m1" "482913" [] 1000 world).0
      ≡ ok (record { valid = true }))
    ↔ ((m : Method) × (memory.get Method "m1" world.methods ≡ some m)
        × IsSetupRight memory config hash totp_verify m.kind m "m1" "482913" world)
verify_setup-valid_iff_example =
    verify_setup-valid_iff memory config hash totp_verify "m1" "482913" [] 1000 world refl

one_issued :
    Issues memory config "ada" world
      (initiate_challenge memory config "ada" none "c2" "111111" 0 world).1
      1
unfolding initiate_challenge select_method create_challenge check_rate_limit get_user_methods
    load_methods sort_methods insert_sorted
one_issued = issue begin none "c2" "111111" 0

initiate_challenge_bounded_example : 1 ≤ 5
initiate_challenge_bounded_example =
    initiate_challenge_bounded memory config "ada" world
      (initiate_challenge memory config "ada" none "c2" "111111" 0 world).1 1 one_issued

-- The code by mail is sent again, after it has expired too.
resent : (resend_code memory "c1" world).0 ≡ ok true
unfolding resend_code
resent = refl
