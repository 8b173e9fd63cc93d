-- ===== src/Extended/Tests.antt =====
-- Logins in two steps, on a Redis server in memory.
use anticipation.Base.{◌≡◌, ◌↔◌, refl, String, true, false, none, some}
use anticipation.Base.Result.{Result, ok, err}
use anticipation.Redis.Memory.{memory}
use anticipation.Auth.State.{AuthResponse, Servers}
use anticipation.Auth.Tests.{options, servers, empty}
use anticipation.Mfa.State.{Challenge, Method}
use anticipation.Mfa.Challenges.Code.{IsRight}
use anticipation.Mfa.Challenges.Decision.{IsOpen}
use anticipation.Mfa.Tests.{config, hash, totp_verify, world, right, challenge, by_mail, is_open}
use anticipation.Extended.{
  ExtendedOptions, Draw, Both, LoginResult, login_with_mfa, complete_mfa_login, challenged,
  second_step,
}
use anticipation.Mfa.Challenges.{
  initiate_challenge, create_challenge, check_rate_limit, select_method,
}
use anticipation.Mfa.Methods.{get_user_methods}
use anticipation.RedisClient.Cache.{get_cache}
use anticipation.Auth.{login, validate_token}
use anticipation.Extended.Login.{NeedsCode, login_with_mfa-NeedsCode}
use anticipation.Extended.Completion.{Gives, complete_mfa_login-Gives_iff}

abbrev extended : ExtendedOptions
extended = record { base = options; enable_mfa = true; enable_device_trust = true }

abbrev token_of : String → AuthResponse
token_of name = record {
  access_token = name;
  refresh_token = none;
  token_type = "Bearer";
  expires_in = 300;
  session_id = none;
}

-- The identity server takes every password.
abbrev identity : Servers
identity = record (servers (err "down")) { login = λ name password. ok (token_of name) }

abbrev both : Both memory
both = record { auth = empty; mfa = world }

abbrev draw : Draw
draw = record { now = 5000; id = "c2"; random = "715222" }

abbrev credentials : Result String AuthResponse
credentials = ok (token_of "service")

abbrev token_key : String → String
token_key token = token

login_with_mfa-NeedsCode_example :
    (r : LoginResult) × ((login_with_mfa memory config extended token_key identity "ada" "secret"
        none draw both).0
      ≡ ok r)
    × NeedsCode memory config extended token_key identity "ada" "secret" draw both r
        (login_with_mfa memory config extended token_key identity "ada" "secret" none draw both).1
login_with_mfa-NeedsCode_example =
    login_with_mfa-NeedsCode memory config extended token_key identity "ada" "secret" none draw both
      refl

complete_mfa_login-Gives_iff_example :
    Gives memory config extended hash totp_verify
      (token_of "service")
      (complete_mfa_login memory config extended hash totp_verify credentials right "d1" 1000
        both).0
    ↔ ((extended.enable_mfa ≡ true)
        × ((credentials ≡ ok (token_of "service"))
            × ((c : Challenge) × (m : Method) × IsOpen memory config hash totp_verify right 1000
                  world c m
                × IsRight memory config hash totp_verify m.kind m c right.code world)))
complete_mfa_login-Gives_iff_example =
    complete_mfa_login-Gives_iff memory config extended hash totp_verify credentials right "d1" 1000
      both refl (token_of "service")

-- The code of one user's challenge brings the token of the service.
service_token :
    Gives memory config extended hash totp_verify
      (token_of "service")
      (complete_mfa_login memory config extended hash totp_verify credentials right "d1" 1000
        both).0
service_token =
    complete_mfa_login-Gives_iff_example.1
      (refl, (refl, (challenge, by_mail, is_open, (refl, λ h. cc))))

-- The login of a user with a second factor by mail.
asked_for_code :
    (login_with_mfa memory config extended token_key identity "ada" "secret" none draw both).0
    ≡ ok (
        challenged
          (record challenge {
            id = "c2";
            code = some "715222";
            created_at = 5000;
            expires_at = 305000;
          })
          false)
unfolding login_with_mfa second_step login validate_token initiate_challenge get_user_methods
    create_challenge check_rate_limit select_method get_cache
asked_for_code = refl
