-- ===== src/Mfa/Resend.antt =====
-- resendMFACode of smp-auth-ts/src/services/mfa.service.ts. Sending a code only writes a log line.
use anticipation.Base.{String, Bool, true, false, Option, none, some}
use anticipation.Base.Exec.{pure, ◌>>=◌}
use anticipation.Redis.Laws.{Redis}
use anticipation.Mfa.State.{MethodType, sms, email, Method, Challenge, M, get_method, get_challenge}

abbrev pub is_sendable : MethodType → Bool
is_sendable sms = true
is_sendable email = true
is_sendable _ = false

module _ (redis : Redis) where
  open redis use {get}

  abbrev pub resend_by : Option Method → M redis Bool
  resend_by none = pure false
  resend_by (some m) = pure (is_sendable m.kind)

  abbrev pub resend_for : Option Challenge → M redis Bool
  resend_for none = pure false
  resend_for (some c) = get_method redis c.method_id >>= resend_by

  unfoldable pub resend_code : String → M redis Bool
  resend_code id = get_challenge redis id >>= resend_for
