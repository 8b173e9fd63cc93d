-- ===== src/MagicLink/Verify.antt =====
-- verifyMagicLink, what it does for each action, and sendMagicLink of
-- smp-auth-ts/src/services/magic-link.service.ts.
use anticipation.Base.{ℕ, ◌+◌, String, Bool, true, false, Option, none, some, ltb, if◌then◌else◌}
use anticipation.Base.Exec.{pure, ◌>>=◌, ◌>>◌, try}
use anticipation.Redis.Laws.{Redis}
use anticipation.MagicLink.State.{
  Action, login, register, reset_password, verify_email, LinkStatus, pending, used, expired,
  revoked, Link, UserInfo, LinkConfig, Services, link_used, Run, get_token, get_link, set_reset,
  emit_event, answer,
}
use anticipation.MagicLink.{
  Verification, failing, is_present, or_else, should_require_mfa, update_link_status,
  update_magic_link,
}
use anticipation.MagicLink.Generate.{send_magic_link_email}

abbrev pub user_of : Option UserInfo → Option String
user_of none = none
user_of (some info) = some info.sub

abbrev pub or_user : Option String → Option String → String
or_user user fallback = or_else user (or_else fallback "anonymous")

abbrev pub text_or_empty : Option String → String
text_or_empty none = ""
text_or_empty (some s) = s

module _ (to_lower : String → String) (redis : Redis) (config : LinkConfig) where
  abbrev pub log_in : Services → Option UserInfo → Run redis Verification
  log_in services none = pure (failing expired)
  log_in services (some info) = do
    token ← answer redis services.client_token
    pure (record {
      success = true;
      status = used;
      auth_token = some token;
      user = some info.sub;
      requires_mfa = should_require_mfa to_lower info;
    })

  unfoldable pub handle_login : Services → Link → Run redis Verification
  handle_login services l =
      if is_present l.user_id
      then try (answer redis (services.user_info (text_or_empty l.user_id)) >>= log_in services)
          (λ e. pure (failing expired))
      else pure (failing expired)

  abbrev pub registered : Services → Option String → Run redis Verification
  registered services none = pure (failing expired)
  registered services (some user) = do
    info ← answer redis (services.user_info user)
    token ← answer redis services.client_token
    pure (record {
      success = true;
      status = used;
      auth_token = some token;
      user = user_of info;
      requires_mfa = false;
    })

  -- The welcome mail, whose failure is caught, is left out.
  unfoldable pub handle_registration : Services → Link → Run redis Verification
  handle_registration services l =
      if config.auto_create_user
      then try (answer redis (services.register_user l.email) >>= registered services)
          (λ e. pure (failing expired))
      else pure (failing expired)

  unfoldable pub handle_email_verification : Services → Link → Run redis Verification
  handle_email_verification services l =
      if is_present l.user_id
      then try
          (answer redis (services.verify_email (text_or_empty l.user_id) l.token)
            >>= λ (done : Bool).
                if done
                then pure (record (failing used) { success = true })
                else pure (failing expired))
          (λ e. pure (failing expired))
      else pure (failing expired)

  unfoldable pub handle_password_reset : Link → String → ℕ → Run redis Verification
  handle_password_reset l reset_token now =
      try
        (do
          set_reset redis reset_token
              (record {
                email = l.email;
                user_id = l.user_id;
                created_at = now;
                expires_at = now + 900000;
              })
              900
          pure (record (failing used) { success = true; user = some (text_or_empty l.user_id) }))
        (λ e. pure (failing expired))

  unfoldable pub process_action : Action → Services → Link → String → ℕ → Run redis Verification
  unfolding handle_login handle_registration handle_email_verification handle_password_reset
  process_action login services l reset_token now = handle_login services l
  process_action register services l reset_token now = handle_registration services l
  process_action verify_email services l reset_token now = handle_email_verification services l
  process_action reset_password services l reset_token now = handle_password_reset l reset_token now

  unfoldable pub redeem : Services → String → Link → String → ℕ → Run redis Verification
  unfolding process_action
  redeem services id l reset_token now = do
    update_link_status redis config id used now
    result ← process_action l.action services l reset_token now
    emit_event redis (link_used (or_user result.user l.user_id) l.email l.action result.success)
    pure result

  unfoldable pub check_time : Services → String → Link → String → ℕ → Run redis Verification
  unfolding redeem
  check_time services id l reset_token now =
      if ltb l.expires_at now
      then update_link_status redis config id expired now >> pure (failing expired)
      else redeem services id l reset_token now

  unfoldable pub check_status :
      LinkStatus → Services → String → Link → String → ℕ → Run redis Verification
  unfolding check_time
  check_status used services id l reset_token now = pure (failing used)
  check_status revoked services id l reset_token now = pure (failing revoked)
  check_status pending services id l reset_token now = check_time services id l reset_token now
  check_status expired services id l reset_token now = check_time services id l reset_token now

  unfoldable pub with_link : Services → String → String → ℕ → Option Link → Run redis Verification
  unfolding check_status
  with_link services id reset_token now none = pure (failing expired)
  with_link services id reset_token now (some l) =
      check_status l.status services id l reset_token now

  unfoldable pub with_id : Services → String → ℕ → Option String → Run redis Verification
  unfolding with_link
  with_id services reset_token now none = pure (failing expired)
  with_id services reset_token now (some id) =
      get_link redis id >>= with_link services id reset_token now

  -- `reset_token` is the fresh token of a password reset.
  unfoldable pub verify_magic_link : Services → String → String → ℕ → Run redis Verification
  unfolding with_id
  verify_magic_link services token reset_token now =
      try (get_token redis token >>= with_id services reset_token now) (λ e. pure (failing expired))

  abbrev pub is_closed : LinkStatus → Bool
  is_closed used = true
  is_closed revoked = true
  is_closed pending = false
  is_closed expired = false

  unfoldable pub resend : Services → String → ℕ → Option Link → Run redis Bool
  resend services id now none = pure false
  resend services id now (some l) =
      if ltb l.expires_at now
      then update_link_status redis config id expired now >> pure false
      else if is_closed l.status
      then pure false
      else do
        sent ← send_magic_link_email redis config services l
        (if sent then update_magic_link redis config l >> pure true else pure false)

  unfoldable pub send_magic_link : Services → String → ℕ → Run redis Bool
  unfolding resend
  send_magic_link services id now =
      try (get_link redis id >>= resend services id now) (λ e. pure false)
