-- ===== src/MagicLink/Generate.antt =====
-- generateMagicLink of smp-auth-ts/src/services/magic-link.service.ts.
use Prim.Native.String.{◌++◌ as append}
use anticipation.Base.{
  ℕ, ◌+◌, ◌*◌, String, Bool, true, false, Option, none, some, leb, if◌then◌else◌,
}
use anticipation.Base.Exec.{pure, throw, ◌>>=◌, ◌>>◌, try}
use anticipation.Redis.Laws.{Redis}
use anticipation.MagicLink.State.{
  pending, Link, LinkConfig, Services, link_generated, daily_limit, Run, set_token, set_link,
  get_count, set_count, add_link_id, emit_event, answer,
}
use anticipation.MagicLink.{
  LinkRequest, Generated, or_else, action_of, build_redirect_url, count_of, seconds,
  update_magic_link, revoke_existing_links,
}

module _ (redis : Redis) (config : LinkConfig) where
  abbrev pub counter_key : String → String → String
  counter_key email day = append email (append ":" day)

  unfoldable pub check_daily_limit : String → String → Run redis (Unit {0})
  check_daily_limit email day = do
    found ← get_count redis (counter_key email day)
    (if leb config.max_uses_per_day (count_of found) then throw daily_limit else pure tt)

  unfoldable pub increment_daily_counter : String → String → Run redis (Unit {0})
  increment_daily_counter email day = do
    found ← get_count redis (counter_key email day)
    set_count redis (counter_key email day) (count_of found + 1) 86400

  unfoldable pub store_magic_link : Link → Run redis (Unit {0})
  store_magic_link l = do
    set_link redis l.id l (seconds redis config)
    set_token redis l.token l.id (seconds redis config)
    add_link_id redis l.email l.id

  unfoldable pub send_magic_link_email : Services → Link → Run redis Bool
  unfolding update_magic_link
  send_magic_link_email services l =
      try
        (do
          sent ← answer redis (services.send_link l)
          (if sent then update_magic_link redis config l >> pure true else pure false))
        (λ e. pure false)

  abbrev pub new_link : LinkRequest → Option String → String → String → ℕ → Link
  new_link request user id token now = record {
    id = id;
    token = token;
    email = request.email;
    user_id = user;
    status = pending;
    action = action_of request.action;
    created_at = now;
    expires_at = now + config.expiry_minutes * 60 * 1000;
    used_at = none;
    redirect_url = build_redirect_url config request;
  }

  abbrev pub unsent : Generated
  unsent = record { success = false; link_id = none; email_sent = false }

  unfoldable pub issue :
      Services → LinkRequest → Option String → String → String → String → ℕ → Run redis Generated
  unfolding revoke_existing_links store_magic_link increment_daily_counter send_magic_link_email
  issue services request user id token day now = do
    revoke_existing_links redis config request.email now
    let link = new_link request user id token now
    store_magic_link link
    increment_daily_counter request.email day
    sent ← send_magic_link_email services link
    emit_event redis (link_generated (or_else user "anonymous") request.email link.action sent)
    pure (record { success = true; link_id = some id; email_sent = sent })

  unfoldable pub generate_for :
      Services → LinkRequest → String → String → String → ℕ → Option String → Run redis Generated
  unfolding issue
  generate_for services request id token day now none =
      if config.require_existing_user
      then pure unsent
      else issue services request none id token day now
  generate_for services request id token day now (some user) =
      issue services request (some user) id token day now

  unfoldable pub generate_magic_link :
      Services → LinkRequest → String → String → String → ℕ → Run redis Generated
  unfolding check_daily_limit generate_for
  generate_magic_link services request id token day now =
      try
        (do
          check_daily_limit request.email day
          user ← answer redis (services.user_by_email request.email)
          generate_for services request id token day now user)
        (λ e. pure unsent)
