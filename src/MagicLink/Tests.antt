-- ===== src/MagicLink/Tests.antt =====
-- Runs of the service for magic links, on a Redis server in memory.
use anticipation.Base.{
  ◌≤◌, ◌≡◌, refl, String, [], ◌∷◌, true, false, none, some, str_eq, Bool-cases, inl, inr, eq_iff,
  ap, sym, ◌∙◌,
}
use anticipation.Base.Result.{ok, err}
use anticipation.Redis.Memory.{memory, write}
use anticipation.MagicLink.State.{login, pending, used, Link, LinkConfig, Services, Store}
use anticipation.MagicLink.{
  LinkRequest, revoke_existing_links, get_user_magic_links, load_links, sort_links, revoke_links,
  update_link_status, update_found, update_magic_link, should_require_mfa,
}
use anticipation.MagicLink.Generate.{
  generate_magic_link, check_daily_limit, generate_for, issue, store_magic_link,
  increment_daily_counter, send_magic_link_email,
}
use anticipation.MagicLink.Verify.{
  verify_magic_link, with_id, with_link, check_status, check_time, redeem, process_action,
  handle_login,
}
use anticipation.MagicLink.Redemption.{verify, Succeeds}
use anticipation.MagicLink.Links.{IsWellKeyed}
use anticipation.MagicLink.Daily.{Issues, start, call, generate_magic_link_bounded}
use anticipation.MagicLink.SingleUse.{here, verify_magic_link_once}

abbrev lower : String → String
lower s = s

abbrev config : LinkConfig
config = record {
  enabled = true;
  expiry_minutes = 30;
  max_uses_per_day = 10;
  require_existing_user = false;
  auto_create_user = true;
  login_path = "/dashboard";
  register_path = "/welcome";
  reset_password_path = "/reset";
  verify_email_path = "/verified";
}

abbrev services : Services
services = record {
  user_by_email = λ email. ok (some "u1");
  user_info = λ id. ok (some (record { sub = id; roles = "user" ∷ []; risk_score = none }));
  client_token = ok "t0";
  register_user = λ email. err "down";
  verify_email = λ id token. ok true;
  send_link = λ l. ok true;
}

abbrev empty : Store memory
empty = record {
  up = true;
  links = λ k. none;
  tokens = λ k. none;
  by_email = λ k. [];
  counters = λ k. none;
  resets = λ k. none;
  events = [];
}

abbrev link : Link
link = record {
  id = "l1";
  token = "k1";
  email = "ada@example.org";
  user_id = some "u1";
  status = pending;
  action = login;
  created_at = 0;
  expires_at = 1800000;
  used_at = none;
  redirect_url = "/dashboard";
}

abbrev store : Store memory
store = record empty {
  links = write "l1" (some link) (λ k. none);
  tokens = write "k1" (some "l1") (λ k. none);
}

-- A link is issued and its mail sent.
issued :
    (generate_magic_link memory config services
      (record { email = "ada@example.org"; redirect_url = none; action = none })
      "l1"
      "k1"
      "2026-01-01"
      0
      empty).0
    ≡ ok (record { success = true; link_id = some "l1"; email_sent = true })
unfolding generate_magic_link check_daily_limit generate_for issue revoke_existing_links
    get_user_magic_links load_links sort_links revoke_links update_link_status update_found
    update_magic_link store_magic_link increment_daily_counter send_magic_link_email
issued = refl

well_keyed : IsWellKeyed lower memory config store
well_keyed k l found = elim (Bool-cases (str_eq "l1" k)) [
  | inl hit ↦
      let both : some link ≡ some l = rw hit at found in
      let same : link ≡ l = cc in ap (λ (m : Link). m.id) (sym same) ∙ (eq_iff "l1" k).0 hit
  | inr miss ↦ absurd (cc (rw miss at found))
]

redeemed : Succeeds lower memory config (verify lower memory config services "k1" "r1" 1000 store)
unfolding verify_magic_link with_id with_link check_status check_time redeem update_link_status
    update_found update_magic_link process_action handle_login should_require_mfa
redeemed = (
  record {
    success = true;
    status = used;
    auth_token = some "t0";
    user = some "u1";
    requires_mfa = false;
  },
  refl,
  refl,
)

verify_magic_link_once_example : ¬ Succeeds lower memory config (
    verify lower memory config services "k1" "r2" 2000
      (verify lower memory config services "k1" "r1" 1000 store).1)
verify_magic_link_once_example =
    verify_magic_link_once lower memory config services services "k1" "r1" "r2" 1000 2000 store
      (verify lower memory config services "k1" "r1" 1000 store).1 well_keyed redeemed here

abbrev ask_link : LinkRequest
ask_link = record { email = "ada@example.org"; redirect_url = none; action = none }

one_issued :
    Issues memory config "ada@example.org" "2026-01-01" empty
      (generate_magic_link memory config services ask_link "l1" "k1" "2026-01-01" 0 empty).1
      1
unfolding generate_magic_link check_daily_limit generate_for issue revoke_existing_links
    get_user_magic_links load_links sort_links revoke_links update_link_status update_found
    update_magic_link store_magic_link increment_daily_counter send_magic_link_email
one_issued = call start services ask_link "l1" "k1" 0 refl

generate_magic_link_bounded_example : 1 ≤ 10
generate_magic_link_bounded_example =
    generate_magic_link_bounded memory config "ada@example.org" "2026-01-01" empty
      (generate_magic_link memory config services ask_link "l1" "k1" "2026-01-01" 0 empty).1 1
      one_issued

administrators_need_mfa :
    should_require_mfa lower
      (record { sub = "u1"; roles = "user" ∷ "org_admin" ∷ []; risk_score = none })
    ≡ true
unfolding should_require_mfa
administrators_need_mfa = refl
