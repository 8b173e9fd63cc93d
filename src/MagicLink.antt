-- ===== src/MagicLink.antt =====
-- smp-auth-ts/src/services/magic-link.service.ts: the links of a user, their status, and
-- revokeMagicLink. Tokens, identifiers, the clock and the day are arguments of the calls.
pub mod State
pub mod Generate
pub mod Verify
pub mod Links
pub mod Redemption
pub mod Fate
pub mod Quiet
pub mod Counting
pub mod Daily
pub mod Over
pub mod SingleUse
pub mod Tests
use Prim.Native.String.{◌++◌ as append}
use text.Mathlib.Text.{find?}
use anticipation.Base.{
  ℕ, ◌+◌, ◌*◌, String, List, [], ◌∷◌, Bool, true, false, ◌||◌, Option, none, some, leb, ltb, any,
  str_eq, if◌then◌else◌,
}
use anticipation.Base.Result.{Result, ok, err}
use anticipation.Base.Exec.{pure, throw, ◌>>=◌, ◌>>◌, try}
use anticipation.Redis.Laws.{Redis}
use anticipation.MagicLink.State.{
  Action, login, register, reset_password, verify_email, LinkStatus, pending, used, expired,
  revoked, Link, Reset, UserInfo, LinkConfig, Services, link_generated, link_used, LinkError,
  daily_limit, Store, Run, get_token, set_token, set_link, get_link, get_count, set_count,
  set_reset, link_ids, add_link_id, emit_event, answer,
}

pub record LinkRequest : Type 0 where
  pub email : String
  pub redirect_url : Option String
  pub action : Option Action

pub record Generated : Type 0 where
  pub success : Bool
  pub link_id : Option String
  pub email_sent : Bool

pub record Verification : Type 0 where
  pub success : Bool
  pub status : LinkStatus
  -- The token of the identity server that the answer carries.
  pub auth_token : Option String
  pub user : Option String
  pub requires_mfa : Bool

abbrev pub failing : LinkStatus → Verification
failing status = record {
  success = false;
  status = status;
  auth_token = none;
  user = none;
  requires_mfa = false;
}

abbrev pub is_present : Option String → Bool
is_present none = false
is_present (some s) = if str_eq s "" then false else true

-- `value || fallback`
abbrev pub or_else : Option String → String → String
or_else none fallback = fallback
or_else (some s) fallback = if str_eq s "" then fallback else s

abbrev pub action_of : Option Action → Action
action_of none = login
action_of (some a) = a

abbrev pub path_for : LinkConfig → Action → String
path_for config login = config.login_path
path_for config register = config.register_path
path_for config reset_password = config.reset_password_path
path_for config verify_email = config.verify_email_path

abbrev pub build_redirect_url : LinkConfig → LinkRequest → String
build_redirect_url config request =
    or_else request.redirect_url (path_for config (action_of request.action))

-- links.sort, the newest first
unfoldable pub insert_link : Link → List Link → List Link
insert_link l [] = l ∷ []
insert_link l (m ∷ ms) = if leb m.created_at l.created_at then l ∷ m ∷ ms else m ∷ insert_link l ms

unfoldable pub sort_links : List Link → List Link
unfolding insert_link
sort_links [] = []
sort_links (l ∷ ls) = insert_link l (sort_links ls)

abbrev pub push_link : Option Link → List Link → List Link
push_link none ls = ls
push_link (some l) ls = l ∷ ls

abbrev pub is_pending : LinkStatus → Bool
is_pending pending = true
is_pending used = false
is_pending expired = false
is_pending revoked = false

abbrev pub with_status : LinkStatus → ℕ → Link → Link
with_status used now l = record l { status = used; used_at = some now }
with_status pending now l = record l { status = pending }
with_status expired now l = record l { status = expired }
with_status revoked now l = record l { status = revoked }

abbrev pub count_of : Option ℕ → ℕ
count_of none = 0
count_of (some n) = n

abbrev pub has : Option ℕ → Bool
has none = false
has (some n) = true

abbrev pub is_risky : Option ℕ → Bool
is_risky none = false
is_risky (some n) = ltb 50 n

module _ (to_lower : String → String) where
  -- shouldRequireMFA
  unfoldable pub should_require_mfa : UserInfo → Bool
  should_require_mfa info =
      any
        (λ role.
          any (λ name. has (find? (to_lower role) name))
            ("admin" ∷ "super_admin" ∷ "administrator" ∷ []))
        info.roles
      || is_risky info.risk_score

module _ (redis : Redis) (config : LinkConfig) where
  abbrev pub seconds : ℕ
  seconds = config.expiry_minutes * 60

  -- updateMagicLink writes under the link's own identifier.
  unfoldable pub update_magic_link : Link → Run redis (Unit {0})
  update_magic_link l = set_link redis l.id l seconds

  unfoldable pub update_found : LinkStatus → ℕ → Option Link → Run redis (Unit {0})
  unfolding update_magic_link
  update_found status now none = pure tt
  update_found status now (some l) = update_magic_link (with_status status now l)

  unfoldable pub update_link_status : String → LinkStatus → ℕ → Run redis (Unit {0})
  unfolding update_found
  update_link_status id status now = get_link redis id >>= update_found status now

  unfoldable pub load_links : List String → Run redis (List Link)
  load_links [] = pure []
  load_links (id ∷ ids) = do
    found ← get_link redis id
    rest ← load_links ids
    pure (push_link found rest)

  unfoldable pub get_user_magic_links : String → Run redis (List Link)
  unfolding load_links sort_links
  get_user_magic_links email = do
    ids ← link_ids redis email
    links ← load_links ids
    pure (sort_links links)

  unfoldable pub revoke_links : List Link → ℕ → Run redis (Unit {0})
  unfolding update_link_status
  revoke_links [] now = pure tt
  revoke_links (l ∷ ls) now = do
    (if is_pending l.status then update_link_status l.id revoked now else pure tt)
    revoke_links ls now

  unfoldable pub revoke_existing_links : String → ℕ → Run redis (Unit {0})
  unfolding get_user_magic_links revoke_links
  revoke_existing_links email now = do links ← get_user_magic_links email; revoke_links links now

  unfoldable pub revoke_magic_link : String → ℕ → Run redis (Unit {0})
  unfolding update_link_status
  revoke_magic_link id now = update_link_status id revoked now
