-- ===== src/Auth/Tests.antt =====
-- Runs of the authentication service, on a Redis server in memory.
use anticipation.Base.{
  ◌≡◌, ◌≢◌, ◌↔◌, refl, [], ◌∷◌, true, false, none, some, ℕ, arith, eq_iff, Bool,
}
use anticipation.Base.Result.{ok, err}
use anticipation.Redis.Memory.{memory, write}
use anticipation.RedisClient.Cache.{get_cache, set_cache}
use anticipation.RedisClient.Sessions.{Session, create_session}
use anticipation.RedisClient.Sessions.Index.{IsIndexed}
use anticipation.RedisClient.Sessions.Runs
use anticipation.Opa.{
  Json, bool, obj, field, no_field, new_client, read_decision, find_field, set_cached_result,
  get_cached_result, Answer, check_permission as opa_check,
}
use anticipation.Base.JsMap.{map_get, map_set, map_delete}
use anticipation.Opa.Decision.{Grants}
use anticipation.Auth.State.{UserInfo, AuthOptions, Clock, Servers, World, OpaInput, Authorization}
use anticipation.Auth.{logout, validate_token, valid_token}
use anticipation.Auth.Permission.{
  Request, Keys, opa_input, denied, check_permission_detailed, decision_key,
}
use anticipation.Auth.Permission.Checks.{Check, Reach, run, Backs}
use anticipation.Auth.Permission.Provenance.{check_permission_detailed-provenance}
use anticipation.Auth.Permission.Fresh.{check_permission_detailed-allow_iff}
use anticipation.Auth.Logout.{logout-get, validate_token-logout}

abbrev pub options : AuthOptions
options = record {
  enable_cache = true;
  cache_expiry = 3600;
  enable_logging = true;
  enable_session_tracking = true;
}

abbrev pub keys : Keys
keys = record {
  decision = λ user resource kind action. resource;
  input = λ i. "key";
  to_iso = λ t. "2026-01-01T00:00:00.000Z";
}

abbrev ada : UserInfo
ada = record {
  sub = "ada";
  email = none;
  given_name = none;
  family_name = none;
  roles = "user" ∷ [];
  organization_ids = none;
  state = none;
  attributes = none;
}

abbrev pub verdict : Bool → Json
verdict b = obj (field "result" (obj (field "allow" (bool b) no_field)) no_field)

-- Servers that know every token, or none.
abbrev pub servers : Answer → Servers
servers answer = record {
  login = λ name password. err "down";
  refresh = λ token. err "down";
  validate = λ token. ok ada;
  logout = λ token. ok tt;
  user_info = λ user. ok none;
  roles = λ user. ok [];
  register = λ given. err "down";
  policy = λ input. answer;
}

abbrev strict : Servers
strict = record (servers (err "down")) { validate = λ token. err "expired" }

abbrev pub empty : World memory
empty = record {
  up = true;
  tokens = λ k. none;
  infos = λ k. none;
  roles = λ k. none;
  decisions = λ k. none;
  tags = λ k. [];
  sessions = record { sessions = λ k. none; by_user = λ k. [] };
  logs = [];
  emitted = [];
  stored = [];
  opa = new_client;
}

abbrev read_file : Request
read_file = record {
  resource_id = "file";
  resource_type = "document";
  action = "read";
  context = no_field;
}

abbrev pub at : ℕ → Clock
at t = record { now = t; hour = 10; day = 1 }

abbrev asked : Check
asked = record {
  servers = servers (ok (verdict true));
  token = "t";
  request = read_file;
  clock = at 0;
}

-- The policy server is down by now, and the decision still stands in Redis.
abbrev asked_again : Check
asked_again = record asked { servers = servers (err "down"); clock = at 300000 }

pub keyed : (i : OpaInput) → keys.input i ≢ ""
keyed i e = let bad : ◌≡◌ {A = Bool} false true = (eq_iff "key" "").1 e in cc

reached : Reach memory options keys (asked ∷ []) (run memory options keys asked empty).1
reached = Reach.check (Reach.start empty (λ k. refl) refl) asked

abbrev kept : Authorization
kept = record { allowed = true; reason = none; timestamp = 0; cached = true }

still_allowed :
    (run memory options keys asked_again (run memory options keys asked empty).1).0 ≡ ok kept
unfolding check_permission_detailed get_cache set_cache opa_check get_cached_result map_get
    read_decision find_field
still_allowed = refl

check_permission_detailed-provenance_example :
    (info : UserInfo) × (asked_again.servers.validate "t" ≡ ok info)
    × Backs memory options keys
        (asked_again ∷ asked ∷ [])
        (decision_key memory options keys info.sub read_file)
        300000
check_permission_detailed-provenance_example =
    check_permission_detailed-provenance memory options keys keyed reached asked_again kept
      still_allowed refl

-- One millisecond later the decision is gone, and the policy server is asked.
not_allowed :
    (run memory options keys
      (record asked { servers = servers (err "down"); clock = at 300001 })
      (run memory options keys asked empty).1).0
    ≡ ok (denied 300001)
unfolding check_permission_detailed get_cache set_cache opa_check get_cached_result map_get map_set
    map_delete set_cached_result
not_allowed = refl

check_permission_detailed-allow_iff_example :
    (a : Authorization) × ((check_permission_detailed memory options keys
        (servers (ok (verdict true)))
        "t"
        read_file
        (at 0)
        empty).0
      ≡ ok a)
    × ((a.allowed ≡ true) ↔ (
        (info : UserInfo) × (asked.servers.validate "t" ≡ ok info)
        × ((response : Json) × (asked.servers.policy (opa_input keys.to_iso info read_file (at 0))
              ≡ ok response)
            × Grants response)))
check_permission_detailed-allow_iff_example =
    check_permission_detailed-allow_iff memory options keys (servers (ok (verdict true))) "t"
      read_file (at 0) empty (λ k. refl) refl

abbrev laptop : Session
laptop = record {
  session_id = "s1";
  user_id = "ada";
  created_at = 5;
  last_activity = 5;
  expires_at = none;
  active = true;
  details = "{}";
}

empty-IsIndexed : IsIndexed memory empty.sessions
empty-IsIndexed = record {
  keyed = λ k l found. absurd cc;
  listed = λ k l found. absurd cc;
  owned = λ k user l found named. absurd cc;
}

abbrev signed_in : World memory
signed_in = record empty { sessions = (create_session memory true laptop empty.sessions).1 }

opened : Runs.Reach memory empty.sessions signed_in.sessions
opened =
    Runs.next Runs.here
      (Runs.create true laptop (record { not_stored = refl; not_listed = λ user. refl }))

named : ada.sub ≢ ""
named e = let bad : ◌≡◌ {A = Bool} false true = (eq_iff "ada" "").1 e in cc

logout-get_example :
    ((logout memory options (servers (err "down")) "t" signed_in).1.sessions.sessions "s1"
      ≡ some laptop)
    ↔ ((laptop.user_id ≢ ada.sub) × (signed_in.sessions.sessions "s1" ≡ some laptop))
logout-get_example =
    logout-get memory options (servers (err "down")) "t" ada empty.sessions signed_in "s1" laptop
      refl refl named refl refl empty-IsIndexed opened

abbrev known : World memory
known = record empty {
  tokens =
      write "t" (some (record { content = valid_token ada; cached_at = 0; expires_at = 3600000 }))
        (λ k. none);
}

-- The identity server has ended the session, and the token is still valid.
validate_token-logout_example :
    (validate_token memory options
      (λ t. t)
      strict
      "t"
      1000
      (logout memory options (servers (err "down")) "t" known).1).0
    ≡ ok (valid_token ada)
validate_token-logout_example =
    validate_token-logout memory options (λ t. t) (servers (err "down")) strict "t" 1000 known
      (record { content = valid_token ada; cached_at = 0; expires_at = 3600000 }) refl refl refl
      (omega arith)
