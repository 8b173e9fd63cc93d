-- ===== src/Auth/Permission.antt =====
-- checkPermissionDetailed of smp-auth-ts/src/services/auth.service.ts.
pub mod Evaluation
pub mod Steps
pub mod Checks
pub mod Traces
pub mod Provenance
pub mod Fresh
use Prim.Native.String.{◌++◌ as append}
use anticipation.Base.{
  ℕ, String, List, [], ◌∷◌, Bool, true, false, ◌&&◌, Option, none, some, str_eq, leb, ltb, min,
  if◌then◌else◌,
}
use anticipation.Base.Result.{Result, ok, err}
use anticipation.Base.Exec.{pure, throw, ◌>>=◌, ◌>>◌, try}
use anticipation.Redis.Laws.{Redis}
use anticipation.RedisClient.Cache.{ttl_or_hour}
use anticipation.Opa.{Json, Fields, no_field, field, str, bool, OpaResult}
use anticipation.Auth.State.{
  UserInfo, Authorization, OpaUser, OpaInput, AuthOptions, Clock, Servers, access_checked,
  check_failed, World, M, answer, emit, log_decision, read_decision, write_decision, ask_policy,
}
use anticipation.Auth.{message, user_tag}

pub record Request : Type 0 where
  pub resource_id : String
  pub resource_type : String
  pub action : String
  pub context : Fields

-- isBusinessHours: Monday to Friday, from 9 to 18 o'clock.
abbrev pub is_business_hours : Clock → Bool
is_business_hours c = leb 1 c.day && (leb c.day 5 && (leb 9 c.hour && ltb c.hour 18))

unfoldable pub put_field : String → Json → Fields → Fields
put_field k v no_field = field k v no_field
put_field k v (field j w fs) = if str_eq j k then field j v fs else field j w (put_field k v fs)

-- { ...base, ...given }
unfoldable pub spread : Fields → Fields → Fields
unfolding put_field
spread base no_field = base
spread base (field k v given) = spread (put_field k v base) given

abbrev pub to_opa_user : UserInfo → OpaUser
to_opa_user info = record {
  id = info.sub;
  roles = info.roles;
  organization_ids = info.organization_ids;
  state = info.state;
  attributes = info.attributes;
}

-- min(cacheExpiry || 3600, 300)
abbrev pub decision_ttl : AuthOptions → ℕ
decision_ttl options = min (ttl_or_hour options.cache_expiry) 300

module _ (to_iso : ℕ → String) where
  unfoldable pub build_opa_context : Fields → Clock → Fields
  unfolding spread
  build_opa_context given c =
      spread
        (field "currentDate" (str (to_iso c.now))
          (field "businessHours" (bool (is_business_hours c)) no_field))
        given

  abbrev pub opa_input : UserInfo → Request → Clock → OpaInput
  opa_input info r c = record {
    user = to_opa_user info;
    resource_id = r.resource_id;
    resource_type = r.resource_type;
    action = r.action;
    context = build_opa_context r.context c;
  }

abbrev pub denied : ℕ → Authorization
denied now = record {
  allowed = false;
  reason = some (str "Authorization check failed due to system error");
  timestamp = now;
  cached = false;
}

-- The keys that the source computes: of a decision by MD5, of an input by base64.
pub record Keys : Type 0 where
  pub decision : String → String → String → String → String
  pub input : OpaInput → String
  pub to_iso : ℕ → String

module _ (redis : Redis) (options : AuthOptions) (keys : Keys) where
  abbrev pub decision_key : String → Request → String
  decision_key user r = keys.decision user r.resource_id r.resource_type r.action

  unfoldable pub evaluate : Servers → UserInfo → Request → Clock → M redis Authorization
  evaluate servers info r c = do
    let input = opa_input keys.to_iso info r c
    verdict ← ask_policy redis (keys.input input) c.now (servers.policy input)
    let result : Authorization = record {
      allowed = verdict.allow;
      reason = verdict.reason;
      timestamp = c.now;
      cached = false;
    }
    (if options.enable_cache
        then write_decision redis (decision_key info.sub r) result (decision_ttl options)
            ("authorization" ∷ user_tag info.sub ∷ append "resource:" r.resource_id ∷ []) c.now
        else pure tt)
    log_decision redis (record {
      user_id = info.sub;
      resource_id = r.resource_id;
      resource_type = r.resource_type;
      action = r.action;
      allowed = verdict.allow;
      reason = verdict.reason;
      context = r.context;
    })
    emit redis options (
        access_checked info.sub r.resource_id r.resource_type r.action verdict.allow verdict.reason)
    pure result

  unfoldable pub unless_decided :
      Servers → UserInfo → Request → Clock → Option Authorization → M redis Authorization
  unfolding evaluate
  unless_decided servers info r c none = evaluate servers info r c
  unless_decided servers info r c (some result) = pure (record result { cached = true })

  unfoldable pub decide : Servers → Request → Clock → UserInfo → M redis Authorization
  unfolding unless_decided
  decide servers r c info = do
    cached ←
        (if options.enable_cache
          then read_decision redis (decision_key info.sub r) c.now
          else pure none)
    unless_decided servers info r c cached

  unfoldable pub check_permission_detailed :
      Servers → String → Request → Clock → M redis Authorization
  unfolding decide
  check_permission_detailed servers token r c =
      try (answer redis (servers.validate token) >>= decide servers r c) (λ e. do
        emit redis options (check_failed r.resource_id r.resource_type r.action (message e))
        pure (denied c.now))

  -- checkPermission
  unfoldable pub check_permission : Servers → String → Request → Clock → M redis Bool
  unfolding check_permission_detailed
  check_permission servers token r c = do
    result ← check_permission_detailed servers token r c
    pure result.allowed
