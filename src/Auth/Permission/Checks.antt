-- ===== src/Auth/Permission/Checks.antt =====
-- Sequences of permission checks of smp-auth-ts/src/services/auth.service.ts, and what stands behind a
-- permission.
use anticipation.Base.{ℕ, ◌≡◌, ◌≤◌, ◌⊎◌, ◌+◌, inr, String, List, [], ◌∷◌, none, arith, Any}
use anticipation.Base.Result.{Result, ok}
use anticipation.Redis.Laws.{Redis}
use anticipation.RedisClient.Cache.{CacheEntry, ttl_or_hour}
use anticipation.Opa.{Json, new_client}
use anticipation.Opa.Decision.{Grants}
use anticipation.Auth.State.{
  UserInfo, Authorization, OpaInput, AuthOptions, Clock, Servers, World, AuthError,
}
use anticipation.Auth.Permission.{
  Request, Keys, decision_ttl, decision_key, opa_input, check_permission_detailed,
}

-- A call of checkPermissionDetailed.
pub record Check : Type 0 where
  pub servers : Servers
  pub token : String
  pub request : Request
  pub clock : Clock

abbrev pub In : Check → List Check → Type 0
In c calls = Any (λ d. d ≡ c) calls

pub decision_ttl-le : (options : AuthOptions) → ttl_or_hour (decision_ttl options) ≤ 300
decision_ttl-le options = ground arith

module _ (redis : Redis) (options : AuthOptions) (keys : Keys) where
  open redis use {Strings, get}

  abbrev pub run : Check → World redis → Result AuthError Authorization × World redis
  run c w = check_permission_detailed redis options keys c.servers c.token c.request c.clock w

  -- The states that a sequence of checks, newest first, leads to. Between the checks decisions may
  -- expire, and whatever touches neither the decisions nor the policy client may happen.
  pub data Reach : List Check → World redis → Type 0 where
    start :
        (w : World redis)
        → ((k : String) → get (CacheEntry Authorization) k w.decisions ≡ none)
        → w.opa ≡ new_client
        → Reach [] w
    check :
        {calls : List Check} {w : World redis}
        → Reach calls w
        → (c : Check) → Reach (c ∷ calls) (run c w).1
    elsewhere :
        {calls : List Check} {w : World redis}
        → Reach calls w
        → (u : World redis) → u.opa ≡ w.opa
        → ((k : String)
            → (get (CacheEntry Authorization) k u.decisions
                ≡ get (CacheEntry Authorization) k w.decisions)
              ⊎ (get (CacheEntry Authorization) k u.decisions ≡ none))
        → Reach calls u

  abbrev pub input_of : Check → UserInfo → OpaInput
  input_of c info = opa_input keys.to_iso info c.request c.clock

  -- The policy server granted the request of a check whose token was valid for the user.
  pub record IsGrant (c : Check) (info : UserInfo) : Type 0 where
    pub valid : c.servers.validate c.token ≡ ok info
    pub response : Json
    pub answered : c.servers.policy (input_of c info) ≡ ok response
    pub granted : Grants response

  -- A permission at the time `now`: one of the checks decided under the key, at most five minutes
  -- before, on an answer that one of them got under the same input, at most five minutes before.
  pub record Backs (calls : List Check) (key : String) (now : ℕ) : Type 0 where
    pub decided : Check
    pub user : UserInfo
    pub is_call : In decided calls
    pub valid : decided.servers.validate decided.token ≡ ok user
    pub same_key : decision_key redis options keys user.sub decided.request ≡ key
    pub recent : now ≤ decided.clock.now + 300000
    pub source : Check
    pub source_user : UserInfo
    pub is_source : In source calls
    pub same_input : keys.input (input_of source source_user) ≡ keys.input (input_of decided user)
    pub source_recent : decided.clock.now ≤ source.clock.now + 300000
    pub grant : IsGrant source source_user

  pub later-Backs :
      (c : Check) {calls : List Check} {key : String} {now : ℕ}
      → Backs calls key now
      → Backs (c ∷ calls) key now
  later-Backs c b = record {
    decided = b.decided;
    user = b.user;
    is_call = inr b.is_call;
    valid = b.valid;
    same_key = b.same_key;
    recent = b.recent;
    source = b.source;
    source_user = b.source_user;
    is_source = inr b.is_source;
    same_input = b.same_input;
    source_recent = b.source_recent;
    grant = b.grant;
  }

  -- A call of the policy client was made by one of the checks.
  pub sooner-Backs :
      {calls : List Check} {key : String} {now until : ℕ}
      → now ≤ until
      → Backs calls key until
      → Backs calls key now
  sooner-Backs le b = record {
    decided = b.decided;
    user = b.user;
    is_call = b.is_call;
    valid = b.valid;
    same_key = b.same_key;
    recent = omega (arith, b.recent, le);
    source = b.source;
    source_user = b.source_user;
    is_source = b.is_source;
    same_input = b.same_input;
    source_recent = b.source_recent;
    grant = b.grant;
  }
