-- ===== src/Auth/Permission/Provenance.antt =====
-- Where a permission comes from, through the cache in Redis and the cache of the policy client.
use anticipation.Base.{
  ◌≡◌, ◌≢◌, ◌⊎◌, refl, inl, inr, String, List, [], ◌∷◌, Bool, true, false, none, some, arith, ap,
  subst, ◌∙◌, sym, eq_iff,
}
use anticipation.Base.Result.{ok, ok_injective}
use anticipation.Redis.Laws.{Redis}
use anticipation.RedisClient.Cache.{CacheEntry}
use anticipation.Opa.Runs.{Call, Answers, IsRecent, check_permission-provenance}
use anticipation.Opa.Runs
use anticipation.Auth.State.{UserInfo, Authorization, OpaInput, AuthOptions, World}
use anticipation.Auth.Permission.{Keys, decision_key}
use anticipation.Auth.Permission.Evaluation.{Entry, asked, Granted, Fate}
use anticipation.Auth.Permission.Steps.{check_permission_detailed-Fate}
use anticipation.Auth.Permission.Checks.{
  Backs, Check, Reach, check, decision_ttl-le, elsewhere, input_of, later-Backs, run, sooner-Backs,
  start,
}
use anticipation.Auth.Permission.Traces.{Inv, answer-Backs, call_of, later-Traced}

module _ (redis : Redis) (options : AuthOptions) (keys : Keys) where
  open redis use {Strings, get}

  -- Each decision that allows is backed after a check, too.
  made_backed :
      (c : Check) (calls : List Check) (w : World redis) (info : UserInfo)
      → Inv redis options keys calls w
      → c.servers.validate c.token ≡ ok info
      → Fate redis options keys c.servers info c.request c.clock w (run redis options keys c w)
      → (k : String) (e : CacheEntry Authorization)
      → Entry redis options keys k e (run redis options keys c w).1
      → e.content.allowed ≡ true
      → Backs redis options keys (c ∷ calls) k e.expires_at
  made_backed c calls w info inv valid f k e h yes' = elim (f.entries k e h) [
    | inl before ↦ later-Backs redis options keys c (inv.backed k e before yes')
    | inr (hit, expiry, (v, answered, content)) ↦
        subst (λ z. Backs redis options keys (c ∷ calls) z e.expires_at)
          ((eq_iff (decision_key redis options keys info.sub c.request) k).0 hit)
          (answer-Backs redis options keys c calls info w v e.expires_at inv valid answered
            (ap (λ (z : Authorization). z.allowed) (sym content) ∙ yes')
            (omega (arith, expiry, decision_ttl-le options)))
  ]

  made-Inv :
      (c : Check) (calls : List Check) (w : World redis) (info : UserInfo)
      → ((i : OpaInput) → keys.input i ≢ "")
      → Inv redis options keys calls w
      → c.servers.validate c.token ≡ ok info
      → Fate redis options keys c.servers info c.request c.clock w (run redis options keys c w)
      → (((run redis options keys c w).1.opa ≡ w.opa)
          ⊎ ((run redis options keys c w).1.opa
              ≡ (asked redis options keys c.servers info c.request c.clock w).1))
      → Inv redis options keys (c ∷ calls) (run redis options keys c w).1
  made-Inv c calls w info named inv valid f (inl same) = record {
    asks = inv.asks;
    client = subst (Runs.Reach inv.asks) (sym same) inv.client;
    traced = later-Traced redis options keys c calls inv.asks inv.traced;
    backed = made_backed c calls w info inv valid f;
  }
  made-Inv c calls w info named inv valid f (inr asked_now) = record {
    asks = call_of redis options keys c info ∷ inv.asks;
    client = subst (Runs.Reach (call_of redis options keys c info ∷ inv.asks)) (sym asked_now) (
        Runs.call inv.client (call_of redis options keys c info)
          (named (input_of redis options keys c info)));
    traced = (
      record {
        made_by = c;
        user = info;
        is_call = inl refl;
        valid = valid;
        same_key = refl;
        same_now = refl;
        same_answer = refl;
      },
      later-Traced redis options keys c calls inv.asks inv.traced,
    );
    backed = made_backed c calls w info inv valid f;
  }

  check-Inv :
      (c : Check) (calls : List Check) (w : World redis)
      → ((i : OpaInput) → keys.input i ≢ "")
      → Inv redis options keys calls w
      → Inv redis options keys (c ∷ calls) (run redis options keys c w).1
  check-Inv c calls w named inv =
      elim (check_permission_detailed-Fate redis options keys c.servers c.token c.request c.clock
        w) [
          | inr (no_grant, same_client, same_decisions) ↦ record {
            asks = inv.asks;
            client = subst (Runs.Reach inv.asks) (sym same_client) inv.client;
            traced = later-Traced redis options keys c calls inv.asks inv.traced;
            backed = λ k e h yes'. later-Backs redis options keys c (
                inv.backed k e
                  (ap (λ z. get (CacheEntry Authorization) k z) (sym same_decisions) ∙ h) yes');
          }
          | inl (info, valid, f) ↦ made-Inv c calls w info named inv valid f f.client
        ]

  Reach-Inv :
      {calls : List Check} {w : World redis}
      → ((i : OpaInput) → keys.input i ≢ "")
      → Reach redis options keys calls w
      → Inv redis options keys calls w
  Reach-Inv named (start w no_entry new) = record {
    asks = [];
    client = subst (Runs.Reach []) (sym new) Runs.start;
    traced = tt;
    backed = λ k e h yes'. let bad : none ≡ some e = sym (no_entry k) ∙ h in absurd cc;
  }
  Reach-Inv named (check {calls} {w} r c) = check-Inv c calls w named (Reach-Inv named r)
  Reach-Inv named (elsewhere {calls} {w} r u same fewer) =
      let inv = Reach-Inv named r in
      record {
        asks = inv.asks;
        client = subst (Runs.Reach inv.asks) (sym same) inv.client;
        traced = inv.traced;
        backed = λ k e h yes'. elim (fewer k) [
          | inl kept ↦ inv.backed k e (sym kept ∙ h) yes'
          | inr gone ↦ let bad : none ≡ some e = sym gone ∙ h in absurd cc
        ];
      }

  -- After any sequence of checks, when checkPermissionDetailed allows a request its token is valid
  -- now, and one of the checks decided under the same key, at most five minutes before, on a
  -- response that grants, which the policy server gave to one of the checks under the same input,
  -- at most five minutes before that. No input has the empty key.
  pub check_permission_detailed-provenance :
      {calls : List Check} {w : World redis}
      → ((i : OpaInput) → keys.input i ≢ "")
      → Reach redis options keys calls w
      → (c : Check) (a : Authorization) → (run redis options keys c w).0 ≡ ok a
      → a.allowed ≡ true
      → (info : UserInfo) × (c.servers.validate c.token ≡ ok info)
        × Backs redis options keys
            (c ∷ calls)
            (decision_key redis options keys info.sub c.request)
            c.clock.now
  check_permission_detailed-provenance {calls} {w} named reach c a told yes' =
      elim (check_permission_detailed-Fate redis options keys c.servers c.token c.request c.clock
        w) [
          | inr (no_grant, same_client, same_decisions) ↦
              let bad : ◌≡◌ {A = Bool} false true =
                ap (λ (z : Authorization). z.allowed) (ok_injective (sym no_grant ∙ told)) ∙ yes' in
              absurd cc
          | inl (info, valid, f) ↦ (info, valid, backs info valid (f.grants a told yes'))
        ]
    where
      inv : Inv redis options keys calls w
      inv = Reach-Inv named reach

      backs :
          (info : UserInfo)
          → c.servers.validate c.token ≡ ok info
          → Granted redis options keys c.servers info c.request c.clock w
          → Backs redis options keys
              (c ∷ calls)
              (decision_key redis options keys info.sub c.request)
              c.clock.now
      backs info valid (inr (v, answered, good)) =
          answer-Backs redis options keys c calls info w v c.clock.now inv valid answered good
            (omega arith)
      backs info valid (inl (e, found, good, fresh)) = later-Backs redis options keys c (
          sooner-Backs redis options keys fresh
            (inv.backed (decision_key redis options keys info.sub c.request) e found good))
