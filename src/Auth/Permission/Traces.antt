-- ===== src/Auth/Permission/Traces.antt =====
-- Which check of smp-auth-ts/src/services/auth.service.ts an answer of the policy client comes from.
use anticipation.Base.{
  ℕ, ◌≡◌, ◌≤◌, ◌+◌, refl, inl, inr, String, List, [], ◌∷◌, true, arith, ap, subst, ◌∙◌, sym, All,
}
use anticipation.Base.Result.{ok}
use anticipation.Redis.Laws.{Redis}
use anticipation.RedisClient.Cache.{CacheEntry}
use anticipation.Opa.{OpaResult}
use anticipation.Opa.Decision.{read_decision-allow_iff}
use anticipation.Opa.Runs.{Call, Answers, IsRecent, check_permission-provenance}
use anticipation.Opa.Runs
use anticipation.Auth.State.{UserInfo, Authorization, AuthOptions, World}
use anticipation.Auth.Permission.{Keys, decision_key}
use anticipation.Auth.Permission.Evaluation.{Entry, asked}
use anticipation.Auth.Permission.Checks.{Backs, Check, In, IsGrant, input_of}

module _ (redis : Redis) (options : AuthOptions) (keys : Keys) where
  open redis use {Strings, get}

  pub record Traced (calls : List Check) (o : Call) : Type 0 where
    pub made_by : Check
    pub user : UserInfo
    pub is_call : In made_by calls
    pub valid : made_by.servers.validate made_by.token ≡ ok user
    pub same_key : o.key ≡ keys.input (input_of redis options keys made_by user)
    pub same_now : o.now ≡ made_by.clock.now
    pub same_answer : o.answer ≡ made_by.servers.policy (input_of redis options keys made_by user)

  pub record Inv (calls : List Check) (w : World redis) : Type 0 where
    pub asks : List Call
    pub client : Runs.Reach asks w.opa
    pub traced : All (Traced calls) asks
    pub backed :
        (k : String) (e : CacheEntry Authorization)
        → Entry redis options keys k e w
        → e.content.allowed ≡ true
        → Backs redis options keys calls k e.expires_at

  pub later-Traced :
      (c : Check) (calls : List Check) (os : List Call)
      → All (Traced calls) os
      → All (Traced (c ∷ calls)) os
  later-Traced c calls [] h = tt
  later-Traced c calls (o ∷ os) (t, h) = (
    record {
      made_by = t.made_by;
      user = t.user;
      is_call = inr t.is_call;
      valid = t.valid;
      same_key = t.same_key;
      same_now = t.same_now;
      same_answer = t.same_answer;
    },
    later-Traced c calls os h,
  )

  -- The check in which the policy server gave a recent answer.
  recent-Traced :
      (calls : List Check) (os : List Call) (key : String) (now : ℕ) (v : OpaResult)
      → All (Traced calls) os
      → IsRecent os key now v
      → (o : Call) × Traced calls o × (o.key ≡ key) × (now ≤ o.now + 300000) × Answers o.answer v
  recent-Traced calls [] key now v h r = absurd r
  recent-Traced calls (o ∷ os) key now v (t, h) (inl (same, fresh, answers)) =
      (o, t, same, fresh, answers)
  recent-Traced calls (o ∷ os) key now v (t, h) (inr r) = recent-Traced calls os key now v h r

  answer-IsGrant :
      (c : Check) (info : UserInfo) (v : OpaResult)
      → c.servers.validate c.token ≡ ok info
      → Answers (c.servers.policy (input_of redis options keys c info)) v
      → v.allow ≡ true
      → IsGrant redis options keys c info
  answer-IsGrant c info v valid (response, answered, reads) yes' = record {
    valid = valid;
    response = response;
    answered = answered;
    granted = (read_decision-allow_iff response).0 (ap (λ (z : OpaResult). z.allow) reads ∙ yes');
  }

  -- What backs a granting answer of the policy client to a check.
  pub answer-Backs :
      (c : Check) (calls : List Check) (info : UserInfo) (w : World redis) (v : OpaResult)
      (until : ℕ)
      → Inv calls w
      → c.servers.validate c.token ≡ ok info
      → (asked redis options keys c.servers info c.request c.clock w).0 ≡ ok v
      → v.allow ≡ true
      → until ≤ c.clock.now + 300000
      → Backs redis options keys
          (c ∷ calls)
          (decision_key redis options keys info.sub c.request)
          until
  answer-Backs c calls info w v until inv valid told yes' recent =
      elim (check_permission-provenance inv.client (keys.input (input_of redis options keys c info))
        c.clock.now (c.servers.policy (input_of redis options keys c info)) v told) [
          | inl answers ↦ record {
            decided = c;
            user = info;
            is_call = inl refl;
            valid = valid;
            same_key = refl;
            recent = recent;
            source = c;
            source_user = info;
            is_source = inl refl;
            same_input = refl;
            source_recent = omega arith;
            grant = answer-IsGrant c info v valid answers yes';
          }
          | inr earlier ↦
              let (o, t, same, fresh, answers) =
                recent-Traced calls inv.asks (keys.input (input_of redis options keys c info))
                  c.clock.now v inv.traced earlier in
              record {
                decided = c;
                user = info;
                is_call = inl refl;
                valid = valid;
                same_key = refl;
                recent = recent;
                source = t.made_by;
                source_user = t.user;
                is_source = inr t.is_call;
                same_input = sym t.same_key ∙ same;
                source_recent = omega (arith, t.same_now);
                grant =
                    answer-IsGrant t.made_by t.user v t.valid
                      (subst (λ z. Answers z v) t.same_answer answers) yes';
              }
        ]

  abbrev pub call_of : Check → UserInfo → Call
  call_of c info = record {
    key = keys.input (input_of redis options keys c info);
    now = c.clock.now;
    answer = c.servers.policy (input_of redis options keys c info);
  }
