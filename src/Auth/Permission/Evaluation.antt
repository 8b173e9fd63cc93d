-- ===== src/Auth/Permission/Evaluation.antt =====
-- What an evaluation of smp-auth-ts/src/services/auth.service.ts writes into the cache of decisions.
use Prim.Native.String.{◌++◌ as append}
use anticipation.Auth.{user_tag}
use anticipation.Base.{
  [], ◌∷◌, ◌≡◌, ◌≤◌, ◌⊎◌, ◌+◌, ◌*◌, refl, inl, inr, String, true, false, some, Bool-cases, ap, ◌∙◌,
  sym, str_eq, if◌then◌else◌,
}
use anticipation.Base.Result.{Result, ok, err, Result-cases, ok_injective}
use anticipation.Redis.Laws.{Redis}
use anticipation.RedisClient.Cache.{CacheEntry, ttl_or_hour, set_cache, set_cache-entries}
use anticipation.Opa.{OpaResult, Client, check_permission as opa_check}
use anticipation.Auth.State.{
  UserInfo, Authorization, AuthOptions, Clock, Servers, World, AuthError, server_failed,
}
use anticipation.Auth.Permission.{Request, Keys, decision_ttl, decision_key, evaluate, opa_input}

module _ (redis : Redis) (options : AuthOptions) (keys : Keys) where
  open redis use {Strings, get}

  abbrev pub Entry : String → CacheEntry Authorization → World redis → Type 0
  Entry k e w = get (CacheEntry Authorization) k w.decisions ≡ some e

  -- What the client of the policy server does in a call.
  abbrev pub asked :
      Servers → UserInfo → Request → Clock → World redis → Result String OpaResult × Client
  asked servers info r c w =
      let input = opa_input keys.to_iso info r c in
      opa_check (keys.input input) c.now (servers.policy input) w.opa

  abbrev pub verdict_of : OpaResult → Clock → Authorization
  verdict_of v c = record {
    allowed = v.allow;
    reason = v.reason;
    timestamp = c.now;
    cached = false;
  }

  -- The decisions after one is kept.
  abbrev pub kept_decisions :
      UserInfo → Request → Clock → OpaResult → World redis → Strings (CacheEntry Authorization)
  kept_decisions info r c v w =
      if options.enable_cache
      then (set_cache redis w.up (decision_key redis options keys info.sub r) (verdict_of v c)
          (decision_ttl options)
          ("authorization" ∷ user_tag info.sub ∷ append "resource:" r.resource_id ∷ []) c.now
          (record { entries = w.decisions; tags = w.tags })).1.entries
      else w.decisions

  module _ (servers : Servers) (info : UserInfo) (r : Request) (c : Clock) (w : World redis) where
    pub evaluate_ok :
        (v : OpaResult)
        → (asked servers info r c w).0 ≡ ok v
        → ((evaluate redis options keys servers info r c w).0 ≡ ok (verdict_of v c))
          × ((evaluate redis options keys servers info r c w).1.opa ≡ (asked servers info r c w).1)
          × ((evaluate redis options keys servers info r c w).1.decisions
              ≡ kept_decisions info r c v w)
    unfolding evaluate
    evaluate_ok v answered = elim (Bool-cases options.enable_cache) [
      | inl on ↦ (rw (answered, on) refl, rw (answered, on) refl, rw (answered, on) refl)
      | inr off ↦ (rw (answered, off) refl, rw (answered, off) refl, rw (answered, off) refl)
    ]

    evaluate_err :
        (e : String)
        → (asked servers info r c w).0 ≡ err e
        → evaluate redis options keys servers info r c w
          ≡ (err (server_failed e), record w { opa = (asked servers info r c w).1 })
    unfolding evaluate
    evaluate_err e failed = rw failed refl

  module _ (servers : Servers) (info : UserInfo) (r : Request) (c : Clock) (w : World redis) where
    -- A decision that a call wrote.
    abbrev pub Written : String → CacheEntry Authorization → Type 0
    Written k e =
        (str_eq (decision_key redis options keys info.sub r) k ≡ true)
        × (e.expires_at ≡ c.now + ttl_or_hour (decision_ttl options) * 1000)
        × ((v : OpaResult) × ((asked servers info r c w).0 ≡ ok v) × (e.content ≡ verdict_of v c))

    -- A decision that was in the cache, or came from the client of the policy server.
    abbrev pub Granted : Type 0
    Granted =
        ((e : CacheEntry Authorization) × Entry (decision_key redis options keys info.sub r) e w
          × (e.content.allowed ≡ true)
          × (c.now ≤ e.expires_at))
        ⊎ ((v : OpaResult) × ((asked servers info r c w).0 ≡ ok v) × (v.allow ≡ true))

    -- What a call for this user returns and leaves.
    pub record Fate (x : Result AuthError Authorization × World redis) : Type 0 where
      pub client : (x.1.opa ≡ w.opa) ⊎ (x.1.opa ≡ (asked servers info r c w).1)
      pub entries :
          (k : String) (e : CacheEntry Authorization) → Entry k e x.1 → Entry k e w ⊎ Written k e
      pub grants : (a : Authorization) → x.0 ≡ ok a → a.allowed ≡ true → Granted

  kept-entries :
      (servers : Servers) (info : UserInfo) (r : Request) (c : Clock) (w : World redis)
      (v : OpaResult)
      → (asked servers info r c w).0 ≡ ok v
      → (k : String) (e : CacheEntry Authorization)
      → get (CacheEntry Authorization) k (kept_decisions info r c v w) ≡ some e
      → Entry k e w ⊎ Written servers info r c w k e
  kept-entries servers info r c w v answered k e h = elim (Bool-cases options.enable_cache) [
    | inr off ↦ inl (rw off at h)
    | inl on ↦
        elim (set_cache-entries redis w.up (decision_key redis options keys info.sub r) k
          (verdict_of v c) (decision_ttl options)
          ("authorization" ∷ user_tag info.sub ∷ append "resource:" r.resource_id ∷ []) c.now
          (record { entries = w.decisions; tags = w.tags }) e (rw on at h)) [
            | inl before ↦ inl before
            | inr (hit, content, made, expiry) ↦ inr (hit, expiry, (v, answered, content))
          ]
  ]

  pub evaluate-Fate :
      (servers : Servers) (info : UserInfo) (r : Request) (c : Clock) (w : World redis)
      → Fate servers info r c w (evaluate redis options keys servers info r c w)
  evaluate-Fate servers info r c w = elim (Result-cases (asked servers info r c w).0) [
    | inl (v, answered) ↦
        let (told, client', kept) = evaluate_ok servers info r c w v answered in
        record {
          client = inr client';
          entries = λ k e h.
              kept-entries servers info r c w v answered k e
                (ap (λ z. get (CacheEntry Authorization) k z) (sym kept) ∙ h);
          grants = λ a h yes'. inr (
            v,
            answered,
            ap (λ (z : Authorization). z.allowed) (ok_injective (sym told ∙ h)) ∙ yes',
          );
        }
    | inr (e, failed) ↦
        rw (evaluate_err servers info r c w e failed)
          (record { client = inr refl; entries = λ k d h. inl h; grants = λ a h yes'. absurd cc })
  ]
