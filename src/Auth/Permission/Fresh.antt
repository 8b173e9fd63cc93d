-- ===== src/Auth/Permission/Fresh.antt =====
-- checkPermissionDetailed where nothing is cached.
use anticipation.Base.{
  ℕ, ◌≡◌, ◌↔◌, refl, inl, inr, String, [], Bool, true, false, Option, none, some, ap, ◌∙◌, sym,
  Bool-cases, subst, if◌then◌else◌,
}
use anticipation.Base.Result.{Result, ok, err, ok_injective}
use anticipation.Base.Exec.{resume, handle, handle_ok, pure}
use anticipation.Redis.Laws.{Redis}
use anticipation.RedisClient.Cache.{CacheEntry, get_cache, read_entry}
use anticipation.Opa.{Json, OpaResult, Answer, read_decision as read_opa_decision}
use anticipation.Opa.Fresh.{check_permission-fresh, read_answer}
use anticipation.Opa.Decision.{Grants, read_decision-allow_iff}
use anticipation.Auth.State.{
  UserInfo, Authorization, AuthOptions, Clock, Servers, World, AuthError, read_decision,
}
use anticipation.Auth.Permission.{
  Request, Keys, denied, decision_key, opa_input, unless_decided, decide, check_permission_detailed,
}
use anticipation.Auth.Permission.Evaluation.{asked, verdict_of, Granted, evaluate_ok}
use anticipation.Auth.Permission.Steps.{refused, check_permission_detailed-Fate}

module _ (redis : Redis) (options : AuthOptions) (keys : Keys) where
  open redis use {get}

  get_cache-none :
      (up : Bool) (key : String) (now : ℕ) (w : World redis)
      → get (CacheEntry Authorization) key w.decisions ≡ none
      → get_cache redis up key now (record { entries = w.decisions; tags = w.tags })
        ≡ (none, record { entries = w.decisions; tags = w.tags })
  unfolding get_cache read_entry
  get_cache-none true key now w missing = rw missing refl
  get_cache-none false key now w missing = refl

  abbrev verdict : OpaResult → Clock → Authorization
  verdict = verdict_of redis options keys

  granting :
      (servers : Servers) (info : UserInfo) (r : Request) (c : Clock) (w : World redis)
      → ((k : String) → get (CacheEntry Authorization) k w.decisions ≡ none)
      → w.opa.cache ≡ []
      → Granted redis options keys servers info r c w
      → (response : Json) × (servers.policy (opa_input keys.to_iso info r c) ≡ ok response)
        × Grants response
  granting servers info r c w no_entry no_answer (inl (e, found, good, fresh)) =
      let bad : none ≡ some e = sym (no_entry _) ∙ found in absurd cc
  granting servers info r c w no_entry no_answer (inr (v, answered, good)) =
      read (servers.policy (opa_input keys.to_iso info r c))
        (sym (check_permission-fresh _ _ _ w.opa no_answer) ∙ answered)
    where
      read :
          (answer : Answer)
          → read_answer answer ≡ ok v
          → (response : Json) × (answer ≡ ok response) × Grants response
      read (ok response) e = (
        response,
        refl,
        (read_decision-allow_iff response).0
            (ap (λ (z : OpaResult). z.allow) (ok_injective e) ∙ good),
      )
      read (err m) e = absurd cc

  decide-answered :
      (servers : Servers) (info : UserInfo) (r : Request) (c : Clock) (w : World redis)
      → ((k : String) → get (CacheEntry Authorization) k w.decisions ≡ none)
      → (v : OpaResult) → (asked redis options keys servers info r c w).0 ≡ ok v
      → (decide redis options keys servers r c info w).0 ≡ ok (verdict v c)
  unfolding decide unless_decided
  decide-answered servers info r c w no_entry v answered = elim (Bool-cases options.enable_cache) [
    | inl on ↦
        subst (λ b. (from b).0 ≡ ok (verdict v c)) (sym on)
          (ap (λ x. (evaluate_or x.0 (record w { decisions = x.1.entries; tags = x.1.tags })).0)
              (get_cache-none w.up (decision_key redis options keys info.sub r) c.now w
                (no_entry _))
            ∙ (evaluate_ok redis options keys servers info r c w v answered).0)
    | inr off ↦
        subst (λ b. (from b).0 ≡ ok (verdict v c)) (sym off)
          (evaluate_ok redis options keys servers info r c w v answered).0
  ]
    where
      evaluate_or :
          Option Authorization → World redis → Result AuthError Authorization × World redis
      evaluate_or = unless_decided redis options keys servers info r c

      from : Bool → Result AuthError Authorization × World redis
      from b = resume evaluate_or (
          (if b
              then read_decision redis (decision_key redis options keys info.sub r) c.now
              else pure none)
            w)

  -- An error that is thrown becomes a refusal.
  decided :
      (r : Request) (c : Clock) (x : Result AuthError Authorization × World redis)
      → (a : Authorization) × ((handle (refused redis options keys r c) x).0 ≡ ok a)
  decided r c (ok a, w) = (a, refl)
  decided r c (err e, w) = (denied c.now, refl)

  -- With no decision in Redis and none in the policy client, checkPermissionDetailed never throws:
  -- it returns a decision, which allows the request exactly if the token is valid and the policy
  -- server gives a response that grants.
  pub check_permission_detailed-allow_iff :
      (servers : Servers) (token : String) (r : Request) (c : Clock) (w : World redis)
      → ((k : String) → get (CacheEntry Authorization) k w.decisions ≡ none)
      → w.opa.cache ≡ []
      → (a : Authorization) × ((check_permission_detailed redis options keys servers token r c w).0
          ≡ ok a)
        × ((a.allowed ≡ true) ↔ (
            (info : UserInfo) × (servers.validate token ≡ ok info)
            × ((response : Json) × (servers.policy (opa_input keys.to_iso info r c) ≡ ok response)
                × Grants response)))
  unfolding check_permission_detailed
  check_permission_detailed-allow_iff servers token r c w no_entry no_answer = (
    outcome.0,
    outcome.1,
    (
      (λ good. elim (check_permission_detailed-Fate redis options keys servers token r c w) [
        | inr (no_grant, same_client, same_decisions) ↦
            let bad : ◌≡◌ {A = Bool} false true =
              ap (λ (z : Authorization). z.allowed) (ok_injective (sym no_grant ∙ outcome.1))
              ∙ good in
            absurd cc
        | inl (info, valid, f) ↦ (
          info,
          valid,
          granting servers info r c w no_entry no_answer (f.grants outcome.0 outcome.1 good),
        )
      ]),
      (λ (info, valid, (response, answered, grants)).
          let told : (check_permission_detailed redis options keys servers token r c w).0
              ≡ ok (verdict (read_opa_decision response) c) =
            rw valid (
              ap (λ z. z.0)
                (handle_ok _ (verdict (read_opa_decision response) c)
                  (decide redis options keys servers r c info w)
                  (decide-answered servers info r c w no_entry (read_opa_decision response)
                    (check_permission-fresh _ _ _ w.opa no_answer ∙ ap read_answer answered)))) in
          ap (λ (z : Authorization). z.allowed) (ok_injective (sym outcome.1 ∙ told))
          ∙ (read_decision-allow_iff response).1 grants),
    ),
  )
    where
      outcome :
          (a : Authorization) × ((check_permission_detailed redis options keys servers token r c
              w).0
            ≡ ok a)
      outcome = decided r c _
