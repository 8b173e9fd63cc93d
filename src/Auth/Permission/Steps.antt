-- ===== src/Auth/Permission/Steps.antt =====
-- What each step of checkPermissionDetailed does to the caches of decisions.
use anticipation.Base.Exec.{resume, handle, pure, ◌>>◌}
use anticipation.Auth.{message}
use anticipation.Base.{
  ◌≡◌, ◌⊎◌, refl, inl, inr, String, Bool, true, false, Option, none, Bool-cases, Option-cases, ap,
  subst, ◌∙◌, sym, if◌then◌else◌,
}
use anticipation.Base.Result.{Result, ok, err, Result-cases, ok_injective}
use anticipation.Redis.Laws.{Redis}
use anticipation.RedisClient.Cache.{
  CacheEntry, CacheState, get_cache, get_cache_sound, get_cache-entries,
}
use anticipation.Auth.State.{
  UserInfo, Authorization, AuthOptions, Clock, Servers, World, AuthError, check_failed, M, emit,
  read_decision,
}
use anticipation.Auth.Permission.{
  Request, Keys, decision_key, unless_decided, decide, denied, check_permission_detailed,
}
use anticipation.Auth.Permission.Evaluation.{Fate, Entry, evaluate-Fate}

module _ (redis : Redis) (options : AuthOptions) (keys : Keys) where
  open redis use {Strings, get}

  served-Fate :
      (servers : Servers) (info : UserInfo) (r : Request) (c : Clock) (w : World redis)
      → Fate redis options keys servers info r c w (
          unless_decided redis options keys servers info r c
            (get_cache redis w.up
              (decision_key redis options keys info.sub r)
              c.now
              (record { entries = w.decisions; tags = w.tags })).0
            (record w {
              decisions =
                  (get_cache redis w.up
                    (decision_key redis options keys info.sub r)
                    c.now
                    (record { entries = w.decisions; tags = w.tags })).1.entries;
              tags =
                  (get_cache redis w.up
                    (decision_key redis options keys info.sub r)
                    c.now
                    (record { entries = w.decisions; tags = w.tags })).1.tags;
            }))
  unfolding unless_decided
  served-Fate servers info r c w = elim (Option-cases cache.0) [
    | inr (a, hit) ↦
        let (e, found, same, fresh) = get_cache_sound redis w.up key c.now before a hit in
        rw hit (record {
          client = inl refl;
          entries = λ k d h. inl (get_cache-entries redis w.up key k c.now before d h);
          grants = λ b h yes'. inl (
            e,
            found,
            ap (λ (z : Authorization). z.allowed) same
                ∙ ap (λ (z : Authorization). z.allowed) (ok_injective h)
                ∙ yes',
            fresh,
          );
        })
    | inl miss ↦ rw miss (later (evaluate-Fate redis options keys servers info r c after))
  ]
    where
      key : String
      key = decision_key redis options keys info.sub r

      before : CacheState redis Authorization
      before = record { entries = w.decisions; tags = w.tags }

      cache : Option Authorization × CacheState redis Authorization
      cache = get_cache redis w.up key c.now before

      after : World redis
      after = record w { decisions = cache.1.entries; tags = cache.1.tags }

      earlier :
          (k : String) (e : CacheEntry Authorization)
          → Entry redis options keys k e after
          → Entry redis options keys k e w
      earlier k e h = get_cache-entries redis w.up key k c.now before e h

      later :
          {x : Result AuthError Authorization × World redis}
          → Fate redis options keys servers info r c after x
          → Fate redis options keys servers info r c w x
      later f = record {
        client = f.client;
        entries = λ k e h. elim (f.entries k e h) [
          | inl kept ↦ inl (earlier k e kept)
          | inr new ↦ inr new
        ];
        grants = λ a h yes'. elim (f.grants a h yes') [
          | inl (e, found, good, fresh) ↦ inl (e, earlier key e found, good, fresh)
          | inr answered ↦ inr answered
        ];
      }

  decide-Fate :
      (servers : Servers) (info : UserInfo) (r : Request) (c : Clock) (w : World redis)
      → Fate redis options keys servers info r c w (decide redis options keys servers r c info w)
  unfolding decide unless_decided
  decide-Fate servers info r c w = elim (Bool-cases options.enable_cache) [
    | inl on ↦
        subst (λ b. Fate redis options keys servers info r c w (from b)) (sym on)
          (served-Fate servers info r c w)
    | inr off ↦
        subst (λ b. Fate redis options keys servers info r c w (from b)) (sym off)
          (evaluate-Fate redis options keys servers info r c w)
  ]
    where
      from : Bool → Result AuthError Authorization × World redis
      from b = resume (unless_decided redis options keys servers info r c) (
          (if b
              then read_decision redis (decision_key redis options keys info.sub r) c.now
              else pure none)
            w)

  abbrev pub refused : (r : Request) (c : Clock) → AuthError → M redis Authorization
  refused r c e = do
    emit redis options (check_failed r.resource_id r.resource_type r.action (message e))
    pure (denied c.now)

  handle-Fate :
      (servers : Servers) (info : UserInfo) (r : Request) (c : Clock) (w : World redis)
      (x : Result AuthError Authorization × World redis)
      → Fate redis options keys servers info r c w x
      → Fate redis options keys servers info r c w (handle (refused r c) x)
  unfolding refused
  handle-Fate servers info r c w (ok a, v) f = f
  handle-Fate servers info r c w (err e, v) f = record {
    client = f.client;
    entries = f.entries;
    grants = λ a h yes'.
        let bad : ◌≡◌ {A = Bool} false true =
          ap (λ (z : Authorization). z.allowed) (ok_injective h) ∙ yes' in
        absurd cc;
  }

  -- A call fails on its token and leaves the decisions and the client alone, or it is made for the
  -- user of the token.
  pub check_permission_detailed-Fate :
      (servers : Servers) (token : String) (r : Request) (c : Clock) (w : World redis)
      → ((info : UserInfo) × (servers.validate token ≡ ok info)
          × Fate redis options keys servers info r c w
              (check_permission_detailed redis options keys servers token r c w))
        ⊎ (((check_permission_detailed redis options keys servers token r c w).0
              ≡ ok (denied c.now))
            × ((check_permission_detailed redis options keys servers token r c w).1.opa ≡ w.opa)
            × ((check_permission_detailed redis options keys servers token r c w).1.decisions
                ≡ w.decisions))
  unfolding check_permission_detailed refused
  check_permission_detailed-Fate servers token r c w =
      elim (Result-cases (servers.validate token)) [
        | inl (info, valid) ↦ inl (
          info,
          valid,
          rw valid (
              handle-Fate servers info r c w (decide redis options keys servers r c info w)
                (decide-Fate servers info r c w)),
        )
        | inr (e, invalid) ↦ inr (rw invalid refl, rw invalid refl, rw invalid refl)
      ]
