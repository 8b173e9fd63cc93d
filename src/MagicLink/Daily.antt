-- ===== src/MagicLink/Daily.antt =====
-- The daily limit of generateMagicLink in smp-auth-ts/src/services/magic-link.service.ts.
use anticipation.Base.{
  ℕ, ◌≡◌, ◌+◌, ◌≤◌, ◌<◌, refl, String, true, false, leb, arith, Bool-cases, inl, inr, ◌⊎◌, subst,
}
use anticipation.Base.Result.{Result, ok, err}
use anticipation.Base.Exec.{handle, pure}
use anticipation.Redis.Laws.{Redis}
use anticipation.MagicLink.State.{LinkConfig, LinkError, redis_down, daily_limit, Services, Store}
use anticipation.MagicLink.{LinkRequest, Generated}
use anticipation.MagicLink.Generate.{counter_key, check_daily_limit, unsent, generate_magic_link}
use anticipation.MagicLink.Counting.{
  IsCounted, answered, answered-IsCounted, count, handle-IsCounted, made,
}

module _ (redis : Redis) (config : LinkConfig) where
  open redis use {Strings, get, members, get-set}

  -- A call that makes a link counts it below the limit; another never lowers the counter.
  abbrev pub IsLimited : String → Store redis → Result LinkError Generated × Store redis → Type 0
  IsLimited key w x =
      ((count redis config key w < config.max_uses_per_day)
        × (count redis config key x.1 ≡ count redis config key w + 1))
      ⊎ ((made x.0 ≡ 0) × (count redis config key w ≤ (count redis config) key x.1))

  IsCounted-IsLimited :
      (key : String) (w : Store redis) (x : Result LinkError Generated × Store redis)
      → count redis config key w < config.max_uses_per_day
      → IsCounted redis config key (count redis config key w) x
      → IsLimited key w x
  IsCounted-IsLimited key w x below (inl raised) = inl (below, raised)
  IsCounted-IsLimited key w x below (inr (nothing, same)) = inr (nothing, omega arith)

  check_daily_limit_down :
      (email day : String) (w : Store redis)
      → w.up ≡ false
      → check_daily_limit redis config email day w ≡ (err redis_down, w)
  unfolding check_daily_limit
  check_daily_limit_down email day w down = simp down

  check_daily_limit_full :
      (email day : String) (w : Store redis)
      → w.up ≡ true
      → leb config.max_uses_per_day (count redis config (counter_key redis config email day) w)
        ≡ true
      → check_daily_limit redis config email day w ≡ (err daily_limit, w)
  unfolding check_daily_limit
  check_daily_limit_full email day w up full = simp (up, full)

  check_daily_limit_free :
      (email day : String) (w : Store redis)
      → w.up ≡ true
      → leb config.max_uses_per_day (count redis config (counter_key redis config email day) w)
        ≡ false
      → check_daily_limit redis config email day w ≡ (ok tt, w)
  unfolding check_daily_limit
  check_daily_limit_free email day w up free = simp (up, free)

  generate_magic_link-IsLimited :
      (s : Services) (r : LinkRequest) (id token day : String) (now : ℕ) (w : Store redis)
      → IsLimited
          (counter_key redis config r.email day)
          w
          (generate_magic_link redis config s r id token day now w)
  unfolding generate_magic_link
  generate_magic_link-IsLimited s r id token day now w =
      let key = counter_key redis config r.email day in
      elim (Bool-cases w.up) [
        | inr down ↦ rw (check_daily_limit_down r.email day w down) (inr (refl, omega arith))
        | inl up ↦ elim (Bool-cases (leb config.max_uses_per_day (count redis config key w))) [
          | inl full ↦ rw (check_daily_limit_full r.email day w up full) (inr (refl, omega arith))
          | inr free ↦ rw (check_daily_limit_free r.email day w up free) (
              IsCounted-IsLimited key w
                (handle (λ (e : LinkError). pure (unsent redis config))
                  (answered redis config s r id token day now (s.user_by_email r.email) w))
                (ground arith)
                (handle-IsCounted redis config key (count redis config key w)
                  (answered redis config s r id token day now (s.user_by_email r.email) w)
                  (answered-IsCounted redis config s r id token day now (s.user_by_email r.email)
                    w)))
        ]
      ]

  -- A run of calls for one email on one day, and the links they make. The steps between the calls
  -- leave the counter alone: it does not expire during the run.
  pub data Issues (email day : String) (w : Store redis) : Store redis → ℕ → Type 0 where
    start : Issues email day w w 0
    call :
        {v : Store redis} {n : ℕ}
        → Issues email day w v n
        → (s : Services) (r : LinkRequest) (id token : String) (now : ℕ) → r.email ≡ email
        → Issues email day w
            (generate_magic_link redis config s r id token day now v).1
            (n + made (generate_magic_link redis config s r id token day now v).0)
    elsewhere :
        {v : Store redis} {n : ℕ}
        → Issues email day w v n
        → (u : Store redis)
        → get ℕ (counter_key redis config email day) u.counters
          ≡ get ℕ (counter_key redis config email day) v.counters
        → Issues email day w u n

  made_le : (x : Result LinkError Generated) → made x ≤ 1
  made_le (ok g) = elim (Bool-cases g.success) [
    | inl a ↦ rw a (omega arith)
    | inr b ↦ rw b (omega arith)
  ]
  made_le (err e) = omega arith

  call-bounded :
      (key : String) (n : ℕ) (v : Store redis) (x : Result LinkError Generated × Store redis)
      → IsLimited key v x
      → (n ≤ (count redis config) key v) × (n ≤ config.max_uses_per_day)
      → (n + made x.0 ≤ (count redis config) key x.1) × (n + made x.0 ≤ config.max_uses_per_day)
  call-bounded key n v x (inl (below, more)) (few, small) =
      let one = made_le x.0 in (omega arith, omega arith)
  call-bounded key n v x (inr (nothing, kept)) (few, small) = (omega arith, omega arith)

  Issues-bounded :
      {email day : String} {w v : Store redis} {n : ℕ}
      → Issues email day w v n
      → (n ≤ (count redis config) (counter_key redis config email day) v)
        × (n ≤ config.max_uses_per_day)
  Issues-bounded start = (omega arith, omega arith)
  Issues-bounded {email = email} {day = day} (call {v = v} {n = n} run s r id token now same) =
      let x = generate_magic_link redis config s r id token day now v in
      call-bounded (counter_key redis config email day) n v x
        (subst (λ e. IsLimited (counter_key redis config e day) v x) same
          (generate_magic_link-IsLimited s r id token day now v))
        (Issues-bounded run)
  Issues-bounded (elsewhere run u same) =
      let (few, small) = Issues-bounded run in (rw same few, small)

  -- While the counter does not expire, no more links are made for one email on one day than the
  -- daily limit allows.
  pub generate_magic_link_bounded :
      (email day : String) (w v : Store redis) (n : ℕ)
      → Issues email day w v n
      → n ≤ config.max_uses_per_day
  generate_magic_link_bounded email day w v n run = (Issues-bounded run).1
