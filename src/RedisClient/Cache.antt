-- ===== src/RedisClient/Cache.antt =====
-- getCache, setCache and memoize of smp-auth-ts/src/clients/redis.client.ts.
use anticipation.Base.{
  ℕ, zero, suc, ◌⊎◌, ◌+◌, ◌*◌, ◌≡◌, ◌≤◌, String, List, [], ◌∷◌, Bool, true, false, Option, none,
  some, ltb, str_eq, if◌then◌else◌, arith, Bool-cases, Option-cases, inl, inr, eq_refl,
}
use anticipation.Base.Result.{Result, ok, err}
use anticipation.Redis.Laws.{Redis}

pub record CacheEntry (V : Type 0) : Type 0 where
  pub content : V
  pub cached_at : ℕ
  pub expires_at : ℕ

-- A call that throws because the connection is down.
pub data Down : Type 0 where
  redis_down : Down

-- `options?.ttl || 3600`
abbrev pub ttl_or_hour : ℕ → ℕ
ttl_or_hour zero = 3600
ttl_or_hour (suc n) = suc n

module _ (redis : Redis) where
  open redis use {Strings, Sets, get, set, del, add, get-set, get-del}

  -- The entries under one key template, and the keys under each tag.
  pub record CacheState (V : Type 0) : Type 0 where
    pub entries : Strings (CacheEntry V)
    pub tags : Sets

  unfoldable pub add_tags : String → List String → Sets → Sets
  add_tags key [] s = s
  add_tags key (tag ∷ tags) s = add_tags key tags (add tag key s)

  module _ {V : Type 0} where
    unfoldable pub read_entry :
        String → ℕ → Option (CacheEntry V) → CacheState V → Option V × CacheState V
    read_entry key now none s = (none, s)
    read_entry key now (some e) s =
        if ltb e.expires_at now
        then (none, record s { entries = del (CacheEntry V) key s.entries })
        else (some e.content, s)

    -- getCache: an error gives nothing.
    unfoldable pub get_cache : Bool → String → ℕ → CacheState V → Option V × CacheState V
    unfolding read_entry
    get_cache up key now s =
        if up then read_entry key now (get (CacheEntry V) key s.entries) s else (none, s)

    -- setCache, where `ttl` is 0 if the options have none.
    unfoldable pub set_cache :
        Bool
        → String
        → V
        → ℕ
        → List String
        → ℕ
        → CacheState V
        → Result Down (Unit {0}) × CacheState V
    unfolding add_tags
    set_cache up key v ttl tags now s =
        if up
        then (
          ok tt,
          record s {
            entries =
                set (CacheEntry V) key
                  (record {
                    content = v;
                    cached_at = now;
                    expires_at = now + ttl_or_hour ttl * 1000;
                  })
                  (some (ttl_or_hour ttl)) s.entries;
            tags = add_tags key tags s.tags;
          },
        )
        else (err redis_down, s)

    -- An entry that is served at the time `now`.
    abbrev pub Fresh : String → ℕ → V → CacheState V → Type 0
    Fresh key now v s =
        (e : CacheEntry V) × (get (CacheEntry V) key s.entries ≡ some e)
        × (e.content ≡ v)
        × (now ≤ e.expires_at)

    pub get_cache_sound :
        (up : Bool) (key : String) (now : ℕ) (s : CacheState V) (v : V)
        → (get_cache up key now s).0 ≡ some v
        → Fresh key now v s
    unfolding get_cache read_entry
    get_cache_sound false key now s v h = absurd cc
    get_cache_sound true key now s v h = elim (Option-cases (get (CacheEntry V) key s.entries)) [
      | inl missing ↦ absurd (let bad = (rw missing at h) in cc)
      | inr (e, found) ↦ (e, found, ground arith, ground arith)
    ]

    -- A read deletes at most what it was asked for.
    pub get_cache-entries :
        (up : Bool) (key k : String) (now : ℕ) (s : CacheState V) (e : CacheEntry V)
        → get (CacheEntry V) k (get_cache up key now s).1.entries ≡ some e
        → get (CacheEntry V) k s.entries ≡ some e
    unfolding get_cache read_entry
    get_cache-entries false key k now s e h = h
    get_cache-entries true key k now s e h =
        elim (Option-cases (get (CacheEntry V) key s.entries)) [
          | inl missing ↦ rw missing at h
          | inr (d, found) ↦ elim (Bool-cases (ltb d.expires_at now)) [
            | inr fresh ↦ ground arith
            | inl old ↦ elim (Bool-cases (str_eq key k)) [
              | inl hit ↦ ground (arith, get-del (CacheEntry V) key k s.entries)
              | inr miss ↦ ground (arith, get-del (CacheEntry V) key k s.entries)
            ]
          ]
        ]

    pub set_cache-entries :
        (up : Bool) (key k : String) (v : V) (ttl : ℕ) (tags : List String) (now : ℕ)
        (s : CacheState V) (e : CacheEntry V)
        → get (CacheEntry V) k (set_cache up key v ttl tags now s).1.entries ≡ some e
        → (get (CacheEntry V) k s.entries ≡ some e)
          ⊎ ((str_eq key k ≡ true)
              × (e.content ≡ v)
              × (e.cached_at ≡ now)
              × (e.expires_at ≡ now + ttl_or_hour ttl * 1000))
    unfolding set_cache
    set_cache-entries false key k v ttl tags now s e h = inl h
    set_cache-entries true key k v ttl tags now s e h = elim (Bool-cases (str_eq key k)) [
      | inr miss ↦ inl (
          ground (
            arith,
            get-set (CacheEntry V) key k
                (record { content = v; cached_at = now; expires_at = now + ttl_or_hour ttl * 1000 })
                (some (ttl_or_hour ttl)) s.entries,
          ))
      | inl hit ↦
          let written : some
                (record { content = v; cached_at = now; expires_at = now + ttl_or_hour ttl * 1000 })
              ≡ some e =
            rw (get-set, hit) at h in
          inr (hit, ground arith, ground arith, ground arith)
    ]

    -- What was stored is served until its time to live is over.
    pub get-set_cache :
        (key : String) (v : V) (ttl : ℕ) (tags : List String) (now later : ℕ) (s : CacheState V)
        → later ≤ now + ttl_or_hour ttl * 1000
        → (get_cache true key later (set_cache true key v ttl tags now s).1).0 ≡ some v
    unfolding get_cache read_entry set_cache
    get-set_cache key v ttl tags now later s h = rw (get-set, eq_refl) (ground arith)

    -- A live entry is served.
    pub get_cache_fresh :
        (key : String) (now : ℕ) (s : CacheState V) (e : CacheEntry V)
        → get (CacheEntry V) key s.entries ≡ some e
        → now ≤ e.expires_at
        → get_cache true key now s ≡ (some e.content, s)
    unfolding get_cache read_entry
    get_cache_fresh key now s e found h = rw found (ground arith)
