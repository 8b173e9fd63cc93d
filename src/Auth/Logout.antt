-- ===== src/Auth/Logout.antt =====
-- What logout of smp-auth-ts/src/services/auth.service.ts ends, and what outlives it.
use anticipation.Base.{
  ℕ, ◌≡◌, ◌≢◌, ◌↔◌, ◌≤◌, refl, inl, inr, String, Bool, true, Option, none, some, ap, ◌∙◌, sym,
  Option-cases, subst, eq_iff, arith, if◌then◌else◌,
}
use anticipation.Base.Result.{Result, ok, err, Result-cases}
use anticipation.Base.Exec.{resume, handle, pure, ◌>>◌}
use anticipation.Redis.Laws.{Redis}
use anticipation.RedisClient.Cache.{CacheEntry, CacheState, get_cache, get_cache_fresh}
use anticipation.RedisClient.Sessions.{Session, SessionState, close_user_sessions}
use anticipation.RedisClient.Sessions.Index.{IsIndexed}
use anticipation.RedisClient.Sessions.Runs.{Reach, close_user_sessions-get}
use anticipation.Auth.State.{
  UserInfo, TokenValidation, AuthOptions, Servers, World, AuthError, M, emit, validation_failed,
  read_token,
}
use anticipation.Auth.{
  message, invalid_token, logout, validate_token, unless_cached, token_user, close_sessions,
}

module _ (redis : Redis) (options : AuthOptions) where
  open redis use {get}

  token_user-present :
      (servers : Servers) (token : String) (info : UserInfo)
      → servers.validate token ≡ ok info
      → info.sub ≢ ""
      → token_user redis options (servers.validate token) ≡ some info.sub
  token_user-present servers token info valid named =
      ap (token_user redis options) valid ∙ ground (arith, eq_iff info.sub "")

  -- The state after a logout that the identity server accepts.
  logout-sessions :
      (servers : Servers) (token : String) (w : World redis) (user : Option String)
      → token_user redis options (servers.validate token) ≡ user
      → servers.logout token ≡ ok tt
      → (logout redis options servers token w).1.sessions
        ≡ (close_sessions redis options user w).1.sessions
  unfolding logout
  logout-sessions servers token w none known done = rw (done, known) refl
  logout-sessions servers token w (some user) known done = rw (done, known) refl

  -- With session tracking on and the connection up, after a logout that the identity server accepts
  -- no session of the user of the token is left and the sessions of other users stay as they are, if
  -- the identity server knew the token still, for a user whose identifier is not empty. The index of
  -- sessions was right at some time before; since then each session was created under an identifier
  -- that was neither stored nor in an index by then, and no update changed the identifier or the user
  -- of a stored session.
  pub logout-get :
      (servers : Servers) (token : String) (info : UserInfo) (s : SessionState redis)
      (w : World redis) (k : String) (l : Session)
      → options.enable_session_tracking ≡ true
      → servers.validate token ≡ ok info
      → info.sub ≢ ""
      → servers.logout token ≡ ok tt
      → w.up ≡ true
      → IsIndexed redis s
      → Reach redis s w.sessions
      → (get Session k (logout redis options servers token w).1.sessions.sessions ≡ some l)
        ↔ ((l.user_id ≢ info.sub) × (get Session k w.sessions.sessions ≡ some l))
  logout-get servers token info s w k l tracking valid named done up start reach =
      subst
        (λ (z : SessionState redis).
          (get Session k z.sessions ≡ some l)
          ↔ ((l.user_id ≢ info.sub) × (get Session k w.sessions.sessions ≡ some l)))
        (sym closed) (close_user_sessions-get redis info.sub k l start reach)
    where
      closed :
          (logout redis options servers token w).1.sessions
          ≡ close_user_sessions redis true info.sub w.sessions
      closed =
          logout-sessions servers token w (some info.sub)
            (token_user-present servers token info valid named) done
          ∙ ap (λ b. if b then close_user_sessions redis w.up info.sub w.sessions else w.sessions)
              tracking
          ∙ ap (λ b. close_user_sessions redis b info.sub w.sessions) up

  -- A logout with a token that the identity server rejects leaves every session, whatever comes of
  -- it.
  pub logout_unknown :
      (servers : Servers) (token reason : String) (w : World redis)
      → servers.validate token ≡ err reason
      → (logout redis options servers token w).1.sessions ≡ w.sessions
  unfolding logout
  logout_unknown servers token reason w invalid = elim (Result-cases (servers.logout token)) [
    | inl (unit, done) ↦ rw (done, invalid) refl
    | inr (e, failed) ↦ rw failed refl
  ]

  module _ (token_hash : String → String) where
    logout-tokens :
        (servers : Servers) (token : String) (w : World redis)
        → ((logout redis options servers token w).1.tokens ≡ w.tokens)
          × ((logout redis options servers token w).1.up ≡ w.up)
    unfolding logout
    logout-tokens servers token w = elim (Result-cases (servers.logout token)) [
      | inr (e, failed) ↦ (rw failed refl, rw failed refl)
      | inl (unit, done) ↦ elim (Option-cases (token_user redis options (servers.validate token))) [
        | inl nobody ↦ (rw (done, nobody) refl, rw (done, nobody) refl)
        | inr (user, somebody) ↦ (rw (done, somebody) refl, rw (done, somebody) refl)
      ]
    ]

    validate_token-cached :
        (servers : Servers) (token : String) (now : ℕ) (w : World redis)
        (e : CacheEntry TokenValidation)
        → options.enable_cache ≡ true
        → w.up ≡ true
        → get (CacheEntry TokenValidation) (token_hash token) w.tokens ≡ some e
        → now ≤ e.expires_at
        → (validate_token redis options token_hash servers token now w).0 ≡ ok e.content
    unfolding validate_token unless_cached
    validate_token-cached servers token now w e on up found live =
        subst (λ b. (from b).0 ≡ ok e.content) (sym on)
          (ap
            (λ o.
              (handle failing (unless_cached redis options token_hash servers token now o after)).0)
            served)
      where
        before : CacheState redis TokenValidation
        before = record { entries = w.tokens; tags = w.tags }

        cache : Option TokenValidation × CacheState redis TokenValidation
        cache = get_cache redis w.up (token_hash token) now before

        after : World redis
        after = record w { tokens = cache.1.entries; tags = cache.1.tags }

        served : cache.0 ≡ some e.content
        served =
            ap (λ b. (get_cache redis b (token_hash token) now before).0) up
            ∙ ap (λ (x : Option TokenValidation × CacheState redis TokenValidation). x.0)
                (get_cache_fresh redis (token_hash token) now before e found live)

        failing : AuthError → M redis TokenValidation
        failing d = do emit redis options (validation_failed (message d)); pure invalid_token

        from : Bool → Result AuthError TokenValidation × World redis
        from b = handle failing (
            resume (unless_cached redis options token_hash servers token now)
              ((if b then read_token redis (token_hash token) now else pure none) w))

    -- With the cache on and the connection up, logout does not end what the cache knows of a token:
    -- validateToken gives the same answer after it until the entry expires, whatever the identity
    -- server says by then.
    pub validate_token-logout :
        (servers servers' : Servers) (token : String) (now : ℕ) (w : World redis)
        (e : CacheEntry TokenValidation)
        → options.enable_cache ≡ true
        → w.up ≡ true
        → get (CacheEntry TokenValidation) (token_hash token) w.tokens ≡ some e
        → now ≤ e.expires_at
        → (validate_token redis options token_hash servers' token now
            (logout redis options servers token w).1).0
          ≡ ok e.content
    validate_token-logout servers servers' token now w e on up found live =
        let (same, connected) = logout-tokens servers token w in
        validate_token-cached servers' token now (logout redis options servers token w).1 e on
          (connected ∙ up)
          (ap (λ z. get (CacheEntry TokenValidation) (token_hash token) z) same ∙ found) live
