-- ===== src/SessionCookie/Access.antt =====
-- Who gets a session from mu-auth/src/session/session.controller.ts, and what keeps it.
use anticipation.Base.{
  ℕ, ◌+◌, ◌≡◌, ◌≤◌, Bool, true, false, if◌then◌else◌, refl, String, [], ◌∷◌, none, some, inl, inr,
  ◌⊎◌,
}
use anticipation.Base.JsMap.{map_get}
use anticipation.Base.Result.{Result, ok, err, Result-cases}
use anticipation.SessionCookie.{
  SessionData, UserInfo, Crypto, Users, Draw, session_ttl, new_session, or_empty, or_drawn,
  encrypt_session_to_cookie, validate_session, refresh_session, create_session,
}
use anticipation.SessionCookie.Laws.{IsKnown, is_empty-encrypt, validate-encrypt_iff}
use anticipation.SessionCookie.Renewals.{Option-cases}
use anticipation.SessionCookie.Controller.{
  cookie_name, Environment, get_cookie_options, Request, CreateSessionRequest, CookieChange,
  set_cookie, clear_cookie, HttpException, summary_of, valid_session, validation_error,
  cookie_value, source_or_auth, post_create, get_validate, post_refresh,
}

-- The request of a client that sends back the cookie that an answer set. Without a parser the request
-- has no cookies to read, whatever the client sends.
abbrev pub with_cookie :
    {A Cookie : Type 0}
    → Bool
    → Result HttpException (A × CookieChange Cookie)
    → Request Cookie
    → Request Cookie
with_cookie false answer request = record request { cookies = none }
with_cookie true (ok (a, set_cookie cookie options)) request = record request {
  cookies = some ((cookie_name, cookie) ∷ []);
}
with_cookie true (ok (a, clear_cookie domain)) request = request
with_cookie true (err e) request = request

-- The session that the body of a creation asks for.
abbrev pub asked_session :
    {Cookie : Type 0} → CreateSessionRequest → UserInfo → Request Cookie → ℕ → Draw → SessionData
asked_session body info request now draw =
    new_session body.user_id info
      (or_drawn (or_empty body.fingerprint) (or_empty request.device_fingerprint))
      (source_or_auth body.source) now draw

module _ (crypto : Crypto) (secret : String) where
  open crypto use {Cookie}

  -- The request has a cookie that counts as the session.
  abbrev pub Carries : Users → Request Cookie → ℕ → SessionData → Type 0
  Carries users request now s =
      (cookie : Cookie) × (cookie_value crypto request ≡ ok (some cookie))
      × (validate_session crypto secret users cookie now ≡ some s)

module _ (crypto : Crypto) (secret : String) (env : Environment) where
  open crypto use {Cookie}

  known-post_create :
      (users : Users) (body : CreateSessionRequest) (request : Request Cookie) (now : ℕ)
      (draw : Draw) (info : UserInfo)
      → users body.user_id ≡ ok (some info)
      → post_create crypto secret env users body request now draw
        ≡ ok (
          (
            summary_of (asked_session body info request now draw),
            now + (get_cookie_options env).max_age,
          ),
          set_cookie
              (encrypt_session_to_cookie crypto secret
                (asked_session body info request now draw)
                now
                draw.iv)
              (get_cookie_options env),
        )
  unfolding post_create create_session
  known-post_create users body request now draw info known = rw known refl

  sent-get_validate :
      (users : Users) (s : SessionData) (iv : String) (request : Request Cookie) (now : ℕ)
      → now ≤ s.last_activity + session_ttl
      → IsKnown users s.user_id
      → get_validate crypto secret users
          (record request {
            cookies =
                some (
                  (cookie_name, encrypt_session_to_cookie crypto secret s s.last_activity iv) ∷ []);
          })
          now
        ≡ valid_session (summary_of s) s.last_activity s.source
  unfolding get_validate map_get
  sent-get_validate users s iv request now soon known =
      rw (is_empty-encrypt crypto secret s s.last_activity iv)
        (rw ((validate-encrypt_iff crypto secret users s s iv now).1 (soon, (refl, known))) refl)

  -- Whoever asks for a session of a known user, with any request, gets a cookie; sent back within 24
  -- hours, while the user is known, it counts as a session of that user with the user's roles where a
  -- parser puts cookies into the requests, and without a parser validation answers with an error.
  pub get_validate-post_create :
      (users : Users) (body : CreateSessionRequest) (request : Request Cookie) (now : ℕ)
      (draw : Draw) (info : UserInfo)
      → users body.user_id ≡ ok (some info)
      → (parsed : Bool) (users' : Users) (request' : Request Cookie) (later : ℕ)
      → later ≤ now + session_ttl
      → IsKnown users' body.user_id
      → get_validate crypto secret users'
          (with_cookie parsed (post_create crypto secret env users body request now draw) request')
          later
        ≡ (if parsed
            then valid_session
                (summary_of (asked_session body info request now draw))
                now
                (source_or_auth body.source)
            else validation_error)
  unfolding get_validate
  get_validate-post_create users body request now draw info known true users' request' later soon
        known' =
      rw (known-post_create users body request now draw info known) (
        sent-get_validate users' (asked_session body info request now draw) draw.iv request' later
          soon known')
  get_validate-post_create users body request now draw info known false users' request' later soon
        known' =
      refl

  -- A refresh renews the session that the request carries, and fails with status 500 in every other
  -- case, whether cookies were not parsed, there is no cookie, or it does not count any more.
  pub post_refresh_fate :
      (users : Users) (request : Request Cookie) (now : ℕ) (iv : String)
      → ((s : SessionData) × Carries crypto secret users request now s
          × (post_refresh crypto secret env users request now iv
              ≡ ok (
                record { session_id = s.session_id; last_activity = now },
                set_cookie
                    (encrypt_session_to_cookie crypto secret
                      (record s { last_activity = now })
                      now
                      iv)
                    (get_cookie_options env),
              )))
        ⊎ (((s : SessionData) → ¬ Carries crypto secret users request now s)
            × (post_refresh crypto secret env users request now iv
                ≡ err (record { status = 500; message = "Failed to refresh session" })))
  unfolding post_refresh refresh_session
  post_refresh_fate users request now iv = elim (Result-cases (cookie_value crypto request)) [
    | inl (some cookie, sent) ↦
        elim (Option-cases (validate_session crypto secret users cookie now)) [
          | inl (s, counts) ↦ inl (s, (cookie, sent, counts), rw sent (rw counts refl))
          | inr refused ↦ inr (
            (λ s (c, sent', counts). let same : cookie ≡ c = cc in absurd cc),
            rw sent (rw refused refl),
          )
        ]
    | inl (none, missing) ↦ inr ((λ s (c, sent, counts). absurd cc), rw missing refl)
    | inr (e, unparsed) ↦ inr ((λ s (c, sent, counts). absurd cc), rw unparsed refl)
  ]
