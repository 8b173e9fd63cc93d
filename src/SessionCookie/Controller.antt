-- ===== src/SessionCookie/Controller.antt =====
-- mu-auth/src/session/session.controller.ts, the options of the cookie and
-- mu-auth/src/session/guards/session.guard.ts. Dates are milliseconds.
use anticipation.Base.{
  ℕ, ◌+◌, String, List, Bool, true, false, any, Option, none, some, str_eq, if◌then◌else◌,
}
use anticipation.Base.JsMap.{map_get}
use anticipation.Base.Result.{Result, ok, err}
use anticipation.SessionCookie.{
  Source, auth, SessionData, Crypto, Users, Draw, session_ttl, bind, or_empty, or_drawn,
  validate_session, refresh_session, create_session,
}

abbrev pub cookie_name : String
cookie_name = "smp_session"

pub record Environment : Type 0 where
  pub node_env : Option String
  pub cookie_domain : Option String

-- httpOnly, sameSite and path are constants: true, 'lax' and '/'.
pub record CookieOptions : Type 0 where
  pub secure : Bool
  pub domain : String
  pub max_age : ℕ

abbrev pub is_production : Option String → Bool
is_production none = false
is_production (some s) = str_eq s "production"

abbrev pub get_cookie_options : Environment → CookieOptions
get_cookie_options env = record {
  secure = is_production env.node_env;
  domain = or_drawn (or_empty env.cookie_domain) ".services.com";
  max_age = session_ttl;
}

-- The cookies of the request, if a parser has put them there.
pub record Request (Cookie : Type 0) : Type 0 where
  pub cookies : Option (List (String × Cookie))
  pub device_fingerprint : Option String

pub record CreateSessionRequest : Type 0 where
  pub user_id : String
  pub fingerprint : Option String
  pub source : Option Source

-- What an answer does to the cookie of the session.
pub data CookieChange (Cookie : Type 0) : Type 0 where
  set_cookie : Cookie → CookieOptions → CookieChange Cookie
  clear_cookie : String → CookieChange Cookie

pub record HttpException : Type 0 where
  pub status : ℕ
  pub message : String

pub record Summary : Type 0 where
  pub session_id : String
  pub user_id : String
  pub email : String
  pub username : String
  pub roles : List String
  pub organizations : List String

abbrev pub summary_of : SessionData → Summary
summary_of s = record {
  session_id = s.session_id;
  user_id = s.user_id;
  email = s.email;
  username = s.username;
  roles = s.roles;
  organizations = s.organizations;
}

pub data Validation : Type 0 where
  no_cookie invalid_session validation_error : Validation
  valid_session : Summary → ℕ → Source → Validation

-- `!cookieValue` rejects an empty text.
abbrev pub filled : {Cookie : Type 0} → (Cookie → Bool) → Option Cookie → Option Cookie
filled is_empty none = none
filled is_empty (some c) = if is_empty c then none else some c

abbrev pub cookie_in :
    {Cookie : Type 0}
    → (Cookie → Bool)
    → Option (List (String × Cookie))
    → Result String (Option Cookie)
cookie_in is_empty none = err "Cannot read properties of undefined"
cookie_in is_empty (some cookies) = ok (filled is_empty (map_get cookie_name cookies))

-- catch (error) { throw new HttpException({ success: false, message }, INTERNAL_SERVER_ERROR) }
abbrev pub or_internal : {A : Type 0} → String → Result String A → Result HttpException A
or_internal message (ok a) = ok a
or_internal message (err e) = err (record { status = 500; message = message })

abbrev pub source_or_auth : Option Source → Source
source_or_auth none = auth
source_or_auth (some source) = source

abbrev pub report : Option SessionData → Validation
report none = invalid_session
report (some s) = valid_session (summary_of s) s.last_activity s.source

abbrev pub or_error : Result String Validation → Validation
or_error (ok v) = v
or_error (err e) = validation_error

-- The answer to a refresh: the session's identifier and the time.
pub record Refreshed : Type 0 where
  pub session_id : String
  pub last_activity : ℕ

module _ (crypto : Crypto) where
  open crypto use {Cookie, is_empty}

  -- request.cookies[cookieName]
  abbrev pub cookie_value : Request Cookie → Result String (Option Cookie)
  cookie_value request = cookie_in is_empty request.cookies

module _ (crypto : Crypto) (secret : String) where
  open crypto use {Cookie}

  abbrev pub validation_of : Users → ℕ → Option Cookie → Validation
  validation_of users now none = no_cookie
  validation_of users now (some cookie) = report (validate_session crypto secret users cookie now)

  unfoldable pub get_validate : Users → Request Cookie → ℕ → Validation
  get_validate users request now =
      or_error (bind (cookie_value crypto request) (λ c. ok (validation_of users now c)))

module _ (crypto : Crypto) (secret : String) (env : Environment) where
  open crypto use {Cookie}

  unfoldable pub post_create :
      Users
      → CreateSessionRequest
      → Request Cookie
      → ℕ
      → Draw
      → Result HttpException ((Summary × ℕ) × CookieChange Cookie)
  post_create users body request now draw =
      let fingerprint =
        or_drawn (or_empty body.fingerprint) (or_empty request.device_fingerprint) in
      or_internal "Failed to create session" (
        bind
          (create_session crypto secret users body.user_id fingerprint (source_or_auth body.source)
            now draw)
          (λ (s, cookie). ok (
            (summary_of s, now + (get_cookie_options env).max_age),
            set_cookie cookie (get_cookie_options env),
          )))

  abbrev pub renewal :
      ℕ → String → Option SessionData → Result String (Refreshed × CookieChange Cookie)
  renewal now iv none = err "Invalid session"
  renewal now iv (some s) =
      let (refreshed, cookie) = refresh_session crypto secret s now iv in
      ok (
        record { session_id = refreshed.session_id; last_activity = refreshed.last_activity },
        set_cookie cookie (get_cookie_options env),
      )

  abbrev pub renewal_of :
      Users → ℕ → String → Option Cookie → Result String (Refreshed × CookieChange Cookie)
  renewal_of users now iv none = err "No session found"
  renewal_of users now iv (some cookie) =
      renewal now iv (validate_session crypto secret users cookie now)

  unfoldable pub post_refresh :
      Users → Request Cookie → ℕ → String → Result HttpException (Refreshed × CookieChange Cookie)
  post_refresh users request now iv =
      or_internal "Failed to refresh session"
        (bind (cookie_value crypto request) (renewal_of users now iv))

  -- validateSession and invalidateSession change nothing and do not throw, so only the cookies
  -- matter.
  unfoldable pub delete_logout : Request Cookie → Result HttpException (CookieChange Cookie)
  delete_logout request =
      or_internal "Logout failed" (
        bind (cookie_value crypto request) (λ c. ok (clear_cookie (get_cookie_options env).domain)))

  unfoldable pub delete_logout_all : String → CookieChange Cookie
  delete_logout_all user = clear_cookie (get_cookie_options env).domain

abbrev pub has_role : SessionData → List String → Bool
has_role s required = any (λ role. any (λ held. str_eq held role) s.roles) required

abbrev pub has_required : Option (List String) → SessionData → Result String Bool
has_required none s = ok true
has_required (some required) s =
    if has_role s required then ok true else err "Insufficient permissions"

-- canActivate of SessionGuard, by the session of the request and the roles that a handler requires
unfoldable pub can_activate : Option SessionData → Option (List String) → Result String Bool
can_activate none required = err "No valid session found"
can_activate (some s) required = has_required required s
