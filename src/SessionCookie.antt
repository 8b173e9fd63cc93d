-- ===== src/SessionCookie.antt =====
-- mu-auth/src/session/session.service.ts: sessions that live in an encrypted cookie. The service
-- keeps no state; the clock, which one call reads once, random values and the answer of getUserInfo
-- are arguments.
pub mod Controller
pub mod Renewals
pub mod Laws
pub mod Access
pub mod Tests
use Prim.Native.String.{◌++◌ as append}
use anticipation.Base.{
  ℕ, ◌+◌, ◌≡◌, String, List, [], Bool, false, Option, none, some, str_eq, ltb, if◌then◌else◌,
}
use anticipation.Base.Result.{Result, ok, err}

pub data Source : Type 0 where
  auth dashboard api : Source

pub record SessionData : Type 0 where
  pub user_id : String
  pub email : String
  pub username : String
  pub roles : List String
  pub organizations : List String
  pub session_id : String
  pub created_at : ℕ
  pub last_activity : ℕ
  pub fingerprint : String
  pub source : Source

pub record CookieData : Type 0 where
  pub session : SessionData
  pub signature : String
  pub expires : ℕ

pub record UserInfo : Type 0 where
  pub email : Option String
  pub preferred_username : Option String
  pub roles : Option (List String)
  pub organization_ids : Option (List String)

-- What the module crypto of Node and its Buffer do: scrypt and AES-256-GCM under the secret, on the
-- JSON of the data; base64 of the JSON of what that gives; SHA-256; a number in a template.
pub record Crypto : Type 1 where
  -- The value of a cookie, as it travels.
  pub Cookie : Type 0
  -- { encrypted, iv, authTag }
  pub Sealed : Type 0
  pub is_empty : Cookie → Bool
  pub encrypt : String → String → CookieData → Sealed
  pub decrypt : String → Sealed → Result String CookieData
  pub encode : Sealed → Cookie
  pub decode : Cookie → Result String Sealed
  pub sha256 : String → String
  pub show : ℕ → String
  pub decrypt-encrypt :
      (secret iv : String) (d : CookieData) → decrypt secret (encrypt secret iv d) ≡ ok d
  pub decode-encode : (s : Sealed) → decode (encode s) ≡ ok s
  pub is_empty-encode : (s : Sealed) → is_empty (encode s) ≡ false

-- What getUserInfo answers during a call.
abbrev pub Users : Type 0
Users = String → Result String (Option UserInfo)

-- Random values of a call.
pub record Draw : Type 0 where
  pub session_id : String
  pub fingerprint : String
  pub iv : String

-- Milliseconds in 24 hours.
abbrev pub session_ttl : ℕ
session_ttl = 86400000

abbrev pub or_empty : Option String → String
or_empty none = ""
or_empty (some s) = s

abbrev pub or_nobody : Option (List String) → List String
or_nobody none = []
or_nobody (some xs) = xs

abbrev pub or_drawn : String → String → String
or_drawn given drawn = if str_eq given "" then drawn else given

abbrev pub bind : {A B : Type 0} → Result String A → (A → Result String B) → Result String B
bind (ok a) f = f a
bind (err e) f = err e

-- try { ... } catch { throw new Error(message) }
abbrev pub rethrow : {A : Type 0} → String → Result String A → Result String A
rethrow message (ok a) = ok a
rethrow message (err e) = err message

-- try { ... } catch { return null }
abbrev pub recover : {A : Type 0} → Result String (Option A) → Option A
recover (ok a) = a
recover (err e) = none

abbrev pub new_session : String → UserInfo → String → Source → ℕ → Draw → SessionData
new_session user info fingerprint source now draw = record {
  user_id = user;
  email = or_empty info.email;
  username = or_empty info.preferred_username;
  roles = or_nobody info.roles;
  organizations = or_nobody info.organization_ids;
  session_id = draw.session_id;
  created_at = now;
  last_activity = now;
  fingerprint = or_drawn fingerprint draw.fingerprint;
  source = source;
}

abbrev pub if_known : SessionData → Option UserInfo → Option SessionData
if_known s none = none
if_known s (some info) = some s

-- The session of a cookie that was decrypted.
unfoldable pub check_session : Users → ℕ → SessionData → Result String (Option SessionData)
check_session users now s =
    if ltb (s.last_activity + session_ttl) now
    then ok none
    else bind (users s.user_id) (λ info. ok (if_known s info))

module _ (crypto : Crypto) (secret : String) where
  open crypto use {Cookie, is_empty}

  unfoldable pub create_signature : SessionData → String
  create_signature s = crypto.sha256 (
      append
        (append s.user_id
          (append ":" (append s.session_id (append ":" (crypto.show s.created_at)))))
        secret)

  unfoldable pub encrypt_session_to_cookie : SessionData → ℕ → String → Cookie
  encrypt_session_to_cookie s now iv = crypto.encode (
      crypto.encrypt secret iv
        (record { session = s; signature = create_signature s; expires = now + session_ttl }))

  unfoldable pub check_cookie_data : CookieData → ℕ → Result String SessionData
  check_cookie_data content now =
      if str_eq content.signature (create_signature content.session)
      then if ltb content.expires now then err "Session expired" else ok content.session
      else err "Invalid session signature"

  unfoldable pub decrypt_cookie_to_session : Cookie → ℕ → Result String SessionData
  unfolding check_cookie_data
  decrypt_cookie_to_session cookie now = rethrow "Session decryption failed" (
      bind (crypto.decode cookie)
        (λ s. bind (crypto.decrypt secret s) (λ content. check_cookie_data content now)))

  -- `return { sessionData, cookie }` of createSession, once the user is known.
  abbrev pub issue :
      String → String → Source → ℕ → Draw → Option UserInfo → Result String (SessionData × Cookie)
  issue user fingerprint source now draw none = err "User not found"
  issue user fingerprint source now draw (some info) =
      let s = new_session user info fingerprint source now draw in
      ok (s, encrypt_session_to_cookie s now draw.iv)

  unfoldable pub create_session :
      Users → String → String → Source → ℕ → Draw → Result String (SessionData × Cookie)
  unfolding encrypt_session_to_cookie
  create_session users user fingerprint source now draw =
      bind (users user) (issue user fingerprint source now draw)

  unfoldable pub validate_session : Users → Cookie → ℕ → Option SessionData
  unfolding decrypt_cookie_to_session check_session
  validate_session users cookie now =
      if is_empty cookie
      then none
      else recover (bind (decrypt_cookie_to_session cookie now) (check_session users now))

  unfoldable pub refresh_session : SessionData → ℕ → String → SessionData × Cookie
  unfolding encrypt_session_to_cookie
  refresh_session s now iv =
      let refreshed = record s { last_activity = now } in
      (refreshed, encrypt_session_to_cookie refreshed now iv)
