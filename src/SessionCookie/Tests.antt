-- ===== src/SessionCookie/Tests.antt =====
-- Sessions in cookies, with a cipher that shows its content.
use anticipation.Base.{
  ◌≡◌, ◌↔◌, ◌⊎◌, refl, String, List, ◌+◌, ◌≤◌, [], ◌∷◌, Bool, true, false, Option, none, some,
  arith,
}
use anticipation.Base.JsMap.{map_get}
use anticipation.Base.Result.{Result, ok, err}
use anticipation.SessionCookie.{
  auth, SessionData, CookieData, UserInfo, Crypto, Users, Draw, encrypt_session_to_cookie,
  validate_session, create_session, session_ttl, check_session, decrypt_cookie_to_session,
  check_cookie_data, create_signature,
}
use anticipation.SessionCookie.Laws.{IsKnown}
use anticipation.SessionCookie.Controller.{
  cookie_name, Environment, Request, CreateSessionRequest, set_cookie, summary_of, valid_session,
  validation_error, get_cookie_options, post_create, get_validate, post_refresh, delete_logout,
  delete_logout_all, clear_cookie, can_activate,
}
use anticipation.SessionCookie.Renewals.{
  Renewal, IsTimely, last_of, renewed, renewed-create_session_iff,
}
use anticipation.SessionCookie.Access.{
  with_cookie, Carries, get_validate-post_create, post_refresh_fate,
}

abbrev open_or_fail : Option CookieData → Result String CookieData
open_or_fail none = err "empty"
open_or_fail (some d) = ok d

abbrev is_none : Option CookieData → Bool
is_none none = true
is_none (some d) = false

abbrev clear_text : Crypto
clear_text = record {
  Cookie = Option CookieData;
  Sealed = CookieData;
  is_empty = is_none;
  encrypt = λ secret iv d. d;
  decrypt = λ secret d. ok d;
  encode = λ d. some d;
  decode = open_or_fail;
  sha256 = λ s. s;
  show = λ n. "0";
  decrypt-encrypt = λ secret iv d. refl;
  decode-encode = λ d. refl;
  is_empty-encode = λ d. refl;
}

abbrev admin : UserInfo
admin = record {
  email = some "ada@example.org";
  preferred_username = some "ada";
  roles = some ("admin" ∷ []);
  organization_ids = none;
}

-- The same user, without a role.
abbrev demoted : UserInfo
demoted = record admin { roles = some [] }

abbrev knows : UserInfo → Users
knows info user = ok (some info)

abbrev draw : Draw
draw = record { session_id = "s1"; fingerprint = "f1"; iv = "iv" }

abbrev session : SessionData
session = record {
  user_id = "ada";
  email = "ada@example.org";
  username = "ada";
  roles = "admin" ∷ [];
  organizations = [];
  session_id = "s1";
  created_at = 0;
  last_activity = 0;
  fingerprint = "f1";
  source = auth;
}

abbrev cookie : Option CookieData
cookie = some (record { session = session; signature = "ada:s1:0secret"; expires = 86400000 })

created :
    create_session clear_text "secret" (knows admin) "ada" "" auth 0 draw ≡ ok (session, cookie)
unfolding create_session encrypt_session_to_cookie create_signature
created = refl

-- Two refreshes keep the session for nearly three days, with the roles of the first.
abbrev renewals : List Renewal
renewals =
    record { users = knows admin; now = 86400000; iv = "iv" }
    ∷ record { users = knows demoted; now = 172800000; iv = "iv" }
    ∷ []

renewed-create_session_iff_example :
    (renewed clear_text "secret" renewals cookie (knows demoted) 259200000
      ≡ some (record session { last_activity = 172800000 }))
    ↔ (IsTimely "ada" 0 renewals
        × ((259200000 ≤ last_of 0 renewals + session_ttl)
            × ((record session { last_activity = 172800000 }
                  ≡ record session { last_activity = last_of 0 renewals })
                × IsKnown (knows demoted) "ada")))
renewed-create_session_iff_example =
    renewed-create_session_iff clear_text "secret" (knows admin) "ada" "" auth 0 draw session cookie
      created renewals (knows demoted) 259200000 (record session { last_activity = 172800000 })

-- The session still has the role that its user has lost.
three_days :
    renewed clear_text "secret" renewals cookie (knows demoted) 259200000
    ≡ some (record session { last_activity = 172800000 })
three_days = renewed-create_session_iff_example.1 (
  (((omega arith, (admin, refl)), ((omega arith, (demoted, refl)), tt))),
  (omega arith, (refl, (demoted, refl))),
)

too_late : validate_session clear_text "secret" (knows admin) cookie 86400001 ≡ none
unfolding validate_session decrypt_cookie_to_session check_cookie_data create_signature
    check_session
too_late = refl

forged : validate_session clear_text "other" (knows admin) cookie 0 ≡ none
unfolding validate_session decrypt_cookie_to_session check_cookie_data create_signature
    check_session
forged = refl

abbrev env : Environment
env = record { node_env = some "production"; cookie_domain = none }

abbrev anonymous : Request (Option CookieData)
anonymous = record { cookies = some []; device_fingerprint = none }

abbrev carrier : Request (Option CookieData)
carrier = record anonymous { cookies = some ((cookie_name, cookie) ∷ []) }

abbrev body : CreateSessionRequest
body = record { user_id = "ada"; fingerprint = none; source = none }

get_validate-post_create_example :
    get_validate clear_text "secret"
      (knows demoted)
      (with_cookie true
        (post_create clear_text "secret" env (knows admin) body anonymous 0 draw)
        anonymous)
      86400000
    ≡ valid_session (summary_of session) 0 auth
get_validate-post_create_example =
    get_validate-post_create clear_text "secret" env (knows admin) body anonymous 0 draw admin refl
      true (knows demoted) anonymous 86400000 (omega arith) (demoted, refl)

-- Without a parser of cookies no request has a session.
unparsed :
    get_validate clear_text "secret" (knows admin) (record carrier { cookies = none }) 0
    ≡ validation_error
unfolding get_validate
unparsed = refl

post_refresh_fate_example :
    ((s : SessionData) × Carries clear_text "secret" (knows admin) carrier 1000 s
      × (post_refresh clear_text "secret" env (knows admin) carrier 1000 "iv"
          ≡ ok (
            record { session_id = s.session_id; last_activity = 1000 },
            set_cookie
                (encrypt_session_to_cookie clear_text "secret"
                  (record s { last_activity = 1000 })
                  1000
                  "iv")
                (get_cookie_options env),
          )))
    ⊎ (((s : SessionData) → ¬ Carries clear_text "secret" (knows admin) carrier 1000 s)
        × (post_refresh clear_text "secret" env (knows admin) carrier 1000 "iv"
            ≡ err (record { status = 500; message = "Failed to refresh session" })))
post_refresh_fate_example =
    post_refresh_fate clear_text "secret" env (knows admin) carrier 1000 "iv"

logged_out : delete_logout clear_text "secret" env carrier ≡ ok (clear_cookie ".services.com")
unfolding delete_logout map_get
logged_out = refl

all_logged_out : delete_logout_all clear_text "secret" env "ada" ≡ clear_cookie ".services.com"
unfolding delete_logout_all
all_logged_out = refl

no_session : can_activate none none ≡ err "No valid session found"
unfolding can_activate
no_session = refl

has_admin : can_activate (some session) (some ("editor" ∷ "admin" ∷ [])) ≡ ok true
unfolding can_activate
has_admin = refl

no_role : can_activate (some session) (some []) ≡ err "Insufficient permissions"
unfolding can_activate
no_role = refl
