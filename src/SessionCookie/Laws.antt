-- ===== src/SessionCookie/Laws.antt =====
-- What mu-auth/src/session/session.service.ts makes of a cookie.
use anticipation.Base.{
  ℕ, ◌+◌, ◌≡◌, ◌≤◌, ◌↔◌, refl, sym, String, if◌then◌else◌, false, none, some, ltb, arith, eq_refl,
  Bool-cases, inl, inr,
}
use anticipation.Base.Result.{ok, err, Result-cases}
use anticipation.SessionCookie.{
  SessionData, CookieData, UserInfo, Crypto, Users, session_ttl, bind, recover, if_known,
  create_signature, encrypt_session_to_cookie, check_cookie_data, decrypt_cookie_to_session,
  check_session, validate_session,
}

abbrev pub IsKnown : Users → String → Type 0
IsKnown users user = (info : UserInfo) × (users user ≡ ok (some info))

if_known_iff :
    (users : Users) (s d : SessionData)
    → (recover (bind (users s.user_id) (λ info. ok (if_known s info))) ≡ some d)
      ↔ ((d ≡ s) × IsKnown users s.user_id)
if_known_iff users s d = elim (Result-cases (users s.user_id)) [
  | inl (some info, known) ↦ rw known ((λ h. (sym cc, (info, refl))), (λ h. sym cc))
  | inl (none, unknown) ↦ rw unknown ((λ h. absurd cc), (λ (e, (info, h)). absurd cc))
  | inr (e, failed) ↦ rw failed ((λ h. absurd cc), (λ (e, (info, h)). absurd cc))
]

check_session_iff :
    (users : Users) (s d : SessionData) (now : ℕ)
    → (recover (check_session users now s) ≡ some d)
      ↔ ((now ≤ s.last_activity + session_ttl) × ((d ≡ s) × IsKnown users s.user_id))
unfolding check_session
check_session_iff users s d now = elim (Bool-cases (ltb (s.last_activity + session_ttl) now)) [
  | inl late ↦ rw late ((λ h. absurd cc), (λ (soon, h). absurd (ground arith)))
  | inr soon ↦ rw soon (
    (λ h. (ground arith, (if_known_iff users s d).0 h)),
    (λ (le, h). (if_known_iff users s d).1 h),
  )
]

module _ (crypto : Crypto) (secret : String) where
  decrypt-encrypt_session :
      (s : SessionData) (made now : ℕ) (iv : String)
      → decrypt_cookie_to_session crypto secret
          (encrypt_session_to_cookie crypto secret s made iv)
          now
        ≡ (if ltb (made + session_ttl) now then err "Session decryption failed" else ok s)
  unfolding decrypt_cookie_to_session encrypt_session_to_cookie check_cookie_data
  decrypt-encrypt_session s made now iv =
      let content : CookieData = record {
        session = s;
        signature = create_signature crypto secret s;
        expires = made + session_ttl;
      } in
      rw (crypto.decode-encode (crypto.encrypt secret iv content)) (
        rw (crypto.decrypt-encrypt secret iv content) (
          rw (eq_refl (create_signature crypto secret s))
            (elim (Bool-cases (ltb (made + session_ttl) now)) [
              | inl late ↦ rw late refl
              | inr soon ↦ rw soon refl
            ])))

  pub is_empty-encrypt :
      (s : SessionData) (made : ℕ) (iv : String)
      → crypto.is_empty (encrypt_session_to_cookie crypto secret s made iv) ≡ false
  unfolding encrypt_session_to_cookie
  is_empty-encrypt s made iv = crypto.is_empty-encode _

  -- A cookie that the service made is taken for 24 hours, while its user is known, for the session
  -- that it was made of.
  pub validate-encrypt_iff :
      (users : Users) (s d : SessionData) (iv : String) (now : ℕ)
      → (validate_session crypto secret users
            (encrypt_session_to_cookie crypto secret s s.last_activity iv)
            now
          ≡ some d)
        ↔ ((now ≤ s.last_activity + session_ttl) × ((d ≡ s) × IsKnown users s.user_id))
  unfolding validate_session
  validate-encrypt_iff users s d iv now = rw (is_empty-encrypt s s.last_activity iv) (
      rw (decrypt-encrypt_session s s.last_activity now iv)
        (elim (Bool-cases (ltb (s.last_activity + session_ttl) now)) [
          | inl late ↦ rw late ((λ h. absurd cc), (λ (soon, h). absurd (ground arith)))
          | inr soon ↦ rw soon (check_session_iff users s d now)
        ]))
