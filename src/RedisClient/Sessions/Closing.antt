-- ===== src/RedisClient/Sessions/Closing.antt =====
-- What deleteSession and closeUserSessions leave.
use anticipation.Base.{
  ◌≡◌, refl, inl, inr, String, List, [], ◌∷◌, Bool, true, none, str_eq, if◌then◌else◌, arith,
  Bool-cases, Option-cases, eq_iff, sym, ◌∙◌, ap, any,
}
use anticipation.Redis.Laws.{Redis}
use anticipation.RedisClient.Sessions.{Session, SessionState, delete_session, delete_sessions}

module _ (redis : Redis) where
  open redis use {Strings, get, del, get-del}

  pub delete_session-get :
      (id k : String) (s : SessionState redis)
      → get Session k (delete_session redis true id s).sessions
        ≡ (if str_eq id k then none else get Session k s.sessions)
  unfolding delete_session
  delete_session-get id k s = elim (Option-cases (get Session id s.sessions)) [
    | inr (l, found) ↦ rw found (get-del Session id k s.sessions)
    | inl missing ↦ elim (Bool-cases (str_eq id k)) [
      | inr miss ↦ rw (missing, miss) refl
      | inl hit ↦
          rw (missing, hit)
            (ap (λ z. get Session z s.sessions) (sym ((eq_iff id k).0 hit)) ∙ missing)
    ]
  ]

  abbrev pub names : String → List Session → Bool
  names k ls = any (λ l. str_eq l.session_id k) ls

  pub delete_sessions-get :
      (ls : List Session) (k : String) (s : SessionState redis)
      → get Session k (delete_sessions redis true ls s).sessions
        ≡ (if names k ls then none else get Session k s.sessions)
  unfolding delete_sessions
  delete_sessions-get [] k s = refl
  delete_sessions-get (l ∷ ls) k s = ground (
    arith,
    delete_sessions-get ls k (delete_session redis true l.session_id s),
    delete_session-get l.session_id k s,
  )
