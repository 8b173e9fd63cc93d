-- ===== src/RedisClient/Sessions/Runs.antt =====
-- Sequences of calls on the sessions: what getUserSessions finds and closeUserSessions leaves.
use anticipation.Base.{
  ℕ, ◌≡◌, ◌≢◌, refl, ◌⊎◌, ◌↔◌, inl, inr, String, List, [], ◌∷◌, Bool, true, false, Option, none,
  some, str_eq, if◌then◌else◌, arith, Bool-cases, eq_iff, sym, ◌∙◌, ap, eq_refl,
}
use anticipation.Redis.Laws.{Redis}
use anticipation.RedisClient.Sessions.{
  Session, Updates, SessionState, create_session, update_session, delete_session, get_user_sessions,
  close_user_sessions,
}
use anticipation.RedisClient.Sessions.Listing.{
  Listed, load_sessions-sessions, load_sessions_complete, load_sessions_sound,
}
use anticipation.RedisClient.Sessions.Closing.{names, delete_sessions-get}
use anticipation.RedisClient.Sessions.Index.{
  IsIndexed, IsFresh, KeepsOwner, create_session-IsIndexed, update_session-IsIndexed,
  delete_session-IsIndexed, get_user_sessions-IsIndexed, close_user_sessions-IsIndexed,
}

module _ (redis : Redis) where
  open redis use {Strings, get, members}

  -- A call of the client, or a step in which sessions expire.
  pub data Step : SessionState redis → SessionState redis → Type 0 where
    create :
        (up : Bool) (l : Session) {s : SessionState redis}
        → IsFresh redis l.session_id s
        → Step s (create_session redis up l s).1
    update :
        (up : Bool) (id : String) (updates : Updates) (now : ℕ) {s : SessionState redis}
        → KeepsOwner redis id updates s
        → Step s (update_session redis up id updates now s)
    delete :
        (up : Bool) (id : String) {s : SessionState redis} → Step s (delete_session redis up id s)
    enumerate :
        (up : Bool) (user : String) {s : SessionState redis}
        → Step s (get_user_sessions redis up user s).1
    close :
        (up : Bool) (user : String) {s : SessionState redis}
        → Step s (close_user_sessions redis up user s)
    expire :
        {s : SessionState redis} (t : Strings Session)
        → ((k : String) → (get Session k t ≡ get Session k s.sessions) ⊎ (get Session k t ≡ none))
        → Step s (record s { sessions = t })

  pub data Reach (s : SessionState redis) : SessionState redis → Type 0 where
    here : Reach s s
    next : {t u : SessionState redis} → Reach s t → Step t u → Reach s u

  expire-IsIndexed :
      (s : SessionState redis) (t : Strings Session)
      → ((k : String) → (get Session k t ≡ get Session k s.sessions) ⊎ (get Session k t ≡ none))
      → IsIndexed redis s
      → IsIndexed redis (record s { sessions = t })
  expire-IsIndexed s t fewer h = record {
    keyed = λ k l found. h.keyed k l (before k l found);
    listed = λ k l found. h.listed k l (before k l found);
    owned = λ k user l found named. h.owned k user l (before k l found) named;
  }
    where
      before :
          (k : String) (l : Session) → get Session k t ≡ some l → get Session k s.sessions ≡ some l
      before k l found = elim (fewer k) [ inl same ↦ sym same ∙ found | inr gone ↦ absurd cc ]

  Step-IsIndexed : {s t : SessionState redis} → Step s t → IsIndexed redis s → IsIndexed redis t
  Step-IsIndexed (create up l {s} fresh) h = create_session-IsIndexed redis up l s fresh h
  Step-IsIndexed (update up id updates now {s} same) h =
      update_session-IsIndexed redis up id updates now s same h
  Step-IsIndexed (delete up id {s}) h = delete_session-IsIndexed redis up id s h
  Step-IsIndexed (enumerate up user {s}) h = get_user_sessions-IsIndexed redis up user s h
  Step-IsIndexed (close up user {s}) h = close_user_sessions-IsIndexed redis up user s h
  Step-IsIndexed (expire {s} t fewer) h = expire-IsIndexed s t fewer h

  pub Reach-IsIndexed :
      {s t : SessionState redis} → Reach s t → IsIndexed redis s → IsIndexed redis t
  Reach-IsIndexed here h = h
  Reach-IsIndexed (next r st) h = Step-IsIndexed st (Reach-IsIndexed r h)

  -- After any sequence of calls, and whatever sessions expire, getUserSessions gives exactly the
  -- stored sessions of the user, if the index was right at the start, the connection is up for it,
  -- each session was created under an identifier that was neither stored nor in an index by then, and
  -- no update changed the identifier or the user of a stored session.
  pub get_user_sessions_iff :
      {s t : SessionState redis} (user : String) (l : Session)
      → IsIndexed redis s
      → Reach s t
      → Listed redis l (get_user_sessions redis true user t).0
        ↔ ((l.user_id ≡ user) × (get Session l.session_id t.sessions ≡ some l))
  unfolding get_user_sessions
  get_user_sessions_iff {s} {t} user l start run =
      let h = Reach-IsIndexed run start in
      (
        (λ seen.
            let (k, named, found) =
              load_sessions_sound redis user (members user t.by_user) t l seen in
            (
              h.owned k user l found named,
              ap (λ z. get Session z t.sessions) (h.keyed k l found) ∙ found,
            )),
        (λ (mine, found).
            load_sessions_complete redis user (members user t.by_user) l.session_id t l found
              (rw (← mine) (h.listed l.session_id l found))),
      )

  names-Listed :
      (k : String) (ls : List Session)
      → names redis k ls ≡ true
      → (m : Session) × Listed redis m ls × (m.session_id ≡ k)
  names-Listed k [] h = absurd cc
  names-Listed k (m ∷ ls) h = elim (Bool-cases (str_eq m.session_id k)) [
    | inl hit ↦ (m, inl refl, (eq_iff m.session_id k).0 hit)
    | inr miss ↦ let (n, seen, named) = names-Listed k ls (rw miss at h) in (n, inr seen, named)
  ]

  Listed-names :
      (l : Session) (ls : List Session) → Listed redis l ls → names redis l.session_id ls ≡ true
  Listed-names l [] h = absurd h
  Listed-names l (m ∷ ls) (inl e) = rw e (rw eq_refl refl)
  Listed-names l (m ∷ ls) (inr h) = ground (arith, Listed-names l ls h)

  not_true : ◌≡◌ {A = Bool} false true → ⊥
  not_true h = cc

  same_session : {o : Option Session} {a b : Session} → o ≡ some a → o ≡ some b → a ≡ b
  same_session {a = a} {b = b} p q = let both : some a ≡ some b = sym p ∙ q in cc

  -- No session of a user is left when closeUserSessions has run, and those of other users stay.
  pub close_user_sessions-get :
      {s t : SessionState redis} (user k : String) (l : Session)
      → IsIndexed redis s
      → Reach s t
      → (get Session k (close_user_sessions redis true user t).sessions ≡ some l)
        ↔ ((l.user_id ≢ user) × (get Session k t.sessions ≡ some l))
  unfolding close_user_sessions get_user_sessions
  close_user_sessions-get {s} {t} user k l start run = (
    (λ stays. elim (Bool-cases (names redis k found)) [
      | inl deleted ↦ let bad : none ≡ some l = rw (after, deleted) at stays in absurd cc
      | inr other ↦
          let stored : get Session k t.sessions ≡ some l = rw (after, other) at stays in
          (
            (λ mine. not_true (
                sym other
                ∙ ap (λ z. names redis z found) (sym (h.keyed k l stored))
                ∙ Listed-names l found (
                    (get_user_sessions_iff user l start run).1
                      (mine, ap (λ z. get Session z t.sessions) (h.keyed k l stored) ∙ stored)))),
            stored,
          )
    ]),
    (λ (others, stored). elim (Bool-cases (names redis k found)) [
      | inr other ↦ rw (after, other) stored
      | inl deleted ↦
          let (m, seen, named) = names-Listed k found deleted in
          let (mine, kept) = (get_user_sessions_iff user m start run).0 seen in
          absurd (
            others (
              ap (λ (n : Session). n.user_id)
                (same_session stored (sym (ap (λ z. get Session z t.sessions) named) ∙ kept))
              ∙ mine))
    ]),
  )
    where
      h : IsIndexed redis t
      h = Reach-IsIndexed run start

      found : List Session
      found = (get_user_sessions redis true user t).0

      after :
          get Session k (close_user_sessions redis true user t).sessions
          ≡ (if names redis k found then none else get Session k t.sessions)
      after =
          delete_sessions-get redis found k (get_user_sessions redis true user t).1
          ∙ ap (λ z. if names redis k found then none else get Session k z)
              (load_sessions-sessions redis user (members user t.by_user) t)
