-- ===== src/RedisClient/Sessions/Listing.antt =====
-- What getUserSessions finds, and what it does to the index.
use anticipation.Base.{
  ◌≡◌, refl, ◌⊎◌, inl, inr, String, List, [], ◌∷◌, true, Option, none, some, str_eq, Any, arith,
  Bool-cases, Option-cases, eq_iff, sym, ◌∙◌, ap, eq_refl,
}
use anticipation.Redis.Laws.{Redis, contains}
use anticipation.RedisClient.Sessions.{
  Session, SessionState, is_stored, push_session, prune, load_sessions,
}

module _ (redis : Redis) where
  open redis use {Strings, Sets, get, set, members, rem, members-rem}

  abbrev pub Listed : Session → List Session → Type 0
  Listed l ls = Any (λ m. m ≡ l) ls

  prune-sessions :
      (user id : String) (s : SessionState redis) → (prune redis user id s).sessions ≡ s.sessions
  unfolding prune
  prune-sessions user id s = elim (Bool-cases (is_stored (get Session id s.sessions))) [
    | inl stored ↦ rw stored
    | inr missing ↦ rw missing
  ]

  pub load_sessions-sessions :
      (user : String) (ids : List String) (s : SessionState redis)
      → (load_sessions redis user ids s).1.sessions ≡ s.sessions
  unfolding load_sessions
  load_sessions-sessions user [] s = refl
  load_sessions-sessions user (id ∷ ids) s =
      load_sessions-sessions user ids (prune redis user id s) ∙ prune-sessions user id s

  -- The index keeps each identifier that has a session.
  prune-listed :
      (user id j k : String) (s : SessionState redis) (l : Session)
      → get Session k s.sessions ≡ some l
      → contains k (members j s.by_user) ≡ true
      → contains k (members j (prune redis user id s).by_user) ≡ true
  unfolding prune
  prune-listed user id j k s l found listed = elim (Option-cases (get Session id s.sessions)) [
    | inr (m, stored) ↦ rw stored listed
    | inl missing ↦ elim (Bool-cases (str_eq id k)) [
      | inr miss ↦ rw (missing, is_stored) (ground (arith, members-rem user j id k s.by_user))
      | inl hit ↦ absurd (ground (arith, eq_iff id k, same id k ((eq_iff id k).0 hit)))
    ]
  ]
    where
      same : (id k : String) → id ≡ k → get Session id s.sessions ≡ get Session k s.sessions
      same id k e = ap (λ z. get Session z s.sessions) e

  -- Nothing comes into the index.
  prune-unlisted :
      (user id j k : String) (s : SessionState redis)
      → contains k (members j (prune redis user id s).by_user) ≡ true
      → contains k (members j s.by_user) ≡ true
  unfolding prune
  prune-unlisted user id j k s h = elim (Option-cases (get Session id s.sessions)) [
    | inr (m, stored) ↦ rw stored at h
    | inl missing ↦ ground (arith, members-rem user j id k s.by_user)
  ]

  pub load_sessions-listed :
      (user : String) (ids : List String) (j k : String) (s : SessionState redis) (l : Session)
      → get Session k s.sessions ≡ some l
      → contains k (members j s.by_user) ≡ true
      → contains k (members j (load_sessions redis user ids s).1.by_user) ≡ true
  unfolding load_sessions
  load_sessions-listed user [] j k s l found listed = listed
  load_sessions-listed user (id ∷ ids) j k s l found listed =
      load_sessions-listed user ids j k (prune redis user id s) l
        (ap (λ z. get Session k z) (prune-sessions user id s) ∙ found)
        (prune-listed user id j k s l found listed)

  pub load_sessions-unlisted :
      (user : String) (ids : List String) (j k : String) (s : SessionState redis)
      → contains k (members j (load_sessions redis user ids s).1.by_user) ≡ true
      → contains k (members j s.by_user) ≡ true
  unfolding load_sessions
  load_sessions-unlisted user [] j k s h = h
  load_sessions-unlisted user (id ∷ ids) j k s h =
      prune-unlisted user id j k s (load_sessions-unlisted user ids j k (prune redis user id s) h)

  Listed-push :
      (l : Session) (o : Option Session) (ls : List Session)
      → Listed l ls
      → Listed l (push_session o ls)
  Listed-push l none ls h = h
  Listed-push l (some m) ls h = inr h

  push-Listed :
      (l : Session) (o : Option Session) (ls : List Session)
      → Listed l (push_session o ls)
      → (o ≡ some l) ⊎ Listed l ls
  push-Listed l none ls h = inr h
  push-Listed l (some m) ls (inl e) = inl (ap some e)
  push-Listed l (some m) ls (inr h) = inr h

  -- Each session under one of the identifiers is found.
  pub load_sessions_complete :
      (user : String) (ids : List String) (k : String) (s : SessionState redis) (l : Session)
      → get Session k s.sessions ≡ some l
      → contains k ids ≡ true
      → Listed l (load_sessions redis user ids s).0
  unfolding load_sessions
  load_sessions_complete user [] k s l found listed = absurd cc
  load_sessions_complete user (id ∷ ids) k s l found listed = elim (Bool-cases (str_eq id k)) [
    | inl hit ↦ rw (ap (λ z. get Session z s.sessions) ((eq_iff id k).0 hit), found) (inl refl)
    | inr miss ↦
        let rest =
          load_sessions_complete user ids k (prune redis user id s) l
            (ap (λ z. get Session k z) (prune-sessions user id s) ∙ found) (rw miss at listed) in
        Listed-push l (get Session id s.sessions)
          (load_sessions redis user ids (prune redis user id s)).0 rest
  ]

  -- What is found is stored under one of the identifiers.
  pub load_sessions_sound :
      (user : String) (ids : List String) (s : SessionState redis) (l : Session)
      → Listed l (load_sessions redis user ids s).0
      → (k : String) × (contains k ids ≡ true) × (get Session k s.sessions ≡ some l)
  unfolding load_sessions
  load_sessions_sound user [] s l h = absurd h
  load_sessions_sound user (id ∷ ids) s l h =
      elim (push-Listed l (get Session id s.sessions)
        (load_sessions redis user ids (prune redis user id s)).0 h) [
          | inl here ↦ (id, rw eq_refl refl, here)
          | inr later ↦
              let (k, listed, found) =
                load_sessions_sound user ids (prune redis user id s) l later in
              (k, ground arith, sym (ap (λ z. get Session k z) (prune-sessions user id s)) ∙ found)
        ]
