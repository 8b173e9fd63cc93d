-- ===== src/RedisClient/Sessions/Index.antt =====
-- The index of a user's sessions is right after any sequence of calls.
use anticipation.Base.{
  ℕ, ◌≡◌, ◌⊎◌, inl, inr, String, List, [], ◌∷◌, Bool, true, false, Option, none, some, str_eq,
  arith, Bool-cases, Option-cases, eq_iff, sym, ◌∙◌, ap, eq_refl,
}
use anticipation.Redis.Laws.{Redis, contains}
use anticipation.RedisClient.Sessions.{
  Session, Updates, or_kept, updated, SessionState, create_session, update_session, update_found,
  delete_session, delete_found, delete_sessions, get_user_sessions, close_user_sessions,
}
use anticipation.RedisClient.Sessions.Listing.{
  load_sessions-sessions, load_sessions-listed, load_sessions-unlisted,
}

module _ (redis : Redis) where
  open redis use {Strings, Sets, get, set, members, del, get-set, get-del, members-add, members-rem}

  -- Each session stands under its identifier, is listed for its user, and for no other.
  pub record IsIndexed (s : SessionState redis) : Type 0 where
    pub keyed : (k : String) (l : Session) → get Session k s.sessions ≡ some l → l.session_id ≡ k
    pub listed :
        (k : String) (l : Session)
        → get Session k s.sessions ≡ some l
        → contains k (members l.user_id s.by_user) ≡ true
    pub owned :
        (k user : String) (l : Session)
        → get Session k s.sessions ≡ some l
        → contains k (members user s.by_user) ≡ true
        → l.user_id ≡ user

  -- Nothing is left of an identifier.
  pub record IsFresh (id : String) (s : SessionState redis) : Type 0 where
    pub not_stored : get Session id s.sessions ≡ none
    pub not_listed : (user : String) → contains id (members user s.by_user) ≡ false

  -- The updates of a stored session keep its identifier and its user.
  abbrev pub KeepsOwner : String → Updates → SessionState redis → Type 0
  KeepsOwner id updates s =
      (l : Session)
      → get Session id s.sessions ≡ some l
      → (or_kept updates.session_id l.session_id ≡ l.session_id)
        × (or_kept updates.user_id l.user_id ≡ l.user_id)

  same_session : {o : Option Session} {a b : Session} → o ≡ some a → o ≡ some b → a ≡ b
  same_session {a = a} {b = b} p q = let both : some a ≡ some b = sym p ∙ q in cc

  -- Whose session stands where one was stored.
  set-cases :
      (id k : String) (l m : Session) (ttl : Option ℕ) (t : Strings Session)
      → get Session k (set Session id l ttl t) ≡ some m
      → ((id ≡ k) × (l ≡ m)) ⊎ ((str_eq id k ≡ false) × (get Session k t ≡ some m))
  set-cases id k l m ttl t h = elim (Bool-cases (str_eq id k)) [
    | inl hit ↦ let e : some l ≡ some m = rw (get-set, hit) at h in inl ((eq_iff id k).0 hit, cc)
    | inr miss ↦ inr (miss, rw (get-set, miss) at h)
  ]

  pub create_session-IsIndexed :
      (up : Bool) (l : Session) (s : SessionState redis)
      → IsFresh l.session_id s
      → IsIndexed s
      → IsIndexed (create_session redis up l s).1
  unfolding create_session
  create_session-IsIndexed false l s fresh h = h
  create_session-IsIndexed true l s fresh h = record {
    keyed = λ k m found. elim (set-cases l.session_id k l m (some 86400) s.sessions found) [
      | inl (hit, e) ↦ ap (λ (n : Session). n.session_id) (sym e) ∙ hit
      | inr (miss, before) ↦ h.keyed k m before
    ];
    listed = λ k m found. elim (set-cases l.session_id k l m (some 86400) s.sessions found) [
      | inl (hit, e) ↦ rw (← e, ← hit) (named l.user_id l.session_id s.by_user)
      | inr (miss, before) ↦
          ground
            (arith, members-add l.user_id m.user_id l.session_id k s.by_user, h.listed k m before)
    ];
    owned = λ k user m found named.
        elim (set-cases l.session_id k l m (some 86400) s.sessions found) [
          | inl (hit, e) ↦
              ap (λ (n : Session). n.user_id) (sym e)
              ∙ new_owner l user s fresh (rw (← hit) at named)
          | inr (miss, before) ↦
              h.owned k user m before
                (ground (arith, members-add l.user_id user l.session_id k s.by_user))
        ];
  }
    where
      named :
          (user id : String) (t : Sets) → contains id (members user (redis.add user id t)) ≡ true
      named user id t = ground (arith, members-add user user id id t, eq_refl user, eq_refl id)

      new_owner :
          (l : Session) (user : String) (s : SessionState redis)
          → IsFresh l.session_id s
          → contains l.session_id (members user (redis.add l.user_id l.session_id s.by_user)) ≡ true
          → l.user_id ≡ user
      new_owner l user s fresh named = ground (
        arith,
        members-add l.user_id user l.session_id l.session_id s.by_user,
        fresh.not_listed user,
        eq_iff l.user_id user,
      )

  pub update_session-IsIndexed :
      (up : Bool) (id : String) (updates : Updates) (now : ℕ) (s : SessionState redis)
      → KeepsOwner id updates s
      → IsIndexed s
      → IsIndexed (update_session redis up id updates now s)
  unfolding update_session update_found
  update_session-IsIndexed false id updates now s same h = h
  update_session-IsIndexed true id updates now s same h =
      elim (Option-cases (get Session id s.sessions)) [
        | inl missing ↦ rw missing h
        | inr (l, stored) ↦ rw stored (kept l stored)
      ]
    where
      kept :
          (l : Session)
          → get Session id s.sessions ≡ some l
          → IsIndexed (record s {
            sessions = set Session id (updated updates now l) (some 86400) s.sessions;
          })
      kept l stored = record {
        keyed = λ k m found.
            elim (set-cases id k (updated updates now l) m (some 86400) s.sessions found) [
              | inl (hit, e) ↦
                  ap (λ (n : Session). n.session_id) (sym e)
                  ∙ (same l stored).0
                  ∙ h.keyed id l stored
                  ∙ hit
              | inr (miss, before) ↦ h.keyed k m before
            ];
        listed = λ k m found.
            elim (set-cases id k (updated updates now l) m (some 86400) s.sessions found) [
              | inl (hit, e) ↦ rw (← hit, ← e, (same l stored).1) (h.listed id l stored)
              | inr (miss, before) ↦ h.listed k m before
            ];
        owned = λ k user m found named.
            elim (set-cases id k (updated updates now l) m (some 86400) s.sessions found) [
              | inl (hit, e) ↦
                  ap (λ (n : Session). n.user_id) (sym e)
                  ∙ (same l stored).1
                  ∙ h.owned id user l stored (rw (← hit) at named)
              | inr (miss, before) ↦ h.owned k user m before named
            ];
      }

  pub delete_session-IsIndexed :
      (up : Bool) (id : String) (s : SessionState redis)
      → IsIndexed s
      → IsIndexed (delete_session redis up id s)
  unfolding delete_session delete_found
  delete_session-IsIndexed false id s h = h
  delete_session-IsIndexed true id s h = elim (Option-cases (get Session id s.sessions)) [
    | inl missing ↦ rw missing h
    | inr (l, stored) ↦ rw stored (kept l)
  ]
    where
      before :
          (k : String) (m : Session)
          → get Session k (del Session id s.sessions) ≡ some m
          → (str_eq id k ≡ false) × (get Session k s.sessions ≡ some m)
      before k m found = elim (Bool-cases (str_eq id k)) [
        | inl hit ↦ let bad : none ≡ some m = rw (get-del, hit) at found in absurd cc
        | inr miss ↦ (miss, rw (get-del, miss) at found)
      ]

      kept :
          (l : Session)
          → IsIndexed (record s {
            sessions = del Session id s.sessions;
            by_user = redis.rem l.user_id id s.by_user;
          })
      kept l = record {
        keyed = λ k m found. h.keyed k m (before k m found).1;
        listed = λ k m found. ground (
          arith,
          members-rem l.user_id m.user_id id k s.by_user,
          h.listed k m (before k m found).1,
          before k m found,
        );
        owned = λ k user m found named.
            h.owned k user m (before k m found).1
              (ground (arith, members-rem l.user_id user id k s.by_user));
      }

  pub get_user_sessions-IsIndexed :
      (up : Bool) (user : String) (s : SessionState redis)
      → IsIndexed s
      → IsIndexed (get_user_sessions redis up user s).1
  unfolding get_user_sessions
  get_user_sessions-IsIndexed false user s h = h
  get_user_sessions-IsIndexed true user s h = record {
    keyed = λ k l found. h.keyed k l (rw load_sessions-sessions at found);
    listed = λ k l found.
        let before : get Session k s.sessions ≡ some l = rw load_sessions-sessions at found in
        load_sessions-listed redis user (members user s.by_user) l.user_id k s l before
          (h.listed k l before);
    owned = λ k u l found named.
        h.owned k u l (rw load_sessions-sessions at found)
          (load_sessions-unlisted redis user (members user s.by_user) u k s named);
  }

  delete_sessions-IsIndexed :
      (up : Bool) (ls : List Session) (s : SessionState redis)
      → IsIndexed s
      → IsIndexed (delete_sessions redis up ls s)
  unfolding delete_sessions
  delete_sessions-IsIndexed up [] s h = h
  delete_sessions-IsIndexed up (l ∷ ls) s h =
      delete_sessions-IsIndexed up ls (delete_session redis up l.session_id s)
        (delete_session-IsIndexed up l.session_id s h)

  pub close_user_sessions-IsIndexed :
      (up : Bool) (user : String) (s : SessionState redis)
      → IsIndexed s
      → IsIndexed (close_user_sessions redis up user s)
  unfolding close_user_sessions
  close_user_sessions-IsIndexed up user s h =
      delete_sessions-IsIndexed up (get_user_sessions redis up user s).0
        (get_user_sessions redis up user s).1 (get_user_sessions-IsIndexed up user s h)
