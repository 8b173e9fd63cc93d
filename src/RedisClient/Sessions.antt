-- ===== src/RedisClient/Sessions.antt =====
-- The sessions of users in smp-auth-ts/src/clients/redis.client.ts, and closeUserSessions of
-- smp-auth-ts/src/services/auth.service.ts, which deletes them.
pub mod Listing
pub mod Closing
pub mod Index
pub mod Runs
use anticipation.Base.{
  ℕ, String, List, [], ◌∷◌, Bool, true, false, Option, none, some, if◌then◌else◌,
}
use anticipation.Base.Result.{Result, ok, err}
use anticipation.Redis.Laws.{Redis}
use anticipation.RedisClient.Cache.{Down, redis_down}

pub record Session : Type 0 where
  pub session_id : String
  pub user_id : String
  pub created_at : ℕ
  pub last_activity : ℕ
  pub expires_at : Option ℕ
  pub active : Bool
  -- loginMethod, ip, userAgent and metadata, in JSON.
  pub details : String

-- The fields that updateSession is given; the time of the last activity is overwritten.
pub record Updates : Type 0 where
  pub session_id : Option String
  pub user_id : Option String
  pub created_at : Option ℕ
  pub expires_at : Option ℕ
  pub active : Option Bool
  pub details : Option String

abbrev pub or_kept : {A : Type 0} → Option A → A → A
or_kept none kept = kept
or_kept (some new) kept = new

abbrev pub or_time : Option ℕ → Option ℕ → Option ℕ
or_time none kept = kept
or_time (some t) kept = some t

abbrev pub updated : Updates → ℕ → Session → Session
updated u now l = record l {
  session_id = or_kept u.session_id l.session_id;
  user_id = or_kept u.user_id l.user_id;
  created_at = or_kept u.created_at l.created_at;
  expires_at = or_time u.expires_at l.expires_at;
  active = or_kept u.active l.active;
  details = or_kept u.details l.details;
  last_activity = now;
}

abbrev pub is_stored : Option Session → Bool
is_stored none = false
is_stored (some l) = true

abbrev pub push_session : Option Session → List Session → List Session
push_session none ls = ls
push_session (some l) ls = l ∷ ls

module _ (redis : Redis) where
  open redis use {Strings, Sets, get, set, del, members, add, rem}

  pub record SessionState : Type 0 where
    -- session:${id}
    pub sessions : Strings Session
    -- user:sessions:${user}
    pub by_user : Sets

  -- createSession; `l` has the time of the call in `created_at` and `last_activity`.
  unfoldable pub create_session : Bool → Session → SessionState → Result Down String × SessionState
  create_session true l s = (
    ok l.session_id,
    record s {
      sessions = set Session l.session_id l (some 86400) s.sessions;
      by_user = add l.user_id l.session_id s.by_user;
    },
  )
  create_session false l s = (err redis_down, s)

  -- getSession: an error gives nothing.
  abbrev pub get_session : Bool → String → SessionState → Option Session
  get_session up id s = if up then get Session id s.sessions else none

  unfoldable pub update_found : String → Updates → ℕ → Option Session → SessionState → SessionState
  update_found id updates now none s = s
  update_found id updates now (some l) s = record s {
    sessions = set Session id (updated updates now l) (some 86400) s.sessions;
  }

  unfoldable pub update_session : Bool → String → Updates → ℕ → SessionState → SessionState
  unfolding update_found
  update_session up id updates now s = update_found id updates now (get_session up id s) s

  unfoldable pub delete_found : String → Option Session → SessionState → SessionState
  delete_found id none s = s
  delete_found id (some l) s = record s {
    sessions = del Session id s.sessions;
    by_user = rem l.user_id id s.by_user;
  }

  unfoldable pub delete_session : Bool → String → SessionState → SessionState
  unfolding delete_found
  delete_session up id s = delete_found id (get_session up id s) s

  -- An identifier without a session leaves the index.
  unfoldable pub prune : String → String → SessionState → SessionState
  prune user id s =
      if is_stored (get Session id s.sessions)
      then s
      else record s { by_user = rem user id s.by_user }

  unfoldable pub load_sessions : String → List String → SessionState → List Session × SessionState
  unfolding prune
  load_sessions user [] s = ([], s)
  load_sessions user (id ∷ ids) s =
      let (rest, after) = load_sessions user ids (prune user id s) in
      (push_session (get Session id s.sessions) rest, after)

  unfoldable pub get_user_sessions : Bool → String → SessionState → List Session × SessionState
  unfolding load_sessions
  get_user_sessions true user s = load_sessions user (members user s.by_user) s
  get_user_sessions false user s = ([], s)

  unfoldable pub delete_sessions : Bool → List Session → SessionState → SessionState
  unfolding delete_session
  delete_sessions up [] s = s
  delete_sessions up (l ∷ ls) s = delete_sessions up ls (delete_session up l.session_id s)

  -- closeUserSessions, with session tracking on.
  unfoldable pub close_user_sessions : Bool → String → SessionState → SessionState
  unfolding get_user_sessions delete_sessions
  close_user_sessions up user s =
      let (found, after) = get_user_sessions up user s in delete_sessions up found after
