-- ===== src/RedisClient/Tests.antt =====
-- Runs of the Redis client's sessions and cache, on a server in memory.
use anticipation.Base.{◌≡◌, ◌↔◌, refl, [], ◌∷◌, true, none, some, ℕ}
use anticipation.Redis.Memory.{memory}
use anticipation.RedisClient.Sessions.{
  Session, SessionState, create_session, update_session, get_user_sessions, close_user_sessions,
}
use anticipation.RedisClient.Sessions.Listing.{Listed}
use anticipation.RedisClient.Sessions.Index.{IsIndexed, IsFresh}
use anticipation.RedisClient.Sessions.Runs.{Reach, create, here, next, get_user_sessions_iff}
use anticipation.RedisClient.Cache.{CacheState, get_cache, set_cache}

abbrev nothing : SessionState memory
nothing = record { sessions = λ k. none; by_user = λ k. [] }

abbrev laptop : Session
laptop = record {
  session_id = "s1";
  user_id = "ada";
  created_at = 5;
  last_activity = 5;
  expires_at = none;
  active = true;
  details = "{}";
}

nothing-IsIndexed : IsIndexed memory nothing
nothing-IsIndexed = record {
  keyed = λ k l found. absurd cc;
  listed = λ k l found. absurd cc;
  owned = λ k user l found named. absurd cc;
}

laptop-IsFresh : IsFresh memory "s1" nothing
laptop-IsFresh = record { not_stored = refl; not_listed = λ user. refl }

opened : Reach memory nothing (create_session memory true laptop nothing).1
opened = next here (create true laptop laptop-IsFresh)

get_user_sessions_iff_example :
    Listed memory laptop
      (get_user_sessions memory true "ada" (create_session memory true laptop nothing).1).0
    ↔ ((laptop.user_id ≡ "ada")
        × ((create_session memory true laptop nothing).1.sessions laptop.session_id ≡ some laptop))
get_user_sessions_iff_example = get_user_sessions_iff memory "ada" laptop nothing-IsIndexed opened

listed :
    (get_user_sessions memory true "ada" (create_session memory true laptop nothing).1).0
    ≡ laptop ∷ []
unfolding get_user_sessions create_session
listed = refl

closed :
    (get_user_sessions memory true "ada"
      (close_user_sessions memory true "ada" (create_session memory true laptop nothing).1)).0
    ≡ []
unfolding get_user_sessions create_session close_user_sessions
closed = refl

abbrev no_entries : CacheState memory ℕ
no_entries = record { entries = λ k. none; tags = λ k. [] }

served_for_an_hour :
    (get_cache memory true "k" 3600000 (set_cache memory true "k" 7 0 [] 0 no_entries).1).0 ≡ some 7
unfolding get_cache set_cache
served_for_an_hour = refl

not_longer :
    (get_cache memory true "k" 3600001 (set_cache memory true "k" 7 0 [] 0 no_entries).1).0 ≡ none
unfolding get_cache set_cache
not_longer = refl

-- An update may give a session to another user, whose index does not list it.
moved :
    (get_user_sessions memory true "bob" (
      update_session memory true "s1"
        (record {
          session_id = none;
          user_id = some "bob";
          created_at = none;
          expires_at = none;
          active = none;
          details = none;
        })
        9
        (create_session memory true laptop nothing).1)).0
    ≡ []
unfolding get_user_sessions create_session update_session
moved = refl
