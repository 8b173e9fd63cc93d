-- ===== src/Opa.antt =====
-- smp-auth-ts/src/clients/opa.client.ts: the client of the policy server, its reading of an answer
-- and its cache of decisions. The server's answer to a request is an argument of the call.
pub mod Decision
pub mod Cache
pub mod Fresh
pub mod Runs
mod Tests
use anticipation.Base.{
  ℕ, ◌-◌, String, List, [], ◌∷◌, ◌++◌, Bool, true, false, ltb, length, if◌then◌else◌, Option, none,
  some, str_eq,
}
use anticipation.Base.Result.{Result, ok, err}
use anticipation.Base.JsMap.{map_get, map_set, map_delete}

-- A number by its sign, its decimal digits and its exponent.
pub record Number : Type 0 where
  pub negative : Bool
  pub digits : ℕ
  pub exponent : ℕ

mutual
  pub data Json : Type 0 where
    null : Json
    bool : Bool → Json
    num : Number → Json
    str : String → Json
    arr : Items → Json
    obj : Fields → Json

  pub data Items : Type 0 where
    no_item : Items
    item : Json → Items → Items

  pub data Fields : Type 0 where
    no_field : Fields
    field : String → Json → Fields → Fields

pub record OpaResult : Type 0 where
  pub allow : Bool
  pub reason : Option Json
  pub decision : Option Json
  pub evaluation : Option Json

unfoldable pub find_field : String → Fields → Option Json
find_field k no_field = none
find_field k (field j v fs) = if str_eq j k then some v else find_field k fs

-- v.k, where `none` is undefined.
abbrev pub member : String → Json → Option Json
member k (obj fs) = find_field k fs
member k null = none
member k (bool b) = none
member k (num n) = none
member k (str s) = none
member k (arr xs) = none

-- Boolean(v)
abbrev pub truthy : Json → Bool
truthy null = false
truthy (bool b) = b
truthy (num n) = ltb 0 n.digits
truthy (str s) = if str_eq s "" then false else true
truthy (arr xs) = true
truthy (obj fs) = true

-- A value that is defined and truthy.
abbrev pub if_truthy : Option Json → Option Json
if_truthy none = none
if_truthy (some v) = if truthy v then some v else none

-- `result.decision` if it is truthy, else `result`.
abbrev pub decision_or_self : Json → Json
decision_or_self r = elim (if_truthy (member "decision" r)) [ none ↦ r | some d ↦ d ]

-- The variable `result` of executePermissionCheck, undefined as `none`.
unfoldable pub extract_result : Json → Option Json
extract_result response =
    if truthy response
    then elim (if_truthy (member "result" response)) [
      | none ↦ none
      | some r ↦ some (decision_or_self r)
    ]
    else none

abbrev pub no_decision : OpaResult
no_decision = record {
  allow = false;
  reason = some (str "No decision returned by policy");
  decision = none;
  evaluation = none;
}

abbrev pub from_fields : Fields → Option Json → OpaResult
from_fields fs none = no_decision
from_fields fs (some allow) = record {
  allow = truthy allow;
  reason = find_field "reason" fs;
  decision = find_field "decision" fs;
  evaluation = find_field "evaluation" fs;
}

unfoldable pub normalise_result : Option Json → OpaResult
normalise_result (some (obj fs)) = from_fields fs (find_field "allow" fs)
normalise_result (some (bool b)) = record {
  allow = b;
  reason = none;
  decision = none;
  evaluation = none;
}
normalise_result _ = no_decision

-- executePermissionCheck, from the body of the server's response.
unfoldable pub read_decision : Json → OpaResult
unfolding extract_result normalise_result
read_decision response = normalise_result (extract_result response)

pub record CacheEntry : Type 0 where
  pub result : OpaResult
  pub timestamp : ℕ

abbrev pub Cache : Type 0
Cache = List (String × CacheEntry)

abbrev pub expiry_time : ℕ
expiry_time = 300000

abbrev pub max_results : ℕ
max_results = 1000

-- getCachedResult: the result, and the cache without the entry if that has expired.
unfoldable pub get_cached_result : String → ℕ → Cache → Option OpaResult × Cache
get_cached_result key now cache = elim (map_get key cache) [
  | none ↦ (none, cache)
  | some entry ↦
      if ltb expiry_time (now - entry.timestamp)
      then (none, map_delete key cache)
      else (some entry.result, cache)
]

-- Deletes the first key, if it is truthy.
abbrev pub drop_first : Cache → Cache
drop_first [] = []
drop_first ((k, e) ∷ cache) = if str_eq k "" then (k, e) ∷ cache else cache

abbrev pub shrink : Cache → Cache
shrink cache = if ltb max_results (length cache) then drop_first cache else cache

unfoldable pub set_cached_result : String → OpaResult → ℕ → Cache → Cache
set_cached_result key result now cache =
    shrink (map_set key (record { result = result; timestamp = now }) cache)

pub data Event : Type 0 where
  decision_made : String → OpaResult → Event
  error_occurred : String → Event

pub record Client : Type 0 where
  pub cache : Cache
  pub events : List Event

-- What the policy server's endpoint gives: the body of a response, or an error.
abbrev pub Answer : Type 0
Answer = Result String Json

-- The call when the cache has nothing: it asks the server.
ask : String → ℕ → Answer → Client → Result String OpaResult × Client
ask key now (err e) client =
    (err e, record client { events = client.events ++ error_occurred key ∷ [] })
ask key now (ok response) client =
    let result = read_decision response in
    (
      ok result,
      record client {
        cache = set_cached_result key result now client.cache;
        events = client.events ++ decision_made key result ∷ [];
      },
    )

answer_from : Option OpaResult → String → ℕ → Answer → Client → Result String OpaResult × Client
answer_from (some result) key now answer client = (ok result, client)
answer_from none key now answer client = ask key now answer client

-- checkPermission; `key` is the input in JSON and base64, `now` the clock of the call.
unfoldable pub check_permission : String → ℕ → Answer → Client → Result String OpaResult × Client
unfolding ask answer_from
check_permission key now answer client =
    let (cached, cache) = get_cached_result key now client.cache in
    answer_from cached key now answer (record client { cache = cache })

abbrev pub new_client : Client
new_client = record { cache = []; events = [] }
