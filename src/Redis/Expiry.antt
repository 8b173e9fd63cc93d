-- ===== src/Redis/Expiry.antt =====
-- Times to live of a Redis server: what its documentation says of keys that were set with EX, and a
-- server in memory on which they expire.
use anticipation.Base.{
  ℕ, ◌*◌, ◌-◌, String, List, ◌≡◌, refl, Option, none, some, str_eq, if◌then◌else◌, Bool, true, ltb,
  Bool-cases, inl, inr, eq_refl,
}
use anticipation.Redis.Laws.{Redis}
use anticipation.Redis.Memory.{write, insert, without, members_add, members_rem}

-- A key lives for its time in seconds, if it has one, when so many milliseconds have passed.
abbrev pub lives : Option ℕ → ℕ → Bool
lives none elapsed = true
lives (some seconds) elapsed = ltb elapsed (seconds * 1000)

pub record Expiry (redis : Redis) : Type 1 where
  -- The keyspace when so many milliseconds have passed, without a command.
  pub pass : (V : Type 0) → ℕ → redis.Strings V → redis.Strings V
  pub get-pass-set :
      (V : Type 0) (k : String) (v : V) (ttl : Option ℕ) (elapsed : ℕ) (s : redis.Strings V)
      → redis.get V k (pass V elapsed (redis.set V k v ttl s))
        ≡ (if lives ttl elapsed then some v else none)

abbrev pub value_of : {V : Type 0} → Option (V × Option ℕ) → Option V
value_of none = none
value_of (some (v, left)) = some v

abbrev pub millis : Option ℕ → Option ℕ
millis none = none
millis (some seconds) = some (seconds * 1000)

abbrev pub aged : {V : Type 0} → ℕ → Option (V × Option ℕ) → Option (V × Option ℕ)
aged elapsed none = none
aged elapsed (some (v, none)) = some (v, none)
aged elapsed (some (v, some left)) =
    if ltb elapsed left then some (v, some (left - elapsed)) else none

pub value_of-write :
    (V : Type 0) (k j : String) (e : Option (V × Option ℕ)) (s : String → Option (V × Option ℕ))
    → value_of (write k e s j) ≡ (if str_eq k j then value_of e else value_of (s j))
value_of-write V k j e s = elim (Bool-cases (str_eq k j)) [
  | inl hit ↦ rw hit refl
  | inr miss ↦ rw miss refl
]

pub value_of-aged :
    (V : Type 0) (v : V) (ttl : Option ℕ) (elapsed : ℕ)
    → value_of (aged elapsed (some (v, millis ttl))) ≡ (if lives ttl elapsed then some v else none)
value_of-aged V v none elapsed = refl
value_of-aged V v (some seconds) elapsed = elim (Bool-cases (ltb elapsed (seconds * 1000))) [
  | inl early ↦ rw early refl
  | inr late ↦ rw late refl
]

-- Each text has the milliseconds that are left to it.
abbrev pub timed : Redis
timed = record {
  Strings = λ V. String → Option (V × Option ℕ);
  get = λ V k s. value_of (s k);
  set = λ V k v ttl s. write k (some (v, millis ttl)) s;
  del = λ V k s. write k none s;
  Sets = String → List String;
  members = λ k s. s k;
  add = λ k x s. write k (insert x (s k)) s;
  rem = λ k x s. write k (without x (s k)) s;
  get-set = λ V k j v ttl s. value_of-write V k j (some (v, millis ttl)) s;
  get-del = λ V k j s. value_of-write V k j none s;
  members-add = members_add;
  members-rem = members_rem;
}

abbrev pub clock : Expiry timed
clock = record {
  pass = λ V elapsed s k. aged elapsed (s k);
  get-pass-set = λ V k v ttl elapsed s. rw (eq_refl k) (value_of-aged V v ttl elapsed);
}
