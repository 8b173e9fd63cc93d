-- ===== src/Redis/Laws.antt =====
-- The commands of a Redis server and what its documentation says of them.
use mathlib.Core.Bool.{◌||◌, ◌&&◌, not}
use anticipation.Base.{ℕ, String, ◌≡◌, List, Bool, Option, none, some, str_eq, if◌then◌else◌, any}

abbrev pub contains : String → List String → Bool
contains x xs = any (λ y. str_eq y x) xs

pub record Redis : Type 1 where
  -- A keyspace of texts.
  pub Strings : Type 0 → Type 0
  -- GET; `none` is a missing or expired key.
  pub get : (V : Type 0) → String → Strings V → Option V
  -- SET, with EX where a time to live is given.
  pub set : (V : Type 0) → String → V → Option ℕ → Strings V → Strings V
  -- DEL
  pub del : (V : Type 0) → String → Strings V → Strings V
  -- A keyspace of sets.
  pub Sets : Type 0
  -- SMEMBERS, SADD, SREM
  pub members : String → Sets → List String
  pub add : String → String → Sets → Sets
  pub rem : String → String → Sets → Sets
  -- A command has taken effect when the next one runs at once, and touches no other key. What a time
  -- to live does later is in Redis/Expiry.
  pub get-set :
      (V : Type 0) (k j : String) (v : V) (ttl : Option ℕ) (s : Strings V)
      → get V j (set V k v ttl s) ≡ (if str_eq k j then some v else get V j s)
  pub get-del :
      (V : Type 0) (k j : String) (s : Strings V)
      → get V j (del V k s) ≡ (if str_eq k j then none else get V j s)
  pub members-add :
      (k j x y : String) (s : Sets)
      → contains y (members j (add k x s)) ≡ (contains y (members j s) || str_eq k j && str_eq x y)
  pub members-rem :
      (k j x y : String) (s : Sets)
      → contains y (members j (rem k x s))
        ≡ (contains y (members j s) && not (str_eq k j && str_eq x y))
