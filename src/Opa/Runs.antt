-- ===== src/Opa/Runs.antt =====
-- What holds of the client after any sequence of calls.
use anticipation.Base.{
  ℕ, ◌+◌, ◌≤◌, ◌≡◌, ◌≢◌, refl, String, [], ◌∷◌, List, Option, none, some, arith, length, All, Any,
  Option-cases, inl, inr, ◌⊎◌, subst, ◌∙◌,
}
use anticipation.Base.Result.{Result, ok, err}
use anticipation.Base.JsMap.{All-map_get}
use anticipation.Opa.{
  Json, OpaResult, CacheEntry, Cache, Answer, Client, new_client, max_results, expiry_time,
  get_cached_result, read_decision, ask, answer_from, check_permission,
}
use anticipation.Opa.Cache.{
  HasKeys, set_cached_result-bounded, All-set_cached_result, All-get_cached_result,
  get_cached_result-bounded, get_cached_result-hit,
}

pub record Call : Type 0 where
  pub key : String
  pub now : ℕ
  pub answer : Answer

-- The server answered the call with a response that reads as `r`.
abbrev pub Answers : Answer → OpaResult → Type 0
Answers answer r = (response : Json) × (answer ≡ ok response) × (read_decision response ≡ r)

-- The clients that a sequence of calls, newest first, leads to.
pub data Reach : List Call → Client → Type 0 where
  start : Reach [] new_client
  call :
      {calls : List Call} {client : Client}
      → Reach calls client
      → (c : Call) → c.key ≢ ""
      → Reach (c ∷ calls) (check_permission c.key c.now c.answer client).1

-- The entry was written by one of the calls.
abbrev IsSource : String × CacheEntry → Call → Type 0
IsSource (k, e) c = (c.key ≡ k) × (c.now ≡ e.timestamp) × Answers c.answer e.result

abbrev Sourced : List Call → String × CacheEntry → Type 0
Sourced calls entry = Any (IsSource entry) calls

record Inv (calls : List Call) (client : Client) : Type 0 where
  keyed : HasKeys client.cache
  bounded : length client.cache ≤ max_results
  sourced : All (Sourced calls) client.cache

All-map :
    {P Q : String × CacheEntry → Type 0} (f : (e : String × CacheEntry) → P e → Q e) (cache : Cache)
    → All P cache
    → All Q cache
All-map f [] h = tt
All-map f (e ∷ cache) (p, h) = (f e p, All-map f cache h)

later :
    (c : Call) (calls : List Call) (cache : Cache)
    → All (Sourced calls) cache
    → All (Sourced (c ∷ calls)) cache
later c calls cache h = All-map (λ e p. inr p) cache h

ask-Inv :
    (calls : List Call) (client : Client) (key : String) (now : ℕ) (answer : Answer)
    → key ≢ ""
    → Inv calls client
    → Inv (record { key = key; now = now; answer = answer } ∷ calls) (ask key now answer client).1
unfolding ask
ask-Inv calls client key now (err e) ne v = record {
  keyed = v.keyed;
  bounded = v.bounded;
  sourced = later _ calls client.cache v.sourced;
}
ask-Inv calls client key now (ok response) ne v =
    let r = read_decision response in
    record {
      keyed = All-set_cached_result (λ e. e.0 ≢ "") key r now client.cache v.keyed ne;
      bounded = set_cached_result-bounded key r now client.cache ne v.keyed v.bounded;
      sourced =
          All-set_cached_result
            (Sourced (record { key = key; now = now; answer = ok response } ∷ calls)) key r now
            client.cache (later _ calls client.cache v.sourced)
            (inl (refl, refl, (response, refl, refl)));
    }

answer_from-Inv :
    (calls : List Call) (client : Client) (cached : Option OpaResult) (c : Call)
    → c.key ≢ ""
    → Inv calls client
    → Inv (c ∷ calls) (answer_from cached c.key c.now c.answer client).1
unfolding answer_from
answer_from-Inv calls client (some r) c ne v = record {
  keyed = v.keyed;
  bounded = v.bounded;
  sourced = later c calls client.cache v.sourced;
}
answer_from-Inv calls client none c ne v = ask-Inv calls client c.key c.now c.answer ne v

get-Inv :
    (calls : List Call) (client : Client) (key : String) (now : ℕ)
    → Inv calls client
    → Inv calls (record client { cache = (get_cached_result key now client.cache).1 })
get-Inv calls client key now v = record {
  keyed = All-get_cached_result (λ e. e.0 ≢ "") key now client.cache v.keyed;
  bounded = omega (arith, v.bounded, get_cached_result-bounded key now client.cache);
  sourced = All-get_cached_result (Sourced calls) key now client.cache v.sourced;
}

Reach-Inv : {calls : List Call} {client : Client} → Reach calls client → Inv calls client
unfolding check_permission
Reach-Inv start = record { keyed = tt; bounded = omega arith; sourced = tt }
Reach-Inv (call {calls} {client} r c ne) =
    answer_from-Inv calls _ _ c ne (get-Inv calls client c.key c.now (Reach-Inv r))

-- After any sequence of calls whose keys are not empty the cache holds at most 1000 decisions.
pub check_permission-bounded :
    {calls : List Call} {client : Client} → Reach calls client → length client.cache ≤ max_results
check_permission-bounded r = (Reach-Inv r).bounded

-- The server answered an earlier call under this key, at most five minutes before `now`, with `r`.
abbrev pub IsRecent : List Call → String → ℕ → OpaResult → Type 0
IsRecent calls key now r =
    Any (λ c. (c.key ≡ key) × (now ≤ c.now + expiry_time) × Answers c.answer r) calls

recent :
    (calls : List Call) (key : String) (now : ℕ) (e : CacheEntry)
    → now ≤ e.timestamp + expiry_time
    → Sourced calls (key, e)
    → IsRecent calls key now e.result
recent [] key now e h s = absurd s
recent (c ∷ calls) key now e h (inl (k, t, a)) = inl (k, omega (arith, t), a)
recent (c ∷ calls) key now e h (inr s) = inr (recent calls key now e h s)

ok_injective : {r s : OpaResult} → ◌≡◌ {A = Result String OpaResult} (ok r) (ok s) → r ≡ s
ok_injective e = cc

ask-Answers :
    (key : String) (now : ℕ) (answer : Answer) (client : Client) (r : OpaResult)
    → (ask key now answer client).0 ≡ ok r
    → Answers answer r
unfolding ask
ask-Answers key now (ok response) client r e = (response, refl, ok_injective e)
ask-Answers key now (err m) client r e = cc

-- After any sequence of calls, a decision that the client returns is the server's answer to this
-- call or its answer to an earlier call under the same key, at most five minutes old.
pub check_permission-provenance :
    {calls : List Call} {client : Client}
    → Reach calls client
    → (key : String) (now : ℕ) (answer : Answer) (r : OpaResult)
    → (check_permission key now answer client).0 ≡ ok r
    → Answers answer r ⊎ IsRecent calls key now r
unfolding check_permission
check_permission-provenance {calls} {client} reach key now answer r h =
    elim (Option-cases (get_cached_result key now client.cache).0) [
      | inl miss ↦ inl (ask-Answers key now answer _ r (rw (miss, answer_from) at h))
      | inr (r', hit) ↦
          let (e, found, same, fresh, kept) = get_cached_result-hit key now client.cache r' hit in
          let source =
            All-map_get (Sourced calls) key client.cache (Reach-Inv reach).sourced found in
          inr (
            subst (IsRecent calls key now) (same ∙ ok_injective (rw (hit, answer_from) at h))
              (recent calls key now e fresh source))
    ]
