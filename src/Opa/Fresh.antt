-- ===== src/Opa/Fresh.antt =====
-- The client of the policy server with an empty cache.
use anticipation.Base.{ℕ, ◌≡◌, refl, String, []}
use anticipation.Base.Result.{Result, ok, err}
use anticipation.Base.JsMap.{map_get}
use anticipation.Opa.{
  OpaResult, Answer, Client, read_decision, get_cached_result, ask, answer_from, check_permission,
}

-- What executePermissionCheck makes of an answer.
abbrev pub read_answer : Answer → Result String OpaResult
read_answer (ok response) = ok (read_decision response)
read_answer (err e) = err e

pub check_permission-fresh :
    (key : String) (now : ℕ) (answer : Answer) (client : Client)
    → client.cache ≡ []
    → (check_permission key now answer client).0 ≡ read_answer answer
unfolding check_permission ask answer_from get_cached_result map_get
check_permission-fresh key now (ok response) client empty = rw (empty, get_cached_result) refl
check_permission-fresh key now (err e) client empty = rw (empty, get_cached_result) refl
