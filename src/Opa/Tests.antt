-- ===== src/Opa/Tests.antt =====
-- Runs of the policy client, and its theorems at concrete answers.
use mathlib.Core.Bool.{false≢true}
use anticipation.Base.{◌≤◌, ◌≡◌, ◌≢◌, ◌↔◌, ◌⊎◌, refl, true, false, [], ◌∷◌, length, eq_iff}
use anticipation.Base.Result.{ok, err}
use anticipation.Base.JsMap.{map_get, map_set, map_delete}
use anticipation.Opa.{
  Json, bool, str, obj, field, no_field, Client, new_client, max_results, find_field, read_decision,
  get_cached_result, set_cached_result, check_permission,
}
use anticipation.Opa.Decision.{Grants, read_decision-allow_iff}
use anticipation.Opa.Runs.{
  Call, Reach, Answers, IsRecent, check_permission-bounded, check_permission-provenance,
}

-- { "result": { "allow": true, "reason": "owner" } }
abbrev owner : Json
owner = obj (
    field "result" (obj (field "allow" (bool true) (field "reason" (str "owner") no_field)))
      no_field)

read_decision-allow_iff_example : ((read_decision owner).allow ≡ true) ↔ Grants owner
read_decision-allow_iff_example = read_decision-allow_iff owner

owner_allowed : (read_decision owner).allow ≡ true
unfolding read_decision find_field
owner_allowed = refl

-- { "result": false }: the value is falsy, so the client says that there was no decision.
plain_refusal : (read_decision (obj (field "result" (bool false) no_field))).allow ≡ false
unfolding read_decision find_field
plain_refusal = refl

abbrev asked : Call
asked = record { key = "a2V5"; now = 1000; answer = ok owner }

asked_keyed : asked.key ≢ ""
asked_keyed p = false≢true ((eq_iff "a2V5" "").1 p)

abbrev after_asked : Client
after_asked = (check_permission "a2V5" 1000 (ok owner) new_client).1

reached : Reach (asked ∷ []) after_asked
reached = Reach.call Reach.start asked asked_keyed

check_permission-bounded_example : length after_asked.cache ≤ max_results
check_permission-bounded_example = check_permission-bounded reached

-- The server is down, and the cache still answers.
cached_answer :
    (check_permission "a2V5" 200000 (err "down") after_asked).0 ≡ ok (read_decision owner)
unfolding check_permission get_cached_result set_cached_result map_get map_set
cached_answer = refl

check_permission-provenance_example :
    Answers (err "down") (read_decision owner)
    ⊎ IsRecent (asked ∷ []) "a2V5" 200000 (read_decision owner)
check_permission-provenance_example =
    check_permission-provenance reached "a2V5" 200000 (err "down") (read_decision owner)
      cached_answer

expired_answer : (check_permission "a2V5" 301001 (err "down") after_asked).0 ≡ err "down"
unfolding check_permission get_cached_result set_cached_result map_get map_set map_delete
expired_answer = refl
