-- ===== src/Gateway/Composed/Tests.antt =====
-- A request through the gateway and the authentication service, on a Redis server in memory.
use anticipation.Base.{◌≡◌, refl, [], true, false, ◌⊎◌}
use anticipation.Base.Result.{ok, err}
use anticipation.Redis.Memory.{memory}
use anticipation.RedisClient.Cache.{get_cache, set_cache}
use anticipation.Opa.{
  check_permission as opa_check, get_cached_result, set_cached_result, read_decision, find_field,
}
use anticipation.Base.JsMap.{map_get, map_set, map_delete}
use anticipation.Gateway.{Check, is_present, did_resolve_operation}
use anticipation.Gateway.Access.{IsExempt, passes}
use anticipation.Gateway.Tests.{request}
use anticipation.Gateway.Composed.{resolve, check_of, IsBacked, IsPartial, resolve-provenance}
use anticipation.Auth.Tests.{options, keys, keyed, servers, empty, at, verdict}
use anticipation.Auth.Permission.{check_permission, check_permission_detailed}
use anticipation.Auth.Permission.Checks.{Reach}

abbrev silent : Check
silent token id kind action context = err "no token"

let_through :
    passes (resolve memory options keys silent (servers (ok (verdict true))) (at 0) empty request)
    ≡ true
unfolding did_resolve_operation check_of check_permission check_permission_detailed get_cache
    set_cache opa_check get_cached_result map_get map_set map_delete set_cached_result read_decision
    find_field
let_through = refl

kept_out :
    passes (resolve memory options keys silent (servers (ok (verdict false))) (at 0) empty request)
    ≡ false
unfolding did_resolve_operation check_of check_permission check_permission_detailed get_cache
    set_cache opa_check get_cached_result map_get map_set map_delete set_cached_result read_decision
    find_field
kept_out = refl

resolve-provenance_example :
    IsExempt request
    ⊎ ((is_present request.context_value.user_id ≡ true)
        × (IsBacked memory options keys [] (servers (ok (verdict true))) (at 0) request
            ⊎ IsPartial request))
resolve-provenance_example =
    resolve-provenance memory options keys keyed (Reach.start empty (λ k. refl) refl) silent
      (servers (ok (verdict true))) (at 0) request let_through
