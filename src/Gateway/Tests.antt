-- ===== src/Gateway/Tests.antt =====
-- Requests through the authorization plugin of the gateway.
use anticipation.Base.{◌≡◌, refl, [], ◌∷◌, true, false, none, some, ◌⊎◌, ◌↔◌, str_eq}
use anticipation.Base.Result.{ok, err}
use anticipation.Base.JsMap.{map_get}
use anticipation.Gateway.Resource.{
  query, literal, object, entry, no_more, Selection, find_argument, extract_resource_info,
  mapping_for, from_arguments, from_input, listed,
}
use anticipation.Gateway.{
  token_of, RequestContext, ContextValue, Check, is_present, did_resolve_operation,
  is_introspection_query, is_public_operation, is_public_name,
}
use anticipation.Gateway.Access.{
  IsExempt, question, passes, with_fields, IsExempt-iff, did_resolve_operation-passes_iff,
  did_resolve_operation-first,
}

abbrev nobody : ContextValue
nobody = record {
  user_id = none;
  user_organizations = [];
  client_ip = none;
  trace_id = none;
  user_agent = none;
  authorization = none;
  gateway_source = none;
}

abbrev ada : ContextValue
ada = record nobody { user_id = some "ada"; authorization = some "Bearer t1" }

abbrev get_user : Selection
get_user = record { name = some "getUser"; arguments = some (("id", literal "u7") ∷ []) }

abbrev delete_user : Selection
delete_user = record { name = some "deleteUser"; arguments = some (("id", literal "u8") ∷ []) }

abbrev pub request : RequestContext
request = record {
  operation = record { kind = query; selections = get_user ∷ [] };
  operation_name = some "Profile";
  query_text = some "query Profile { getUser(id: \"u7\") { name } }";
  context_value = ada;
}

-- Grants reading to whoever has a token.
abbrev readers : Check
readers none id kind action context = err "no token"
readers (some t) id kind none context = ok false
readers (some t) id kind (some action) context = ok (str_eq action "read")

-- The input's fields name the organization and the user.
input_read :
    from_arguments (
      some (
        (
          "input",
          object (entry "userID" (literal "u1") (entry "organizationId" (literal "o1") no_more)),
        )
        ∷ []))
    ≡ (some "u1", some "o1")
unfolding from_arguments find_argument from_input listed
input_read = refl

did_resolve_operation-passes_iff_example :
    (passes (did_resolve_operation readers request 10 1) ≡ true) ↔ (
      IsExempt request
      ⊎ ((is_present request.context_value.user_id ≡ true)
          × (question readers request 10 1 ≡ ok true)))
did_resolve_operation-passes_iff_example = did_resolve_operation-passes_iff readers request 10 1

alone : ¬ IsExempt (with_fields request query get_user [])
unfolding is_introspection_query is_public_operation is_public_name listed
alone e = cc ((IsExempt-iff (with_fields request query get_user [])).1 e)

followed : ¬ IsExempt (with_fields request query get_user (delete_user ∷ []))
unfolding is_introspection_query is_public_operation is_public_name listed
followed e = cc ((IsExempt-iff (with_fields request query get_user (delete_user ∷ []))).1 e)

did_resolve_operation-first_example :
    did_resolve_operation readers (with_fields request query get_user []) 10 1
    ≡ did_resolve_operation readers (with_fields request query get_user (delete_user ∷ [])) 10 1
did_resolve_operation-first_example =
    did_resolve_operation-first readers request query get_user [] (delete_user ∷ []) 10 1 alone
      followed

bare_token : token_of (some "Bearer t1") ≡ some "t1"
bare_token = refl

introspects :
    is_introspection_query (record request { query_text = some "{ __schema { types } }" }) ≡ true
unfolding is_introspection_query
introspects = refl

-- The permission that is asked for the request.
asks : extract_resource_info request.operation request.operation_name ≡ record {
  resource_type = some "user";
  resource_id = some "u7";
  action = some "read";
  organization_id = none;
}
unfolding extract_resource_info from_arguments find_argument mapping_for map_get listed
asks = refl

-- A spread whose name every object inherits has neither a type nor an action.
inherited : mapping_for "constructor" query ≡ (none, none)
unfolding mapping_for map_get listed
inherited = refl
