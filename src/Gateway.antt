-- ===== src/Gateway.antt =====
-- The authorization plugin of federation/apollo-gateway/src/index.ts. checkPermission of the
-- authentication service is a parameter.
pub mod Resource
pub mod Access
pub mod Composed
pub mod Tests
use text.Mathlib.Text.{find?}
use Prim.Native.String.{len, slice, ◌++◌ as append}
use anticipation.Base.{
  ℕ, ◌+◌, String, List, [], ◌∷◌, Bool, true, false, ◌||◌, ◌&&◌, not, Option, none, some, str_eq,
  leb, ltb, if◌then◌else◌, any,
}
use anticipation.Base.Result.{Result, ok, err}
use anticipation.Gateway.Resource.{
  Kind, query, mutation, subscription, Selection, Operation, ResourceInfo, listed, or_else,
  extract_resource_info,
}

pub record ContextValue : Type 0 where
  pub user_id : Option String
  pub user_organizations : List String
  pub client_ip : Option String
  pub trace_id : Option String
  pub user_agent : Option String
  pub authorization : Option String
  pub gateway_source : Option String

pub record RequestContext : Type 0 where
  pub operation : Operation
  pub operation_name : Option String
  pub query_text : Option String
  pub context_value : ContextValue

pub record AuthContext : Type 0 where
  pub ip : String
  pub business_hours : Bool
  pub trace_id : Option String
  pub organization_id : Option String
  pub user_agent : Option String
  pub resource_path : String
  pub gateway_source : String

abbrev pub has : Option ℕ → Bool
has none = false
has (some n) = true

abbrev pub mentions : String → Option String → Bool
mentions part none = false
mentions part (some text) = has (find? text part)

abbrev pub is_text : String → Option String → Bool
is_text name none = false
is_text name (some s) = str_eq s name

unfoldable pub is_introspection_query : RequestContext → Bool
is_introspection_query request =
    is_text "IntrospectionQuery" request.operation_name
    || (mentions "__schema" request.query_text || mentions "__type" request.query_text)

abbrev pub public_operations : List String
public_operations =
    "login" ∷ "register" ∷ "health" ∷ "verifyInvitationToken" ∷ "resetPassword" ∷ "confirmEmail"
    ∷ "validateUsername" ∷ "validateEmail" ∷ "generateUsernameSuggestions" ∷ "getPasswordPolicy"
    ∷ "isRegistrationEnabled" ∷ "registerUser" ∷ "verifyEmail" ∷ "resendVerificationEmail"
    ∷ "requestPasswordReset" ∷ "validatePassword" ∷ "validateUsername" ∷ "validateEmail"
    ∷ "generateUsernameSuggestions" ∷ "getRegistrationStatus" ∷ "getPasswordPolicy"
    ∷ "testRedisConnection" ∷ "testKeycloakConnection" ∷ "testOPAConnection"
    ∷ "getAuthenticationStats" ∷ "validateToken" ∷ "generateMagicLink" ∷ "verifyMagicLink"
    ∷ "initiatePasswordlessAuth" ∷ "getMagicLinkStatus" ∷ []

unfoldable pub is_public_name : Option String → Bool
unfolding listed
is_public_name none = false
is_public_name (some s) = listed s public_operations

abbrev pub first_name : List Selection → Option String
first_name [] = none
first_name (first ∷ rest) = first.name

abbrev pub is_mutation : Kind → Bool
is_mutation mutation = true
is_mutation query = false
is_mutation subscription = false

unfoldable pub is_public_operation : Operation → Option String → Bool
unfolding is_public_name
is_public_operation operation operation_name =
    is_public_name operation_name
    || (is_public_name (first_name operation.selections)
        || is_mutation operation.kind && any (λ s. is_public_name s.name) operation.selections)

-- headers.authorization?.replace('Bearer ', ''), which removes the first occurrence
abbrev pub cut : String → Option ℕ → String
cut text none = text
cut text (some at) = append (slice text 0 at) (slice text (at + len "Bearer ") (len text))

abbrev pub token_of : Option String → Option String
token_of none = none
token_of (some header) = some (cut header (find? header "Bearer "))

-- The hour and the day of the week of the local clock; Sunday is 0.
unfoldable pub is_business_hours : ℕ → ℕ → Bool
is_business_hours hour day = leb 1 day && (leb day 5 && (leb 8 hour && ltb hour 18))

abbrev pub first_organization : List String → Option String
first_organization [] = none
first_organization (first ∷ rest) = some first

-- resourceInfo.organizationId || contextValue.userOrganizations?.[0]
abbrev pub or_first_organization : Option String → List String → Option String
or_first_organization none organizations = first_organization organizations
or_first_organization (some s) organizations =
    if str_eq s "" then first_organization organizations else some s

-- What a template makes of a value.
abbrev pub shown : Option String → String
shown none = "undefined"
shown (some s) = s

unfoldable pub build_authorization_context : ContextValue → ResourceInfo → ℕ → ℕ → AuthContext
unfolding is_business_hours
build_authorization_context context info hour day = record {
  ip = or_else context.client_ip "127.0.0.1";
  business_hours = is_business_hours hour day;
  trace_id = context.trace_id;
  organization_id = or_first_organization info.organization_id context.user_organizations;
  user_agent = context.user_agent;
  resource_path = append (shown info.resource_type) (append "/" (shown info.resource_id));
  gateway_source = or_else context.gateway_source "unknown";
}

-- The operation goes on, with the authorization that the plugin leaves in the context.
pub data Passage : Type 0 where
  bypassed : Passage
  granted : ResourceInfo → Passage

pub data Refusal : Type 0 where
  authentication_required : Refusal
  access_denied : ResourceInfo → Refusal
  check_failed : String → Refusal

abbrev pub is_present : Option String → Bool
is_present none = false
is_present (some s) = not (str_eq s "")

-- checkPermission(token, resourceId, resourceType, action, context)
abbrev pub Check : Type 0
Check =
    Option String → Option String → Option String → Option String → AuthContext → Result String Bool

abbrev pub judge : ResourceInfo → Result String Bool → Result Refusal Passage
judge info (ok true) = ok (granted info)
judge info (ok false) = err (access_denied info)
judge info (err e) = err (check_failed e)

unfoldable pub authorize : Check → RequestContext → ℕ → ℕ → Result Refusal Passage
unfolding extract_resource_info build_authorization_context
authorize check request hour day =
    let info = extract_resource_info request.operation request.operation_name in
    judge info (
      check (token_of request.context_value.authorization) info.resource_id info.resource_type
        info.action (build_authorization_context request.context_value info hour day))

unfoldable pub did_resolve_operation : Check → RequestContext → ℕ → ℕ → Result Refusal Passage
unfolding is_introspection_query is_public_operation authorize
did_resolve_operation check request hour day =
    if is_introspection_query request
      || is_public_operation request.operation request.operation_name
    then ok bypassed
    else if is_present request.context_value.user_id
    then authorize check request hour day
    else err authentication_required
