-- ===== src/Gateway/Resource.antt =====
-- The parts of a parsed GraphQL operation that federation/apollo-gateway/src/index.ts reads, and
-- extractResourceInfo. The operation was validated against the schema before.
use anticipation.Base.{
  String, List, [], ◌∷◌, Bool, true, false, ◌&&◌, Option, none, some, str_eq, if◌then◌else◌, any,
}
use anticipation.Base.JsMap.{map_get}

pub data Kind : Type 0 where
  query mutation subscription : Kind

-- The value of an argument: a literal has its text, an object its fields, a variable or a list
-- neither.
mutual
  pub data Value : Type 0 where
    literal : String → Value
    object : Entries → Value
    other : Value

  pub data Entries : Type 0 where
    no_more : Entries
    entry : String → Value → Entries → Entries

-- A field or a spread; an inline fragment has no name, and a spread no arguments.
pub record Selection : Type 0 where
  pub name : Option String
  pub arguments : Option (List (String × Value))

pub record Operation : Type 0 where
  pub kind : Kind
  pub selections : List Selection

-- A type or an action is undefined where the name of the field is one that every object inherits.
pub record ResourceInfo : Type 0 where
  pub resource_type : Option String
  pub resource_id : Option String
  pub action : Option String
  pub organization_id : Option String

-- publicOperations.includes and its like
unfoldable pub listed : String → List String → Bool
listed x names = any (λ n. str_eq n x) names

abbrev pub kind_name : Kind → String
kind_name query = "query"
kind_name mutation = "mutation"
kind_name subscription = "subscription"

-- `arguments.find`, by the names that are asked for
unfoldable pub find_argument : List String → List (String × Value) → Option Value
unfolding listed
find_argument names [] = none
find_argument names ((n, v) ∷ rest) = if listed n names then some v else find_argument names rest

-- `value.value`
abbrev pub text_of : Value → Option String
text_of (literal s) = some s
text_of (object fields) = none
text_of other = none

-- `if (arg?.value?.value) found = arg.value.value`
abbrev pub text_or : Option String → Option Value → Option String
text_or before none = before
text_or before (some (literal s)) = if str_eq s "" then before else some s
text_or before (some (object fields)) = before
text_or before (some other) = before

abbrev pub is_unknown : Option String → Bool
is_unknown none = false
is_unknown (some s) = str_eq s "unknown"

-- The resource and the organization that the fields of an input name.
unfoldable pub from_input : Entries → Option String × Option String → Option String × Option String
unfolding listed
from_input no_more found = found
from_input (entry name value rest) (resource, organization) =
    let organization' : Option String =
      if listed name ("organizationID" ∷ "organizationId" ∷ [])
      then text_of value
      else organization in
    let resource' : Option String =
      if listed name ("userID" ∷ "userId" ∷ []) && is_unknown resource
      then text_of value
      else resource in
    from_input rest (resource', organization')

abbrev pub from_input_argument :
    Option Value → Option String × Option String → Option String × Option String
from_input_argument none found = found
from_input_argument (some (literal s)) found = found
from_input_argument (some (object fields)) found = from_input fields found
from_input_argument (some other) found = found

-- The resource and the organization that the arguments name.
unfoldable pub from_arguments : Option (List (String × Value)) → Option String × Option String
unfolding find_argument from_input
from_arguments none = (some "unknown", none)
from_arguments (some arguments) = from_input_argument (find_argument ("input" ∷ []) arguments) (
  text_or (some "unknown")
      (find_argument ("id" ∷ "userId" ∷ "organizationId" ∷ "userOrganizationID" ∷ []) arguments),
  text_or none (find_argument ("organizationId" ∷ "organizationID" ∷ []) arguments),
)

abbrev pub resource_mapping : List (String × (String × String))
resource_mapping =
    ("login", ("auth", "authenticate"))
    ∷ ("register", ("auth", "register"))
    ∷ ("registerUser", ("auth", "register"))
    ∷ ("refreshToken", ("auth", "refresh"))
    ∷ ("validateToken", ("auth", "validate"))
    ∷ ("logout", ("auth", "logout"))
    ∷ ("changePassword", ("auth", "change_password"))
    ∷ ("verifyEmail", ("auth", "verify_email"))
    ∷ ("resendVerificationEmail", ("auth", "resend_verification"))
    ∷ ("requestPasswordReset", ("auth", "reset_password"))
    ∷ ("resetPassword", ("auth", "reset_password"))
    ∷ ("validateUsername", ("validation", "validate"))
    ∷ ("validateEmail", ("validation", "validate"))
    ∷ ("validatePassword", ("validation", "validate"))
    ∷ ("generateUsernameSuggestions", ("validation", "suggest"))
    ∷ ("getPasswordPolicy", ("policy", "read"))
    ∷ ("getRegistrationStatus", ("policy", "read"))
    ∷ ("isRegistrationEnabled", ("policy", "read"))
    ∷ ("getUser", ("user", "read"))
    ∷ ("getUserInfo", ("user", "read"))
    ∷ ("updateUser", ("user", "update"))
    ∷ ("deleteUser", ("user", "delete"))
    ∷ ("listUsers", ("user", "list"))
    ∷ ("getUserRoles", ("user", "read_roles"))
    ∷ ("getOrganization", ("organization", "read"))
    ∷ ("createOrganization", ("organization", "create"))
    ∷ ("updateOrganization", ("organization", "update"))
    ∷ ("deleteOrganization", ("organization", "delete"))
    ∷ ("listOrganizations", ("organization", "list"))
    ∷ ("inviteUserToOrganization", ("organization", "invite"))
    ∷ ("addUserToOrganization", ("organization", "add_member"))
    ∷ ("removeUserFromOrganization", ("organization", "remove_member"))
    ∷ ("createUserOrganization", ("user_organization", "create"))
    ∷ ("updateUserOrganization", ("user_organization", "update"))
    ∷ ("deleteUserOrganization", ("user_organization", "delete"))
    ∷ ("userOrganizations", ("user_organization", "list"))
    ∷ ("userOrganization", ("user_organization", "read"))
    ∷ ("testRedisConnection", ("system", "test"))
    ∷ ("testKeycloakConnection", ("system", "test"))
    ∷ ("testOPAConnection", ("system", "test"))
    ∷ ("getAuthenticationStats", ("system", "read"))
    ∷ ("query", ("data", "read"))
    ∷ ("mutation", ("data", "write"))
    ∷ []

-- The names of Object.prototype: what an object literal has under them is neither undefined nor has a
-- type or an action.
abbrev pub inherited_names : List String
inherited_names =
    "constructor" ∷ "__defineGetter__" ∷ "__defineSetter__" ∷ "hasOwnProperty" ∷ "__lookupGetter__"
    ∷ "__lookupSetter__" ∷ "isPrototypeOf" ∷ "propertyIsEnumerable" ∷ "toString" ∷ "valueOf"
    ∷ "__proto__" ∷ "toLocaleString" ∷ []

abbrev pub known_pair : String × String → Option String × Option String
known_pair (type, action) = (some type, some action)

abbrev pub or_unknown : Option (String × String) → Option String × Option String
or_unknown (some found) = known_pair found
or_unknown none = (some "unknown", some "unknown")

abbrev pub or_mapping :
    Option (String × String) → Bool → Option (String × String) → Option String × Option String
or_mapping (some found) inherited fallback = known_pair found
or_mapping none true fallback = (none, none)
or_mapping none false fallback = or_unknown fallback

-- resourceMapping[fieldName] || resourceMapping[operation.operation] || unknown
unfoldable pub mapping_for : String → Kind → Option String × Option String
unfolding map_get listed
mapping_for field kind =
    or_mapping (map_get field resource_mapping) (listed field inherited_names)
      (map_get (kind_name kind) resource_mapping)

-- `text || fallback`
abbrev pub or_else : Option String → String → String
or_else none fallback = fallback
or_else (some s) fallback = if str_eq s "" then fallback else s

abbrev pub info_for : String → Kind → Option String × Option String → ResourceInfo
info_for field kind (resource, organization) = record {
  resource_type = (mapping_for field kind).0;
  resource_id = if is_unknown resource then some field else resource;
  action = (mapping_for field kind).1;
  organization_id = organization;
}

abbrev pub default_action : Kind → String
default_action query = "read"
default_action mutation = "write"
default_action subscription = "read"

unfoldable pub extract_resource_info : Operation → Option String → ResourceInfo
unfolding mapping_for from_arguments
extract_resource_info operation operation_name = of_selections operation.selections
  where
    of_selections : List Selection → ResourceInfo
    of_selections [] = record {
      resource_type = some "graphql_query";
      resource_id = some (or_else operation_name "unknown_operation");
      action = some (default_action operation.kind);
      organization_id = none;
    }
    of_selections (first ∷ rest) =
        info_for (or_else first.name "unknown") operation.kind (from_arguments first.arguments)
