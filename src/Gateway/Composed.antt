-- ===== src/Gateway/Composed.antt =====
-- The gateway of federation/apollo-gateway/src/index.ts on checkPermission of
-- smp-auth-ts/src/services/auth.service.ts.
mod Tests
use anticipation.Base.{
  ℕ, ◌≡◌, ◌≢◌, refl, ◌⊎◌, inl, inr, String, List, [], ◌∷◌, Bool, true, false, Option, none, some,
  ap, sym, ◌∙◌,
}
use anticipation.Base.Result.{Result, ok, err, ok_injective}
use anticipation.Base.Exec.{resume_inv}
use anticipation.Redis.Laws.{Redis}
use anticipation.Opa.{Json, Fields, no_field, field, str, bool, num}
use anticipation.Gateway.{
  RequestContext, AuthContext, Check, Passage, Refusal, is_present, did_resolve_operation, token_of,
  build_authorization_context,
}
use anticipation.Gateway.Resource.{ResourceInfo, extract_resource_info}
use anticipation.Gateway.Access.{IsExempt, passes, question, did_resolve_operation-passes_iff}
use anticipation.Auth.State.{
  UserInfo, Authorization, OpaInput, AuthOptions, Clock, Servers, World, AuthError,
}
use anticipation.Auth.{message}
use anticipation.Auth.Permission.{Keys, Request, decision_key, check_permission}
use anticipation.Auth.Permission.Checks.{Reach, Backs, run}
use anticipation.Auth.Permission.Provenance.{check_permission_detailed-provenance}
use anticipation.Auth.Permission.Checks

-- A value that is undefined leaves no field in JSON.
abbrev pub optional : String → Option String → Fields → Fields
optional name none rest = rest
optional name (some s) rest = field name (str s) rest

-- The object that buildAuthorizationContext hands on, in the order of its fields.
abbrev pub context_fields : (ℕ → String) → ℕ → AuthContext → Fields
context_fields to_iso now a = field "ip" (str a.ip) (
    field "businessHours" (bool a.business_hours) (
      field "currentDate" (str (to_iso now)) (
        field "riskScore" (num (record { negative = false; digits = 10; exponent = 0 })) (
          optional "traceId" a.trace_id (
            field "requestSource" (str "apollo-gateway-frontend-sim") (
              optional "organizationId" a.organization_id (
                optional "userAgent" a.user_agent (
                  field "resourcePath" (str a.resource_path) (
                    field "gatewaySource" (str a.gateway_source)
                      (field "frontendSimulation" (bool true) no_field))))))))))

abbrev request_of : (ℕ → String) → ℕ → String → String → String → AuthContext → Request
request_of to_iso now id kind action context = record {
  resource_id = id;
  resource_type = kind;
  action = action;
  context = context_fields to_iso now context;
}

abbrev message_of : Result AuthError Bool → Result String Bool
message_of (ok b) = ok b
message_of (err e) = err (message e)

-- The request has no token, or its first field gives no resource, no type of a resource or no action.
abbrev pub IsPartial : RequestContext → Type 0
IsPartial r =
    let info = extract_resource_info r.operation r.operation_name in
    (token_of r.context_value.authorization ≡ none)
    ⊎ ((info.resource_id ≡ none) ⊎ ((info.resource_type ≡ none) ⊎ (info.action ≡ none)))

module _ (redis : Redis) (options : AuthOptions) (keys : Keys) where
  -- What becomes of a request without a token, or without a part of the resource, is left to `other`.
  unfoldable pub check_of : Check → Servers → Clock → World redis → Check
  check_of other servers c w (some token) (some id) (some kind) (some action) context =
      message_of
        (check_permission redis options keys servers token
          (request_of keys.to_iso c.now id kind action context) c w).0
  check_of other servers c w token id kind action context = other token id kind action context

  abbrev pub resolve :
      Check → Servers → Clock → World redis → RequestContext → Result Refusal Passage
  resolve other servers c w r = did_resolve_operation (check_of other servers c w) r c.hour c.day

  abbrev pub request_for : Clock → RequestContext → String → String → String → Request
  request_for c r id kind action = request_of keys.to_iso c.now id kind action (
      build_authorization_context r.context_value
        (extract_resource_info r.operation r.operation_name) c.hour c.day)

  abbrev pub call_of :
      Servers → Clock → RequestContext → String → String → String → String → Checks.Check
  call_of servers c r token id kind action = record {
    servers = servers;
    token = token;
    request = request_for c r id kind action;
    clock = c;
  }

  -- The token is valid, and a grant of the policy server stands behind the request of the first
  -- field.
  pub record IsBacked (calls : List Checks.Check) (servers : Servers) (c : Clock)
      (r : RequestContext) : Type 0 where
    pub token : String
    pub sent : token_of r.context_value.authorization ≡ some token
    pub id : String
    pub named : (extract_resource_info r.operation r.operation_name).resource_id ≡ some id
    pub kind : String
    pub typed : (extract_resource_info r.operation r.operation_name).resource_type ≡ some kind
    pub action : String
    pub acts : (extract_resource_info r.operation r.operation_name).action ≡ some action
    pub info : UserInfo
    pub valid : servers.validate token ≡ ok info
    pub backs :
        Backs redis options keys
          (call_of servers c r token id kind action ∷ calls)
          (decision_key redis options keys info.sub (request_for c r id kind action))
          c.now

  message_of_inv : (x : Result AuthError Bool) (b : Bool) → message_of x ≡ ok b → x ≡ ok b
  message_of_inv (ok a) b h = let e : a ≡ b = ok_injective h in ap ok e
  message_of_inv (err e) b h = absurd cc

  check_permission-allowed :
      (c : Checks.Check) (w : World redis)
      → (check_permission redis options keys c.servers c.token c.request c.clock w).0 ≡ ok true
      → (a : Authorization) × ((run redis options keys c w).0 ≡ ok a) × (a.allowed ≡ true)
  unfolding check_permission
  check_permission-allowed c w h =
      let (a, told, same) =
        resume_inv (λ (a : Authorization) (v : World redis). (ok a.allowed, v))
          (run redis options keys c w) h in
      (a, told, ok_injective same)

  granted-IsBacked :
      {calls : List Checks.Check} {w : World redis}
      → ((i : OpaInput) → keys.input i ≢ "")
      → Reach redis options keys calls w
      → (servers : Servers) (c : Clock) (r : RequestContext) (token id kind action : String)
      → token_of r.context_value.authorization ≡ some token
      → (extract_resource_info r.operation r.operation_name).resource_id ≡ some id
      → (extract_resource_info r.operation r.operation_name).resource_type ≡ some kind
      → (extract_resource_info r.operation r.operation_name).action ≡ some action
      → (check_permission redis options keys servers token (request_for c r id kind action) c w).0
        ≡ ok true
      → IsBacked calls servers c r
  granted-IsBacked {calls} {w} keyed reach servers c r token id kind action sent named typed acts
        h =
      let call = call_of servers c r token id kind action in
      let (a, told, yes') = check_permission-allowed call w h in
      let (info, valid, backs) =
        check_permission_detailed-provenance redis options keys keyed reach call a told yes' in
      record {
        token = token;
        sent = sent;
        id = id;
        named = named;
        kind = kind;
        typed = typed;
        action = action;
        acts = acts;
        info = info;
        valid = valid;
        backs = backs;
      }

  asked-IsBacked :
      {calls : List Checks.Check} {w : World redis}
      → ((i : OpaInput) → keys.input i ≢ "")
      → Reach redis options keys calls w
      → (other : Check) (servers : Servers) (c : Clock) (r : RequestContext)
      → (token id kind action : Option String) → token_of r.context_value.authorization ≡ token
      → (extract_resource_info r.operation r.operation_name).resource_id ≡ id
      → (extract_resource_info r.operation r.operation_name).resource_type ≡ kind
      → (extract_resource_info r.operation r.operation_name).action ≡ action
      → check_of other servers c w token id kind action (
          build_authorization_context r.context_value
            (extract_resource_info r.operation r.operation_name)
            c.hour
            c.day)
        ≡ ok true
      → IsBacked calls servers c r ⊎ IsPartial r
  unfolding check_of
  asked-IsBacked keyed reach other servers c r none id kind action sent named typed acts h =
      inr (inl sent)
  asked-IsBacked keyed reach other servers c r (some token) none kind action sent named typed acts
        h =
      inr (inr (inl named))
  asked-IsBacked keyed reach other servers c r (some token) (some id) none action sent named typed
        acts h =
      inr (inr (inr (inl typed)))
  asked-IsBacked keyed reach other servers c r (some token) (some id) (some kind) none sent named
        typed acts h =
      inr (inr (inr (inr acts)))
  asked-IsBacked keyed reach other servers c r (some token) (some id) (some kind) (some action) sent
        named typed acts h =
      inl (
        granted-IsBacked keyed reach servers c r token id kind action sent named typed acts
          (message_of_inv _ true h))

  -- After any sequence of permission checks, an operation that the gateway lets pass is an
  -- introspection or a public operation, or its context names a user and either it came without a
  -- token, or its first field gives no resource, no type of a resource or no action, or the token is
  -- valid now and one of the checks decided under the key of the first field's resource, at most five
  -- minutes before, on a grant that the policy server gave to one of the checks under the same input,
  -- at most five minutes before that. No input has the empty key.
  pub resolve-provenance :
      {calls : List Checks.Check} {w : World redis}
      → ((i : OpaInput) → keys.input i ≢ "")
      → Reach redis options keys calls w
      → (other : Check) (servers : Servers) (c : Clock) (r : RequestContext)
      → passes (resolve other servers c w r) ≡ true
      → IsExempt r
        ⊎ ((is_present r.context_value.user_id ≡ true) × (IsBacked calls servers c r ⊎ IsPartial r))
  resolve-provenance {calls} {w} keyed reach other servers c r h =
      elim ((did_resolve_operation-passes_iff (check_of other servers c w) r c.hour c.day).0 h) [
        | inl exempt ↦ inl exempt
        | inr (known, said) ↦
            inr
              (known, asked-IsBacked keyed reach other servers c r _ _ _ _ refl refl refl refl said)
      ]
