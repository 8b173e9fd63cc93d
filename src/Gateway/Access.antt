-- ===== src/Gateway/Access.antt =====
-- Which operations the gateway of federation/apollo-gateway/src/index.ts lets pass.
use anticipation.Base.{
  ℕ, ◌≡◌, refl, String, List, [], ◌∷◌, Bool, true, false, ◌||◌, Option, none, some, arith, inl, inr,
  ◌⊎◌, Bool-cases, str_eq, eq_iff, subst, sym, ap, ◌∙◌, if◌then◌else◌, ◌↔◌, any, any_iff, Any,
}
use anticipation.Base.Result.{Result, ok, err, ok_injective}
use anticipation.Gateway.Resource.{
  Kind, query, mutation, subscription, Selection, Operation, ResourceInfo, extract_resource_info,
  listed,
}
use anticipation.Gateway.{
  RequestContext, Check, Passage, authentication_required, Refusal, is_introspection_query,
  is_public_name, is_public_operation, first_name, is_mutation, public_operations, is_present,
  token_of, build_authorization_context, judge, authorize, did_resolve_operation,
}

-- The text is one of the public names.
abbrev pub IsPublicName : Option String → Type 0
IsPublicName o = (s : String) × (o ≡ some s) × Any (λ n. n ≡ s) public_operations

abbrev pub IsFirstPublic : List Selection → Type 0
IsFirstPublic [] = ⊥
IsFirstPublic (first ∷ rest) = IsPublicName first.name

-- The name that the client gave the operation is public, its first field is, or it is a mutation
-- with a public field.
abbrev pub IsPublic : Operation → Option String → Type 0
IsPublic o name =
    IsPublicName name
    ⊎ (IsFirstPublic o.selections
        ⊎ ((o.kind ≡ mutation) × Any (λ s. IsPublicName s.name) o.selections))

Any-map :
    {A : Type 0} (P Q : A → Type 0) (xs : List A) → ((x : A) → P x → Q x) → Any P xs → Any Q xs
Any-map P Q [] f h = h
Any-map P Q (x ∷ xs) f (inl p) = inl (f x p)
Any-map P Q (x ∷ xs) f (inr h) = inr (Any-map P Q xs f h)

listed_iff : (s : String) (names : List String) → (listed s names ≡ true) ↔ Any (λ n. n ≡ s) names
unfolding listed
listed_iff s names = (
  (λ h.
      Any-map (λ n. str_eq n s ≡ true) (λ n. n ≡ s) names (λ n. (eq_iff n s).0)
        ((any_iff (λ n. str_eq n s) names).0 h)),
  (λ h.
      (any_iff (λ n. str_eq n s) names).1
        (Any-map (λ n. n ≡ s) (λ n. str_eq n s ≡ true) names (λ n. (eq_iff n s).1) h)),
)

is_public_name_iff : (o : Option String) → (is_public_name o ≡ true) ↔ IsPublicName o
unfolding is_public_name
is_public_name_iff none = ((λ h. cc), (λ (s, e, h). absurd cc))
is_public_name_iff (some s) = (
  (λ h. (s, refl, (listed_iff s public_operations).0 h)),
  (λ (t, e, h).
      let same : s ≡ t = cc in
      (listed_iff s public_operations).1
        (subst (λ u. Any (λ n. n ≡ u) public_operations) (sym same) h)),
)

first_iff : (ss : List Selection) → (is_public_name (first_name ss) ≡ true) ↔ IsFirstPublic ss
unfolding is_public_name
first_iff [] = ((λ h. cc), (λ h. absurd h))
first_iff (first ∷ rest) = is_public_name_iff first.name

field_iff :
    (ss : List Selection)
    → (any (λ s. is_public_name s.name) ss ≡ true) ↔ Any (λ s. IsPublicName s.name) ss
field_iff ss = (
  (λ h.
      Any-map (λ s. is_public_name s.name ≡ true) (λ s. IsPublicName s.name) ss
        (λ s. (is_public_name_iff s.name).0) ((any_iff (λ s. is_public_name s.name) ss).0 h)),
  (λ h. (any_iff (λ s. is_public_name s.name) ss).1 (
      Any-map (λ s. IsPublicName s.name) (λ s. is_public_name s.name ≡ true) ss
        (λ s. (is_public_name_iff s.name).1) h)),
)

mutation_iff : (k : Kind) → (is_mutation k ≡ true) ↔ (k ≡ mutation)
mutation_iff mutation = ((λ h. refl), (λ h. refl))
mutation_iff query = ((λ h. cc), (λ h. cc))
mutation_iff subscription = ((λ h. cc), (λ h. cc))

-- isPublicOperation holds exactly if the name the client gave is public, the first field is, or the
-- operation is a mutation with a public field.
is_public_operation_iff :
    (o : Operation) (name : Option String) → (is_public_operation o name ≡ true) ↔ IsPublic o name
unfolding is_public_operation
is_public_operation_iff o name =
    let n = is_public_name_iff name in
    let f = first_iff o.selections in
    let m = mutation_iff o.kind in let a = field_iff o.selections in ground (arith, n, f, m, a)

-- The operation passes without a look at the user.
abbrev pub IsExempt : RequestContext → Type 0
IsExempt r = (is_introspection_query r ≡ true) ⊎ IsPublic r.operation r.operation_name

-- What the plugin asks the authentication service for the request.
abbrev pub question : Check → RequestContext → ℕ → ℕ → Result String Bool
question check r hour day =
    let info = extract_resource_info r.operation r.operation_name in
    check (token_of r.context_value.authorization) info.resource_id info.resource_type info.action
      (build_authorization_context r.context_value info hour day)

abbrev pub passes : Result Refusal Passage → Bool
passes (ok p) = true
passes (err e) = false

or_true_iff : (a b : Bool) → ((a || b) ≡ true) ↔ ((a ≡ true) ⊎ (b ≡ true))
or_true_iff true b = ((λ h. inl refl), (λ h. refl))
or_true_iff false b = ((λ h. inr h), λ h. ground arith)

pub IsExempt-iff :
    (r : RequestContext)
    → ((is_introspection_query r || is_public_operation r.operation r.operation_name) ≡ true)
      ↔ IsExempt r
IsExempt-iff r =
    let either =
      or_true_iff (is_introspection_query r) (is_public_operation r.operation r.operation_name) in
    let public = is_public_operation_iff r.operation r.operation_name in
    (
      (λ h. elim (either.0 h) [ inl a ↦ inl a | inr b ↦ inr (public.0 b) ]),
      (λ h. either.1 (elim h [ inl a ↦ inl a | inr b ↦ inr (public.1 b) ])),
    )

judge_iff :
    (info : ResourceInfo) (x : Result String Bool) → (passes (judge info x) ≡ true) ↔ (x ≡ ok true)
judge_iff info (ok true) = ((λ h. refl), (λ h. refl))
judge_iff info (ok false) = ((λ h. cc), (λ h. cc (ok_injective h)))
judge_iff info (err e) = ((λ h. cc), (λ h. cc))

authorize_iff :
    (check : Check) (r : RequestContext) (hour day : ℕ)
    → (passes (authorize check r hour day) ≡ true) ↔ (question check r hour day ≡ ok true)
unfolding authorize
authorize_iff check r hour day =
    judge_iff (extract_resource_info r.operation r.operation_name) (question check r hour day)

-- An operation goes on exactly if it is an introspection or a public operation, or a user is known
-- and the authentication service grants the request that the first field makes.
pub did_resolve_operation-passes_iff :
    (check : Check) (r : RequestContext) (hour day : ℕ)
    → (passes (did_resolve_operation check r hour day) ≡ true) ↔ (
        IsExempt r
        ⊎ ((is_present r.context_value.user_id ≡ true) × (question check r hour day ≡ ok true)))
unfolding did_resolve_operation authorize
did_resolve_operation-passes_iff check r hour day =
    let exempt = IsExempt-iff r in
    let asked = authorize_iff check r hour day in
    elim (Bool-cases
      (is_introspection_query r || is_public_operation r.operation r.operation_name)) [
        | inl open_to_all ↦ rw open_to_all ((λ h. inl (exempt.0 open_to_all)), (λ h. refl))
        | inr closed ↦
            let private_one : ¬ IsExempt r = λ e. cc (exempt.1 e) in
            elim (Bool-cases (is_present r.context_value.user_id)) [
              | inr absent ↦ rw closed (
                  rw absent (
                    (λ h. absurd cc),
                    (λ h. absurd (elim h [ inl e ↦ private_one e | inr (known, yes_said) ↦ cc ])),
                  ))
              | inl known ↦ rw closed (
                  rw known (
                    (λ h. inr (refl, asked.0 h)),
                    (λ h. elim h [
                      | inl e ↦ absurd (private_one e)
                      | inr (known', granted_it) ↦ asked.1 granted_it
                    ]),
                  ))
            ]
      ]

not_exempt :
    (r : RequestContext)
    → ¬ IsExempt r
    → (is_introspection_query r || is_public_operation r.operation r.operation_name) ≡ false
not_exempt r closed =
    elim (Bool-cases
      (is_introspection_query r || is_public_operation r.operation r.operation_name)) [
        | inl open_to_all ↦ absurd (closed ((IsExempt-iff r).0 open_to_all))
        | inr shut ↦ shut
      ]

-- The answer to a request that is not exempt.
abbrev asked_for : Check → RequestContext → ℕ → ℕ → Result Refusal Passage
asked_for check r hour day =
    if is_present r.context_value.user_id
    then authorize check r hour day
    else err authentication_required

closed-did_resolve_operation :
    (check : Check) (r : RequestContext) (hour day : ℕ)
    → ¬ IsExempt r
    → did_resolve_operation check r hour day ≡ asked_for check r hour day
unfolding did_resolve_operation
closed-did_resolve_operation check r hour day closed = rw (not_exempt r closed) refl

abbrev pub with_fields : RequestContext → Kind → Selection → List Selection → RequestContext
with_fields r k first rest = record r { operation = record { kind = k; selections = first ∷ rest } }

authorize-first :
    (check : Check) (r : RequestContext) (k : Kind) (first : Selection)
    (rest rest' : List Selection) (hour day : ℕ)
    → authorize check (with_fields r k first rest) hour day
      ≡ authorize check (with_fields r k first rest') hour day
unfolding authorize extract_resource_info
authorize-first check r k first rest rest' hour day = refl

-- Only the first field of an operation is asked about: two operations of one kind with the same
-- first field, neither of them exempt, get one answer, whatever else they ask for.
pub did_resolve_operation-first :
    (check : Check) (r : RequestContext) (k : Kind) (first : Selection)
    (rest rest' : List Selection) (hour day : ℕ)
    → ¬ IsExempt (with_fields r k first rest)
    → ¬ IsExempt (with_fields r k first rest')
    → did_resolve_operation check (with_fields r k first rest) hour day
      ≡ did_resolve_operation check (with_fields r k first rest') hour day
did_resolve_operation-first check r k first rest rest' hour day closed closed' =
    closed-did_resolve_operation check (with_fields r k first rest) hour day closed
    ∙ (ap
          (λ (x : Result Refusal Passage).
            if is_present r.context_value.user_id then x else err authentication_required)
          (authorize-first check r k first rest rest' hour day)
        ∙ sym (closed-did_resolve_operation check (with_fields r k first rest') hour day closed'))
