-- ===== src/Opa/Decision.antt =====
-- When an answer of the policy server grants access.
use anticipation.Base.{
  String, subst, ◌≡◌, ◌↔◌, refl, sym, true, Option, none, some, arith, Option-cases, inl, inr,
  false,
}
use anticipation.Opa.{
  Json, bool, obj, null, num, str, arr, Fields, member, truthy, if_truthy, decision_or_self,
  extract_result, normalise_result, from_fields, read_decision, find_field,
}

-- A verdict grants: it is `true`, or an object whose `allow` is truthy.
pub data IsGrant : Json → Type 0 where
  granted : IsGrant (bool true)
  allowed :
      (fs : Fields) (v : Json) → find_field "allow" fs ≡ some v → truthy v ≡ true → IsGrant (obj fs)

-- A response grants: its `result` is truthy, and grants by its `decision` where that is truthy
-- and by itself where it is not.
pub data Grants (response : Json) : Type 0 where
  by_decision :
      (r d : Json)
      → member "result" response ≡ some r
      → truthy r ≡ true
      → member "decision" r ≡ some d
      → truthy d ≡ true
      → IsGrant d
      → Grants response
  by_result :
      (r : Json)
      → member "result" response ≡ some r
      → truthy r ≡ true
      → if_truthy (member "decision" r) ≡ none
      → IsGrant r
      → Grants response

if_truthy_sound :
    (o : Option Json) (v : Json) → if_truthy o ≡ some v → (o ≡ some v) × (truthy v ≡ true)
if_truthy_sound none v h = (cc, cc)
if_truthy_sound (some w) v h = ground arith

if_truthy-some : (o : Option Json) (v : Json) → o ≡ some v → truthy v ≡ true → if_truthy o ≡ some v
if_truthy-some o v e t = ground arith

normalise-grants : (v : Json) → (normalise_result (some v)).allow ≡ true → IsGrant v
unfolding normalise_result
normalise-grants (obj fs) h = elim (Option-cases (find_field "allow" fs)) [
  | inl missing ↦ cc (rw missing at h)
  | inr (v, found) ↦ allowed fs v found (rw found at h)
]
normalise-grants (bool true) h = granted
normalise-grants (bool false) h = cc
normalise-grants null h = cc
normalise-grants (num n) h = cc
normalise-grants (str t) h = cc
normalise-grants (arr xs) h = cc

grants-normalise : (v : Json) → IsGrant v → (normalise_result (some v)).allow ≡ true
unfolding normalise_result
grants-normalise _ granted = refl
grants-normalise _ (allowed fs v found yes') = rw (found, from_fields) yes'

truthy-member : (k : String) (v w : Json) → member k v ≡ some w → truthy v ≡ true
truthy-member k (obj fs) w h = refl
truthy-member k null w h = cc
truthy-member k (bool b) w h = cc
truthy-member k (num n) w h = cc
truthy-member k (str t) w h = cc
truthy-member k (arr xs) w h = cc

decision_or_self_sound :
    (response r : Json)
    → member "result" response ≡ some r
    → truthy r ≡ true
    → IsGrant (decision_or_self r)
    → Grants response
decision_or_self_sound response r found holds g =
    elim (Option-cases (if_truthy (member "decision" r))) [
      | inl itself ↦ by_result r found holds itself (rw (itself, decision_or_self) at g)
      | inr (d, chosen) ↦
          let (named, real) = if_truthy_sound (member "decision" r) d chosen in
          by_decision r d found holds named real (rw (chosen, decision_or_self) at g)
    ]

extract_result_sound :
    (response v : Json)
    → extract_result response ≡ some v
    → (r : Json) × (member "result" response ≡ some r)
      × (truthy r ≡ true)
      × (decision_or_self r ≡ v)
unfolding extract_result
extract_result_sound response v h = elim (Option-cases (if_truthy (member "result" response))) [
  | inl nothing ↦ absurd (ground arith)
  | inr (r, chosen) ↦
      let (found, holds) = if_truthy_sound (member "result" response) r chosen in
      (r, found, holds, ground arith)
]

normalise-none : (normalise_result none).allow ≡ false
unfolding normalise_result
normalise-none = refl

read_decision_sound : (response : Json) → (read_decision response).allow ≡ true → Grants response
unfolding read_decision
read_decision_sound response h = elim (Option-cases (extract_result response)) [
  | inl nothing ↦ cc normalise-none
  | inr (v, found) ↦
      let (r, named, holds, same) = extract_result_sound response v found in
      decision_or_self_sound response r named holds
        (subst IsGrant (sym same) (normalise-grants v (rw found at h)))
]

read_decision_complete : (response : Json) → Grants response → (read_decision response).allow ≡ true
unfolding read_decision extract_result
read_decision_complete response (by_decision r d found holds named real g) =
    let result = if_truthy-some (member "result" response) r found holds in
    let chosen = if_truthy-some (member "decision" r) d named real in
    rw (truthy-member "result" response r found, result, chosen, decision_or_self)
      (grants-normalise d g)
read_decision_complete response (by_result r found holds itself g) =
    let result = if_truthy-some (member "result" response) r found holds in
    rw (truthy-member "result" response r found, result, itself, decision_or_self)
      (grants-normalise r g)

-- The client reads an answer as permission exactly when the answer grants: everything else, such
-- as an empty or malformed answer, is a refusal.
pub read_decision-allow_iff :
    (response : Json) → ((read_decision response).allow ≡ true) ↔ Grants response
read_decision-allow_iff response = (read_decision_sound response, read_decision_complete response)
