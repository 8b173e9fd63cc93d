-- ===== src/Validation/Email/Address.antt =====
-- What the email expression matches, and what `split` finds in a matched text.
use anticipation.Base.{
  ℕ, ◌≡◌, ◌≢◌, ◌↔◌, refl, ap, [], ◌∷◌, ◌++◌, true, false, ◌&&◌, all, All, all_iff, arith,
  Bool-cases, inl, inr, ◌==◌,
}
use anticipation.Validation.Text.{Text, is_space}
use anticipation.Validation.Email.{
  is_plain, dot_before_end, matches_domain, matches_email, local_part, domain_part,
}

-- One or more code units other than white space and '@'.
abbrev pub IsPlain : Text → Type 0
IsPlain s = (s ≢ []) × All (λ c. is_plain c ≡ true) s

abbrev pub IsDomain : Text → Type 0
IsDomain s = (host : Text) × (top : Text) × (s ≡ host ++ b'.' ∷ top) × IsPlain host × IsPlain top

-- local@host.top
abbrev pub IsAddress : Text → Type 0
IsAddress s =
    (local : Text) × (domain : Text) × (s ≡ local ++ b'@' ∷ domain)
    × IsPlain local
    × IsDomain domain

dot_sound :
    (c : ℕ) (s : Text)
    → dot_before_end s ≡ true
    → All (λ d. is_plain d ≡ true) (c ∷ s)
    → IsDomain (c ∷ s)
unfolding dot_before_end
dot_sound c [] h p = cc
dot_sound c (d ∷ []) h p = cc
dot_sound c (d ∷ e ∷ s) h p = elim (Bool-cases (dot_before_end (e ∷ s))) [
  | inl later ↦
      let (host, top, eq, ph, pt) = dot_sound d (e ∷ s) later p.1 in
      (c ∷ host, top, ap (λ t. c ∷ t) eq, ((λ q. cc), (p.0, ph.1)), pt)
  | inr here ↦ (c ∷ [], e ∷ s, ground arith, ((λ q. cc), (p.0, tt)), ((λ q. cc), p.1.1))
]

dot-append : (host : Text) (d : ℕ) (top : Text) → dot_before_end (host ++ b'.' ∷ d ∷ top) ≡ true
unfolding dot_before_end
dot-append [] d top = refl
dot-append (c ∷ []) d top = ground arith
dot-append (c ∷ e ∷ host) d top = ground (arith, dot-append (e ∷ host) d top)

All-append : (P : ℕ → Type 0) (s t : Text) → All P s → All P t → All P (s ++ t)
All-append P [] t h k = k
All-append P (c ∷ s) t (p, h) k = (p, All-append P s t h k)

matches_domain_iff : (s : Text) → (matches_domain s ≡ true) ↔ IsDomain s
unfolding matches_domain is_space
matches_domain_iff [] = ((λ h. cc), (λ d. absurd (not_nil d)))
  where
    not_nil : IsDomain [] → ⊥
    not_nil ([], top, e, p, q) = p.0 refl
    not_nil (c ∷ host, top, e, p, q) = cc
matches_domain_iff (c ∷ s) = (
  λ h.
      dot_sound c s (ground (arith, Bool-cases (dot_before_end s)))
        ((all_iff is_plain (c ∷ s)).0 (ground arith)),
  complete,
)
  where
    complete : IsDomain (c ∷ s) → (all is_plain (c ∷ s) && dot_before_end s) ≡ true
    complete ([], top, e, p, q) = absurd (p.0 refl)
    complete (b ∷ host, [], e, p, q) = absurd (q.0 refl)
    complete (b ∷ host, d ∷ top, e, p, q) =
        let dot = dot-append host d top in
        let plain =
          (all_iff is_plain (b ∷ host ++ b'.' ∷ d ∷ top)).1
            (All-append (λ x. is_plain x ≡ true) (b ∷ host) (b'.' ∷ d ∷ top) p.1 (refl, q.1)) in
        ground (arith, e, dot, plain)

matches_email_sound :
    (s : Text)
    → matches_email true s ≡ true
    → (local : Text) × (domain : Text) × (s ≡ local ++ b'@' ∷ domain)
      × All (λ c. is_plain c ≡ true) local
      × IsDomain domain
unfolding matches_email
matches_email_sound [] h = cc
matches_email_sound (c ∷ s) h = elim (Bool-cases (c == b'@')) [
  | inl at ↦ ([], s, ground arith, tt, (matches_domain_iff s).0 (ground arith))
  | inr other ↦
      let (local, domain, e, p, d) = matches_email_sound s (ground arith) in
      (c ∷ local, domain, ap (λ t. c ∷ t) e, (ground arith, p), d)
]

matches_email-append :
    (local domain : Text)
    → All (λ c. is_plain c ≡ true) local
    → IsDomain domain
    → matches_email true (local ++ b'@' ∷ domain) ≡ true
unfolding matches_email
matches_email-append [] domain p d = (matches_domain_iff domain).1 d
matches_email-append (c ∷ local) domain p d =
    ground (arith, matches_email-append local domain p.1 d)

pub matches_email_iff : (s : Text) → (matches_email false s ≡ true) ↔ IsAddress s
unfolding matches_email
matches_email_iff [] = ((λ h. cc), (λ a. absurd (not_nil a)))
  where
    not_nil : IsAddress [] → ⊥
    not_nil ([], domain, e, p, d) = p.0 refl
    not_nil (c ∷ local, domain, e, p, d) = cc
matches_email_iff (c ∷ s) = (
  λ h.
      let (local, domain, e, p, d) = matches_email_sound s (ground arith) in
      (c ∷ local, domain, ap (λ t. c ∷ t) e, ((λ q. cc), (ground arith, p)), d),
  complete,
)
  where
    complete : IsAddress (c ∷ s) → matches_email false (c ∷ s) ≡ true
    complete ([], domain, e, p, d) = absurd (p.0 refl)
    complete (b ∷ local, domain, e, p, d) =
        ground (arith, e, matches_email-append local domain p.1.1 d)

local_part-append :
    (local domain : Text)
    → All (λ c. is_plain c ≡ true) local
    → local_part (local ++ b'@' ∷ domain) ≡ local
unfolding local_part
local_part-append [] domain p = refl
local_part-append (c ∷ local) domain p = ground (arith, local_part-append local domain p.1)

local_part_self : (s : Text) → All (λ c. is_plain c ≡ true) s → local_part s ≡ s
unfolding local_part
local_part_self [] p = refl
local_part_self (c ∷ s) p = ground (arith, local_part_self s p.1)

domain_part-append :
    (local domain : Text)
    → All (λ c. is_plain c ≡ true) local
    → All (λ c. is_plain c ≡ true) domain
    → domain_part (local ++ b'@' ∷ domain) ≡ domain
unfolding domain_part
domain_part-append [] domain p q = local_part_self domain q
domain_part-append (c ∷ local) domain p q = ground (arith, domain_part-append local domain p.1 q)

IsDomain-plain : (s : Text) → IsDomain s → All (λ c. is_plain c ≡ true) s
unfolding is_space
IsDomain-plain s (host, top, e, p, q) =
    rw e (All-append (λ x. is_plain x ≡ true) host (b'.' ∷ top) p.1 (refl, q.1))

-- The parts that `split` gives for an address are those of the expression.
pub split-address :
    (local domain : Text)
    → IsPlain local
    → IsDomain domain
    → (local_part (local ++ b'@' ∷ domain) ≡ local)
      × (domain_part (local ++ b'@' ∷ domain) ≡ domain)
split-address local domain p d = (
  local_part-append local domain p.1,
  domain_part-append local domain p.1 (IsDomain-plain domain d),
)
