-- ===== src/Validation/Email/Rules.antt =====
-- What an accepted email address is, stated without the validator's tests.
use anticipation.Base.{
  ℕ, ◌≤◌, ◌≡◌, ◌≢◌, ◌↔◌, refl, [], ◌∷◌, ◌++◌, Bool, true, false, ◌||◌, ltb, any, all, all_iff, All,
  length, arith, is_nil, if◌then◌else◌,
}
use anticipation.Validation.Text.{Text, codes, includes, ends_with, trim}
use anticipation.Validation.Text.Infix.{IsInfix}
use anticipation.Validation.Password.{push_if}
use anticipation.Validation.Username.{same, starts}
use anticipation.Validation.Username.Rules.{HasNoEdge, no_edge_iff, not_same_iff, not_includes_iff}
use anticipation.Validation.Email.{
  bad_format, too_long, local_too_long, domain_too_long, bad_local_chars, double_dot, edge_dot,
  disposable, matches_email, is_local_char, disposable_domains, unless_empty, email_errors,
  validate_email,
}
use anticipation.Validation.Email.Address.{
  IsPlain, IsDomain, IsAddress, matches_email_iff, split-address,
}

pub record IsMailbox (email : Text) : Type 0 where
  pub local : Text
  pub domain : Text
  pub shape : email ≡ local ++ b'@' ∷ domain
  pub plain : IsPlain local
  pub dotted : IsDomain domain
  pub not_too_long : length email ≤ 254
  pub local_fits : length local ≤ 64
  pub domain_fits : length domain ≤ 253
  pub allowed : All (λ c. is_local_char c ≡ true) local
  pub no_double_dot : ¬ IsInfix (codes "..") local
  pub no_edge_dot : HasNoEdge b'.' local
  pub not_disposable : All (λ word. domain ≢ word) disposable_domains

no_errors_iff :
    (a b c d e f g h : Bool)
    → (is_nil (
          push_if a bad_format (
            push_if b too_long (
              push_if c local_too_long (
                push_if d domain_too_long (
                  push_if e bad_local_chars
                    (push_if f double_dot (push_if g edge_dot (push_if h disposable []))))))))
        ≡ true)
      ↔ ((a ≡ false)
          × (b ≡ false)
          × (c ≡ false)
          × (d ≡ false)
          × (e ≡ false)
          × (f ≡ false)
          × (g ≡ false)
          × (h ≡ false))
no_errors_iff a b c d e f g h = ground arith

-- The tests that are made of a part which is not empty.
abbrev Fits : Text → Text → Type 0
Fits local domain =
    (length local ≤ 64)
    × (length domain ≤ 253)
    × All (λ c. is_local_char c ≡ true) local
    × (¬ IsInfix (codes "..") local)
    × HasNoEdge b'.' local
    × All (λ word. domain ≢ word) disposable_domains

unless_empty-false : (s : Text) (b : Bool) → s ≢ [] → (unless_empty s b ≡ false) ↔ (b ≡ false)
unless_empty-false [] b h = absurd (h refl)
unless_empty-false (c ∷ s) b h = ((λ e. e), (λ e. e))

ltb-false_iff : (a b : ℕ) → (ltb a b ≡ false) ↔ (b ≤ a)
ltb-false_iff a b = ground arith

IsDomain-ne-nil : (s : Text) → IsDomain s → s ≢ []
IsDomain-ne-nil s ([], top, e, p, q) h = p.0 refl
IsDomain-ne-nil s (c ∷ host, top, e, p, q) h = cc

allowed_iff :
    (s : Text)
    → ((if all is_local_char s then false else true) ≡ false) ↔ All (λ c. is_local_char c ≡ true) s
allowed_iff s = ground (arith, all_iff is_local_char s)

edge_iff : (s : Text) → ((starts b'.' s || ends_with b'.' s) ≡ false) ↔ HasNoEdge b'.' s
edge_iff s = ground (arith, no_edge_iff b'.' s)

format_iff : (s : Text) → ((if matches_email false s then false else true) ≡ false) ↔ IsAddress s
format_iff s = ground (arith, matches_email_iff s)

-- The last six tests, of the parts of an address.
parts_iff :
    (local domain : Text)
    → local ≢ []
    → domain ≢ []
    → ((unless_empty local (ltb 64 (length local)) ≡ false)
        × (unless_empty domain (ltb 253 (length domain)) ≡ false)
        × (unless_empty local (if all is_local_char local then false else true) ≡ false)
        × (unless_empty local (includes local (codes "..")) ≡ false)
        × (unless_empty local (starts b'.' local || ends_with b'.' local) ≡ false)
        × (unless_empty domain (any (same domain) disposable_domains) ≡ false))
      ↔ Fits local domain
parts_iff local domain p q = (
  λ h. (
    (ltb-false_iff 64 (length local)).0 ((unless_empty-false local _ p).0 h.0),
    (ltb-false_iff 253 (length domain)).0 ((unless_empty-false domain _ q).0 h.1),
    (allowed_iff local).0 ((unless_empty-false local _ p).0 h.2),
    (not_includes_iff local (codes "..")).0 ((unless_empty-false local _ p).0 h.3),
    (edge_iff local).0 ((unless_empty-false local _ p).0 h.4),
    (not_same_iff domain disposable_domains).0 ((unless_empty-false domain _ q).0 h.5),
  ),
  λ f. (
    (unless_empty-false local _ p).1 ((ltb-false_iff 64 (length local)).1 f.0),
    (unless_empty-false domain _ q).1 ((ltb-false_iff 253 (length domain)).1 f.1),
    (unless_empty-false local _ p).1 ((allowed_iff local).1 f.2),
    (unless_empty-false local _ p).1 ((not_includes_iff local (codes "..")).1 f.3),
    (unless_empty-false local _ p).1 ((edge_iff local).1 f.4),
    (unless_empty-false domain _ q).1 ((not_same_iff domain disposable_domains).1 f.5),
  ),
)

address_errors_iff :
    (local domain : Text)
    → IsPlain local
    → IsDomain domain
    → (is_nil (email_errors (local ++ b'@' ∷ domain)) ≡ true)
      ↔ ((length (local ++ b'@' ∷ domain) ≤ 254) × Fits local domain)
unfolding email_errors
address_errors_iff local domain p d =
    let email : Text = local ++ b'@' ∷ domain in
    let format = format_iff email in
    let parts = parts_iff local domain p.0 (IsDomain-ne-nil domain d) in
    rw ((split-address local domain p d).0, (split-address local domain p d).1)
      (
        λ h.
            let tests = (no_errors_iff _ _ _ _ _ _ _ _).0 h in
            (
              (ltb-false_iff 254 (length email)).0 tests.1,
              parts.0 (tests.2, tests.3, tests.4, tests.5, tests.6, tests.7),
            ),
        λ f.
            let (a, b, c, e, g, i) = parts.1 f.1 in
            (no_errors_iff _ _ _ _ _ _ _ _).1 (
              format.1 (local, domain, refl, p, d),
              (ltb-false_iff 254 (length email)).1 f.0,
              a,
              b,
              c,
              e,
              g,
              i,
            ),
      )

email_errors-IsAddress : (email : Text) → is_nil (email_errors email) ≡ true → IsAddress email
unfolding email_errors
email_errors-IsAddress email h = (format_iff email).0 ((no_errors_iff _ _ _ _ _ _ _ _).0 h).0

email_errors-nil_iff : (email : Text) → (is_nil (email_errors email) ≡ true) ↔ IsMailbox email
email_errors-nil_iff email = (
  λ h.
      let (local, domain, e, p, d) = email_errors-IsAddress email h in
      let (short, fits) = (address_errors_iff local domain p d).0 (rw e at h) in
      record {
        local = local;
        domain = domain;
        shape = e;
        plain = p;
        dotted = d;
        not_too_long = rw e short;
        local_fits = fits.0;
        domain_fits = fits.1;
        allowed = fits.2;
        no_double_dot = fits.3;
        no_edge_dot = fits.4;
        not_disposable = fits.5;
      },
  λ m. rw m.shape (
      (address_errors_iff m.local m.domain m.plain m.dotted).1 (
        rw m.shape at m.not_too_long,
        (m.local_fits, m.domain_fits, m.allowed, m.no_double_dot, m.no_edge_dot, m.not_disposable),
      )),
)

module _ (to_lower : Text → Text) where
  -- An email is accepted exactly when it is not empty and, trimmed and in lower case, it is a
  -- mailbox: local@host.top of at most 254 code units, the local part of at most 64 allowed code
  -- units with no dot doubled or at an edge, the domain of at most 253 and not a disposable one.
  pub validate_email-valid_iff :
      (email : Text)
      → ((validate_email to_lower email).valid ≡ true)
        ↔ ((email ≢ []) × IsMailbox (to_lower (trim email)))
  unfolding validate_email
  validate_email-valid_iff [] = ((λ h. cc), (λ h. absurd (h.0 refl)))
  validate_email-valid_iff (c ∷ s) =
      let mailbox = email_errors-nil_iff (to_lower (trim (c ∷ s))) in
      ((λ h. ((λ e. cc), mailbox.0 h)), (λ h. mailbox.1 h.1))
