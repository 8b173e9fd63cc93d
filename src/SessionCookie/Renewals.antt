-- ===== src/SessionCookie/Renewals.antt =====
-- How long a session of mu-auth/src/session/session.service.ts lasts when it is refreshed.
use anticipation.Base.{
  ℕ, ◌+◌, ◌≡◌, ◌≤◌, ◌↔◌, ◌⊎◌, inl, inr, refl, sym, ap, String, List, [], ◌∷◌, Option, none, some,
}
use anticipation.Base.Result.{Result, ok, err, ok_injective}
use anticipation.SessionCookie.{
  Source, SessionData, UserInfo, Crypto, Users, Draw, session_ttl, new_session, bind, issue,
  encrypt_session_to_cookie, validate_session, refresh_session, create_session,
}
use anticipation.SessionCookie.Laws.{IsKnown, validate-encrypt_iff}

-- A refresh of a session, with the answer of getUserInfo by then.
pub record Renewal : Type 0 where
  pub users : Users
  pub now : ℕ
  pub iv : String

-- The time of the last refresh, or of the creation.
abbrev pub last_of : ℕ → List Renewal → ℕ
last_of at [] = at
last_of at (r ∷ rs) = last_of r.now rs

-- Each refresh comes at most 24 hours after the one before, and finds the user.
abbrev pub IsTimely : String → ℕ → List Renewal → Type 0
IsTimely user at [] = Unit
IsTimely user at (r ∷ rs) =
    ((r.now ≤ at + session_ttl) × IsKnown r.users user) × IsTimely user r.now rs

abbrev pub then : {A B : Type 0} → Option A → (A → Option B) → Option B
then none f = none
then (some a) f = f a

pub Option-cases : {A : Type 0} (o : Option A) → ((a : A) × (o ≡ some a)) ⊎ (o ≡ none)
Option-cases none = inr refl
Option-cases (some a) = inl (a, refl)

bind_inv :
    {A B : Type 0} (r : Result String A) (f : A → Result String B) {b : B}
    → bind r f ≡ ok b
    → (a : A) × (r ≡ ok a) × (f a ≡ ok b)
bind_inv (ok a) f h = (a, refl, h)
bind_inv (err e) f h = absurd cc

module _ (crypto : Crypto) (secret : String) where
  open crypto use {Cookie}

  -- The cookie after a sequence of refreshes, each with the cookie of the one before.
  pub renew : List Renewal → Cookie → Option Cookie
  renew [] cookie = some cookie
  renew (r ∷ rs) cookie =
      then (validate_session crypto secret r.users cookie r.now)
        (λ s. renew rs (refresh_session crypto secret s r.now r.iv).1)

  -- The session of the cookie after the refreshes, at the time `now`.
  abbrev pub renewed : List Renewal → Cookie → Users → ℕ → Option SessionData
  renewed rs cookie users now =
      then (renew rs cookie) (λ c. validate_session crypto secret users c now)

  -- What a session is after the refreshes.
  pub Outlives : SessionData → List Renewal → Users → ℕ → SessionData → Type 0
  Outlives s rs users now d =
      IsTimely s.user_id s.last_activity rs
      × ((now ≤ last_of s.last_activity rs + session_ttl)
          × ((d ≡ record s { last_activity = last_of s.last_activity rs })
              × IsKnown users s.user_id))

  renewed-encrypt_iff :
      (s : SessionData) (iv : String) (rs : List Renewal) (users : Users) (now : ℕ)
      (d : SessionData)
      → (renewed rs (encrypt_session_to_cookie crypto secret s s.last_activity iv) users now
          ≡ some d)
        ↔ Outlives s rs users now d
  unfolding renew Outlives refresh_session
  renewed-encrypt_iff s iv [] users now d =
      let base = validate-encrypt_iff crypto secret users s d iv now in
      ((λ h. (tt, base.0 h)), (λ (t, h). base.1 h))
  renewed-encrypt_iff s iv (r ∷ rs) users now d =
      let cookie = encrypt_session_to_cookie crypto secret s s.last_activity iv in
      let here = λ (e : SessionData). validate-encrypt_iff crypto secret r.users s e iv r.now in
      elim (Option-cases (validate_session crypto secret r.users cookie r.now)) [
        | inl (e, taken) ↦
            let (soon, (same, known)) = (here e).0 taken in
            let next =
              renewed-encrypt_iff (record s { last_activity = r.now }) r.iv rs users now d in
            rw taken (
              rw same (
                (λ h. (((soon, known), (next.0 h).0), (next.0 h).1)),
                (λ ((t, ts), h). next.1 (ts, h)),
              ))
        | inr refused ↦ rw refused (
          (λ h. absurd cc),
          (λ (((soon, known), ts), h). let taken = (here s).1 (soon, (refl, known)) in absurd cc),
        )
      ]

  issue_inv :
      (user fingerprint : String) (source : Source) (now : ℕ) (draw : Draw)
      (answer : Result String (Option UserInfo)) (o : Option UserInfo) {x : SessionData × Cookie}
      → answer ≡ ok o
      → issue crypto secret user fingerprint source now draw o ≡ ok x
      → (info : UserInfo) × (answer ≡ ok (some info))
        × (x ≡ (
          new_session user info fingerprint source now draw,
          encrypt_session_to_cookie crypto secret
              (new_session user info fingerprint source now draw)
              now
              draw.iv,
        ))
  issue_inv user fingerprint source now draw answer none known issued = absurd cc
  issue_inv user fingerprint source now draw answer (some info) known issued =
      (info, known, sym (ok_injective issued))

  -- What a creation that succeeds gives.
  pub create_session_inv :
      (users : Users) (user fingerprint : String) (source : Source) (now : ℕ) (draw : Draw)
      {x : SessionData × Cookie}
      → create_session crypto secret users user fingerprint source now draw ≡ ok x
      → (info : UserInfo) × (users user ≡ ok (some info))
        × (x ≡ (
          new_session user info fingerprint source now draw,
          encrypt_session_to_cookie crypto secret
              (new_session user info fingerprint source now draw)
              now
              draw.iv,
        ))
  unfolding create_session
  create_session_inv users user fingerprint source now draw {x} h =
      let (o, known, issued) =
        bind_inv (users user) (issue crypto secret user fingerprint source now draw) h in
      issue_inv user fingerprint source now draw (users user) o known issued

  -- A session that was created at the time `made` and refreshed by a sequence of calls is taken at
  -- the time `t` exactly if each refresh and `t` come at most 24 hours after the call before and all
  -- of them find the user, and then it is the session of the creation with the time of the last
  -- refresh: its roles and organizations are those that the user had at `made`.
  pub renewed-create_session_iff :
      (users : Users) (user fingerprint : String) (source : Source) (made : ℕ) (draw : Draw)
      (s : SessionData) (cookie : Cookie)
      → create_session crypto secret users user fingerprint source made draw ≡ ok (s, cookie)
      → (rs : List Renewal) (users' : Users) (t : ℕ) (d : SessionData)
      → (renewed rs cookie users' t ≡ some d) ↔ (
          IsTimely user made rs
          × ((t ≤ last_of made rs + session_ttl)
              × ((d ≡ record s { last_activity = last_of made rs }) × IsKnown users' user)))
  unfolding Outlives
  renewed-create_session_iff users user fingerprint source made draw s cookie h rs users' t d =
      let (info, known, same) = create_session_inv users user fingerprint source made draw h in
      let same_session = sym (ap (λ (z : SessionData × Cookie). z.0) same) in
      let same_cookie = sym (ap (λ (z : SessionData × Cookie). z.1) same) in
      rw (sym same_session) (
        rw (sym same_cookie) (
          renewed-encrypt_iff (new_session user info fingerprint source made draw) draw.iv rs users'
            t d))
