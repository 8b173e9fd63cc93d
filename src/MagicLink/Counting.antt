-- ===== src/MagicLink/Counting.antt =====
-- How generateMagicLink of smp-auth-ts/src/services/magic-link.service.ts counts the links of a day.
use anticipation.Base.{
  ℕ, ◌≡◌, ◌+◌, refl, String, Bool, true, false, Option, none, some, Bool-cases, inl, inr, ◌⊎◌,
  eq_refl, ◌∙◌, ap, if◌then◌else◌,
}
use anticipation.Base.Result.{Result, ok, err}
use anticipation.Base.Exec.{resume, handle, pure, ◌>>=◌, ◌>>◌}
use anticipation.Redis.Laws.{Redis}
use anticipation.MagicLink.State.{
  LinkConfig, LinkError, redis_down, Link, Services, Store, Run, link_generated, emit_event, answer,
}
use anticipation.MagicLink.{LinkRequest, Generated, count_of, revoke_existing_links, or_else}
use anticipation.MagicLink.Generate.{
  counter_key, increment_daily_counter, store_magic_link, send_magic_link_email, new_link, unsent,
  issue, generate_for,
}
use anticipation.MagicLink.Quiet.{
  IsQuiet, quiet_resume, revoke_existing_links-IsQuiet, store_magic_link-IsQuiet,
  send_magic_link_email-IsQuiet, emit_event-IsQuiet,
}

-- 1 for a link that was made.
abbrev pub made : Result LinkError Generated → ℕ
made (ok g) = if g.success then 1 else 0
made (err e) = 0

module _ (redis : Redis) (config : LinkConfig) where
  open redis use {Strings, get, members, get-set}

  abbrev pub count : String → Store redis → ℕ
  count key w = count_of (get ℕ key w.counters)

  -- The counter went up by one, or no link was made.
  abbrev pub IsCounted : String → ℕ → Result LinkError Generated × Store redis → Type 0
  IsCounted key n x = (count key x.1 ≡ n + 1) ⊎ ((made x.0 ≡ 0) × (count key x.1 ≡ n))

  -- Quiet steps before the counter is raised.
  before_resume :
      {A : Type 0} (key : String) (n : ℕ) (f : A → Run redis Generated)
      (x : Result LinkError A × Store redis)
      → count key x.1 ≡ n
      → ((a : A) (v : Store redis) → count key v ≡ n → IsCounted key n (f a v))
      → IsCounted key n (resume f x)
  before_resume key n f (ok a, v) same then_counted = then_counted a v same
  before_resume key n f (err e, v) same then_counted = inr (refl, same)

  -- Quiet steps after it.
  after_resume :
      {A B : Type 0} (key : String) (n : ℕ) (f : A → Run redis B)
      (x : Result LinkError A × Store redis)
      → count key x.1 ≡ n
      → ((a : A) → IsQuiet redis config (f a))
      → count key (resume f x).1 ≡ n
  after_resume key n f (ok a, v) same quiet = ap (λ c. count_of (get ℕ key c)) (quiet a v) ∙ same
  after_resume key n f (err e, v) same quiet = same

  abbrev counted : String → Store redis → Store redis
  counted key v = record v { counters = redis.set ℕ key (count key v + 1) (some 86400) v.counters }

  increment_up :
      (email day : String) (v : Store redis)
      → v.up ≡ true
      → increment_daily_counter redis config email day v
        ≡ (ok tt, counted (counter_key redis config email day) v)
  unfolding increment_daily_counter
  increment_up email day v up = simp up

  increment_down :
      (email day : String) (v : Store redis)
      → v.up ≡ false
      → increment_daily_counter redis config email day v ≡ (err redis_down, v)
  unfolding increment_daily_counter
  increment_down email day v down = simp down

  -- What follows the mail.
  abbrev told : String → String → Link → Option String → Bool → Run redis Generated
  told email id link user sent =
      emit_event redis (link_generated (or_else user "anonymous") email link.action sent)
      >> pure (record { success = true; link_id = some id; email_sent = sent })

  told-IsQuiet :
      (email id : String) (link : Link) (user : Option String) (sent : Bool)
      → IsQuiet redis config (told email id link user sent)
  told-IsQuiet email id link user sent w =
      quiet_resume redis config
        (λ (_ : Unit {0}). pure (record { success = true; link_id = some id; email_sent = sent })) w
        (emit_event redis (link_generated (or_else user "anonymous") email link.action sent) w)
        (λ a v. refl)
        (emit_event-IsQuiet redis config
          (link_generated (or_else user "anonymous") email link.action sent) w)

  abbrev mailed : Services → String → String → Link → Option String → Run redis Generated
  mailed s email id link user =
      send_magic_link_email redis config s link >>= told email id link user

  mailed-IsQuiet :
      (s : Services) (email id : String) (link : Link) (user : Option String)
      → IsQuiet redis config (mailed s email id link user)
  mailed-IsQuiet s email id link user w =
      quiet_resume redis config (told email id link user) w
        (send_magic_link_email redis config s link w) (told-IsQuiet email id link user)
        (send_magic_link_email-IsQuiet redis config s link w)

  raised-IsCounted :
      (s : Services) (email day id : String) (link : Link) (user : Option String) (n : ℕ)
      (v : Store redis)
      → count (counter_key redis config email day) v ≡ n
      → IsCounted (counter_key redis config email day) n (
          resume
            (λ (_ : Unit {0}). mailed s email id link user)
            (increment_daily_counter redis config email day v))
  raised-IsCounted s email day id link user n v same = elim (Bool-cases v.up) [
    | inr down ↦ rw (increment_down email day v down) (inr (refl, same))
    | inl up ↦
        let key = counter_key redis config email day in
        rw (increment_up email day v up) (
          inl (
            ap (λ c. count_of (get ℕ key c)) (mailed-IsQuiet s email id link user (counted key v))
            ∙ (raised_count key v ∙ ap (λ m. m + 1) same)))
  ]
    where
      raised_count : (key : String) (v : Store redis) → count key (counted key v) ≡ count key v + 1
      raised_count key v = rw get-set (rw (eq_refl key) refl)

  issue-IsCounted :
      (s : Services) (r : LinkRequest) (user : Option String) (id token day : String) (now : ℕ)
      (w : Store redis)
      → IsCounted
          (counter_key redis config r.email day)
          (count (counter_key redis config r.email day) w)
          (issue redis config s r user id token day now w)
  unfolding issue
  issue-IsCounted s r user id token day now w =
      let key = counter_key redis config r.email day in
      let link = new_link redis config r user id token now in
      let raise : Run redis Generated =
        increment_daily_counter redis config r.email day >> mailed s r.email id link user in
      before_resume key (count key w)
        (λ (_ : Unit {0}). store_magic_link redis config link >> raise)
        (revoke_existing_links redis config r.email now w)
        (ap (λ c. count_of (get ℕ key c))
          (revoke_existing_links-IsQuiet redis config r.email now w))
        (λ a v same.
          before_resume key (count key w) (λ (_ : Unit {0}). raise)
            (store_magic_link redis config link v)
            (ap (λ c. count_of (get ℕ key c)) (store_magic_link-IsQuiet redis config link v) ∙ same)
            (λ b u same'. raised-IsCounted s r.email day id link user (count key w) u same'))

  generate_for-IsCounted :
      (s : Services) (r : LinkRequest) (id token day : String) (now : ℕ) (o : Option String)
      (w : Store redis)
      → IsCounted
          (counter_key redis config r.email day)
          (count (counter_key redis config r.email day) w)
          (generate_for redis config s r id token day now o w)
  unfolding generate_for
  generate_for-IsCounted s r id token day now (some user) w =
      issue-IsCounted s r (some user) id token day now w
  generate_for-IsCounted s r id token day now none w =
      elim (Bool-cases config.require_existing_user) [
        | inl required ↦ rw required (inr (refl, refl))
        | inr open_to_all ↦ rw open_to_all (issue-IsCounted s r none id token day now w)
      ]

  abbrev pub answered :
      Services
      → LinkRequest
      → String
      → String
      → String
      → ℕ
      → Result String (Option String)
      → Run redis Generated
  answered s r id token day now a w =
      resume (generate_for redis config s r id token day now) (answer redis a w)

  pub answered-IsCounted :
      (s : Services) (r : LinkRequest) (id token day : String) (now : ℕ)
      (a : Result String (Option String)) (w : Store redis)
      → IsCounted
          (counter_key redis config r.email day)
          (count (counter_key redis config r.email day) w)
          (resume (generate_for redis config s r id token day now) (answer redis a w))
  answered-IsCounted s r id token day now (ok o) w = generate_for-IsCounted s r id token day now o w
  answered-IsCounted s r id token day now (err e) w = inr (refl, refl)

  pub handle-IsCounted :
      (key : String) (n : ℕ) (x : Result LinkError Generated × Store redis)
      → IsCounted key n x
      → IsCounted key n (handle (λ (e : LinkError). pure (unsent redis config)) x)
  handle-IsCounted key n (ok g, v) counted_one = counted_one
  handle-IsCounted key n (err e, v) (inl raised) = inl raised
  handle-IsCounted key n (err e, v) (inr (nothing, same)) = inr (refl, same)
