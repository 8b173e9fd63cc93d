-- ===== src/MagicLink/Quiet.antt =====
-- Steps of generateMagicLink in smp-auth-ts/src/services/magic-link.service.ts that leave the daily
-- counters alone.
use anticipation.Base.{
  ℕ, ◌≡◌, refl, String, List, [], ◌∷◌, Bool, true, false, Option, none, some, Bool-cases, inl, inr,
  ◌∙◌, if◌then◌else◌,
}
use anticipation.Base.Result.{Result, ok, err, Result-cases}
use anticipation.Base.Exec.{resume, pure}
use anticipation.Redis.Laws.{Redis}
use anticipation.MagicLink.State.{
  LinkConfig, LinkError, LinkStatus, revoked, Link, Services, Store, Run, LinkEvent, emit_event,
  set_link,
}
use anticipation.MagicLink.{
  is_pending, with_status, seconds, push_link, sort_links, update_magic_link, update_found,
  update_link_status, load_links, get_user_magic_links, revoke_links, revoke_existing_links,
}
use anticipation.MagicLink.Generate.{store_magic_link, send_magic_link_email}

module _ (redis : Redis) (config : LinkConfig) where
  open redis use {Strings, get, members, get-set}

  -- A command leaves the counters alone.
  abbrev pub IsQuiet : {A : Type 0} → Run redis A → Type 0
  IsQuiet m = (w : Store redis) → (m w).1.counters ≡ w.counters

  pub quiet_resume :
      {A B : Type 0} (f : A → Run redis B) (w : Store redis) (x : Result LinkError A × Store redis)
      → ((a : A) → IsQuiet (f a))
      → x.1.counters ≡ w.counters
      → (resume f x).1.counters ≡ w.counters
  quiet_resume f w (ok a, v) then_quiet kept = then_quiet a v ∙ kept
  quiet_resume f w (err e, v) then_quiet kept = kept

  set_link-IsQuiet : (k : String) (l : Link) (ttl : ℕ) → IsQuiet (set_link redis k l ttl)
  set_link-IsQuiet k l ttl w = elim (Bool-cases w.up) [
    | inl up ↦ rw up refl
    | inr down ↦ rw down refl
  ]

  update_found-IsQuiet :
      (st : LinkStatus) (now : ℕ) (o : Option Link) → IsQuiet (update_found redis config st now o)
  unfolding update_found update_magic_link
  update_found-IsQuiet st now none w = refl
  update_found-IsQuiet st now (some l) w =
      set_link-IsQuiet (with_status st now l).id (with_status st now l) (seconds redis config) w

  update_link_status-IsQuiet :
      (id : String) (st : LinkStatus) (now : ℕ)
      → IsQuiet (update_link_status redis config id st now)
  unfolding update_link_status
  update_link_status-IsQuiet id st now w =
      update_found-IsQuiet st now (if w.up then get Link id w.links else none) w

  revoke_one-IsQuiet :
      (b : Bool) (id : String) (now : ℕ)
      → IsQuiet (if b then update_link_status redis config id revoked now else pure tt)
  revoke_one-IsQuiet true id now w = update_link_status-IsQuiet id revoked now w
  revoke_one-IsQuiet false id now w = refl

  revoke_links-IsQuiet : (ls : List Link) (now : ℕ) → IsQuiet (revoke_links redis config ls now)
  unfolding revoke_links
  revoke_links-IsQuiet [] now w = refl
  revoke_links-IsQuiet (l ∷ ls) now w =
      quiet_resume (λ (_ : Unit {0}). revoke_links redis config ls now) w
        ((if is_pending l.status then update_link_status redis config l.id revoked now else pure tt)
          w)
        (λ a. revoke_links-IsQuiet ls now) (revoke_one-IsQuiet (is_pending l.status) l.id now w)

  load_links-IsQuiet : (ids : List String) → IsQuiet (load_links redis config ids)
  unfolding load_links
  load_links-IsQuiet [] w = refl
  load_links-IsQuiet (id ∷ ids) w =
      quiet_resume
        (λ (rest : List Link). pure (push_link (if w.up then get Link id w.links else none) rest)) w
        (load_links redis config ids w) (λ a v. refl) (load_links-IsQuiet ids w)

  pub revoke_existing_links-IsQuiet :
      (email : String) (now : ℕ) → IsQuiet (revoke_existing_links redis config email now)
  unfolding revoke_existing_links get_user_magic_links
  revoke_existing_links-IsQuiet email now w =
      let ids : List String = if w.up then members email w.by_email else [] in
      quiet_resume (λ (links : List Link). revoke_links redis config links now) w
        (resume (λ (links : List Link). pure (sort_links links)) (load_links redis config ids w))
        (λ ls. revoke_links-IsQuiet ls now)
        (quiet_resume (λ (links : List Link). pure (sort_links links)) w
          (load_links redis config ids w) (λ a v. refl) (load_links-IsQuiet ids w))

  pub store_magic_link-IsQuiet : (l : Link) → IsQuiet (store_magic_link redis config l)
  unfolding store_magic_link
  store_magic_link-IsQuiet l w = elim (Bool-cases w.up) [
    | inl up ↦ rw up refl
    | inr down ↦ rw down refl
  ]

  pub send_magic_link_email-IsQuiet :
      (s : Services) (l : Link) → IsQuiet (send_magic_link_email redis config s l)
  unfolding send_magic_link_email update_magic_link
  send_magic_link_email-IsQuiet s l w = elim (Result-cases (s.send_link l)) [
    | inl (true, sent) ↦ elim (Bool-cases w.up) [
      | inl up ↦ rw sent (rw up refl)
      | inr down ↦ rw sent (rw down refl)
    ]
    | inl (false, unsent_mail) ↦ rw unsent_mail refl
    | inr (e, thrown) ↦ rw thrown refl
  ]

  pub emit_event-IsQuiet : (e : LinkEvent) → IsQuiet (emit_event redis e)
  emit_event-IsQuiet e w = elim (Bool-cases w.up) [ inl up ↦ rw up refl | inr down ↦ rw down refl ]
