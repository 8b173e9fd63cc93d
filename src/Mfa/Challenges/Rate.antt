-- ===== src/Mfa/Challenges/Rate.antt =====
-- The rate limit of initiateMFAChallenge in smp-auth-ts/src/services/mfa.service.ts.
use anticipation.Base.{
  ℕ, ◌≡◌, ◌+◌, ◌≤◌, refl, String, List, [], ◌∷◌, false, Option, none, some, arith, Bool-cases, inl,
  inr, subst,
}
use anticipation.Base.Result.{Result, ok, err}
use anticipation.Base.Exec.{resume}
use anticipation.Redis.Laws.{Redis}
use anticipation.Mfa.State.{MethodType, Method, Challenge, Config, World, Error, type_not_active}
use anticipation.Mfa.Methods.{sort_methods}
use anticipation.Mfa.Methods.Loads.{stored, get_user_methods_down, get_user_methods-stored}
use anticipation.Mfa.Challenges.{
  select_method, enabled_only, create_challenge, initiate_challenge, same_type, or_throw,
  find_method,
}
use anticipation.Mfa.Challenges.Counting.{IsCounted, count, create_challenge-IsCounted, made}

module _ (redis : Redis) (config : Config) where
  open redis use {Strings, Sets, get, set, members, get-set}

  or_throw-kept :
      (e : Error) (o : Option Method) (w : World redis) → (or_throw redis config e o w).1 ≡ w
  or_throw-kept e none w = refl
  or_throw-kept e (some m) w = refl

  select_method-kept :
      (kind : Option MethodType) (ms : List Method) (w : World redis)
      → (select_method redis config kind ms w).1 ≡ w
  unfolding select_method
  select_method-kept kind [] w = refl
  select_method-kept (some kind) (m ∷ ms) w =
      or_throw-kept type_not_active (find_method (λ n. same_type n.kind kind) (m ∷ ms)) w
  select_method-kept none (m ∷ ms) w = refl

  selected-IsCounted :
      (user id random : String) (now : ℕ) (w : World redis) (x : Result Error Method × World redis)
      → x.1 ≡ w
      → IsCounted redis config user w (resume (create_challenge redis config user id random now) x)
  selected-IsCounted user id random now w (ok m, v) same =
      subst
        (λ u. IsCounted redis config user u (create_challenge redis config user id random now m v))
        same (create_challenge-IsCounted redis config user id random now m v)
  selected-IsCounted user id random now w (err e, v) same = rw same (inr (refl, omega arith))

  initiate_challenge_down :
      (user id random : String) (kind : Option MethodType) (now : ℕ) (w : World redis)
      → w.up ≡ false
      → IsCounted redis config user w (initiate_challenge redis config user kind id random now w)
  unfolding initiate_challenge select_method
  initiate_challenge_down user id random kind now w down =
      rw (get_user_methods_down redis user w down) (inr (refl, omega arith))

  initiate_challenge-IsCounted :
      (user id random : String) (kind : Option MethodType) (now : ℕ) (w : World redis)
      → IsCounted redis config user w (initiate_challenge redis config user kind id random now w)
  unfolding initiate_challenge
  initiate_challenge-IsCounted user id random kind now w = elim (Bool-cases w.up) [
    | inr down ↦ initiate_challenge_down user id random kind now w down
    | inl up ↦ rw (get_user_methods-stored redis user w up) (
        selected-IsCounted user id random now w _ (
          select_method-kept kind
            (enabled_only (sort_methods (stored redis w (members user w.user_methods)))) w))
  ]

  -- A run of calls for one user, and the challenges they make. The steps between the calls leave the
  -- user's counter alone: it does not expire during the run.
  pub data Issues (user : String) (w : World redis) : World redis → ℕ → Type 0 where
    start : Issues user w w 0
    call :
        {v : World redis} {n : ℕ}
        → Issues user w v n
        → (kind : Option MethodType) (id random : String) (now : ℕ)
        → Issues user w
            (initiate_challenge redis config user kind id random now v).1
            (n + made (initiate_challenge redis config user kind id random now v).0)
    elsewhere :
        {v : World redis} {n : ℕ}
        → Issues user w v n
        → (u : World redis) → get ℕ user u.limits ≡ get ℕ user v.limits
        → Issues user w u n

  made_le : (x : Result Error Challenge) → made x ≤ 1
  made_le (ok c) = omega arith
  made_le (err e) = omega arith

  call-bounded :
      (user : String) (n : ℕ) (v : World redis) (x : Result Error Challenge × World redis)
      → IsCounted redis config user v x
      → (n ≤ (count redis config) user v) × (n ≤ config.rate_max_attempts)
      → (n + made x.0 ≤ (count redis config) user x.1) × (n + made x.0 ≤ config.rate_max_attempts)
  call-bounded user n v x (inl (below, more)) (few, small) =
      let one = made_le x.0 in (omega arith, omega arith)
  call-bounded user n v x (inr (nothing, kept)) (few, small) = (omega arith, omega arith)

  Issues-bounded :
      {user : String} {w v : World redis} {n : ℕ}
      → Issues user w v n
      → (n ≤ (count redis config) user v) × (n ≤ config.rate_max_attempts)
  Issues-bounded start = (omega arith, omega arith)
  Issues-bounded {user = user} (call {v = v} {n = n} run kind id random now) =
      call-bounded user n v (initiate_challenge redis config user kind id random now v)
        (initiate_challenge-IsCounted user id random kind now v) (Issues-bounded run)
  Issues-bounded (elsewhere run u same) =
      let (few, small) = Issues-bounded run in (rw same few, small)

  -- While the user's counter does not expire, no more challenges are made for the user than the rate
  -- limit allows.
  pub initiate_challenge_bounded :
      (user : String) (w v : World redis) (n : ℕ) → Issues user w v n → n ≤ config.rate_max_attempts
  initiate_challenge_bounded user w v n run = (Issues-bounded run).1
