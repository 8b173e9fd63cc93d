-- ===== src/Extended/Stored.antt =====
-- The challenge that initiateMFAChallenge of smp-auth-ts/src/services/mfa.service.ts stores.
use anticipation.Base.{ℕ, ◌≡◌, sym, ap, String, Option, some, Bool-cases, inl, inr, eq_refl}
use anticipation.Base.Result.{ok_injective}
use anticipation.Base.Exec.{Ensures, Ensures-resume}
use anticipation.Redis.Laws.{Redis}
use anticipation.Mfa.State.{Challenge, Config, MethodType, World as MfaWorld, Method}
use anticipation.Mfa.Methods.{get_user_methods}
use anticipation.Mfa.Challenges.{
  check_rate_limit, select_method, enabled_only, create_challenge, initiate_challenge, address,
}

module _ (redis : Redis) (config : Config) where
  open redis use {Strings, get, set, get-set}

  -- The challenge is stored, for the user.
  abbrev pub IsStored : String → String → Challenge → MfaWorld redis → Type 0
  IsStored user id c w = (get Challenge id w.challenges ≡ some c) × (c.user_id ≡ user)

  create_challenge-IsStored :
      (user id random : String) (now : ℕ) (m : Method) (w : MfaWorld redis)
      → Ensures (IsStored user id) (create_challenge redis config user id random now m w)
  unfolding create_challenge
  create_challenge-IsStored user id random now m w =
      Ensures-resume (IsStored user id) _
        (λ t v.
          Ensures-resume (IsStored user id) _
            (λ t' u. elim (Bool-cases u.up) [
              | inr down ↦ rw down (λ b told. absurd cc)
              | inl up ↦ rw up (λ b told.
                  let same = ok_injective told in
                  (
                    rw get-set (rw (eq_refl id) (ap some same)),
                    sym (ap (λ (c : Challenge). c.user_id) same),
                  ))
            ])
            (address redis config m v))
        (check_rate_limit redis config user w)

  pub initiate_challenge-IsStored :
      (user id random : String) (kind : Option MethodType) (now : ℕ) (w : MfaWorld redis)
      → Ensures (IsStored user id) (initiate_challenge redis config user kind id random now w)
  unfolding initiate_challenge
  initiate_challenge-IsStored user id random kind now w =
      Ensures-resume (IsStored user id) _
        (λ methods v.
          Ensures-resume (IsStored user id) _
            (λ m u. create_challenge-IsStored user id random now m u)
            (select_method redis config kind (enabled_only methods) v))
        (get_user_methods redis user w)
