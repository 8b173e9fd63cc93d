-- ===== src/Mfa/Backup/SingleUse.antt =====
-- A backup code is accepted at most once.
use mathlib.Core.Bool.{◌||◌}
use anticipation.Base.{
  ℕ, ◌≡◌, ◌≢◌, refl, String, List, [], ◌∷◌, ◌++◌, Bool, true, false, ◌&&◌, not, none, some, arith,
  Option-cases, Bool-cases, inl, inr, ◌⊎◌, str_eq, eq_iff, eq_refl, sym, subst, ◌∙◌, map,
}
use anticipation.Base.Result.{ok}
use anticipation.Redis.Laws.{Redis, contains}
use anticipation.Mfa.State.{BackupCodes, World}
use anticipation.Mfa.Backup.{one_year, mark_used, use_found, use_backup_code, generate_backup_codes}

contains-append :
    (x y : String) (xs : List String) → contains x (xs ++ y ∷ []) ≡ (contains x xs || str_eq y x)
contains-append x y [] = ground arith
contains-append x y (z ∷ xs) = ground (arith, contains-append x y xs)

or_true : (b : Bool) → (b || true) ≡ true
or_true true = refl
or_true false = refl

-- Marking another code keeps a code used.
contains-mark_used :
    (h x : String) (b : BackupCodes)
    → contains h b.used_codes ≡ true
    → contains h (mark_used x b).used_codes ≡ true
contains-mark_used h x b used = ground (arith, contains-append h x b.used_codes)

module _ (redis : Redis) (hash : String → String) where
  open redis use {Strings, get, set, get-set}

  -- The hash can no longer be redeemed: the user's codes are gone, or hold it as used.
  abbrev pub IsSpent : World redis → String → String → Type 0
  IsSpent w user h =
      (get BackupCodes user w.backups ≡ none)
      ⊎ ((b : BackupCodes) × (get BackupCodes user w.backups ≡ some b)
          × (contains h b.used_codes ≡ true))

  pub use_backup_code-ok_true :
      (user code : String) (w : World redis)
      → (use_backup_code redis hash user code w).0 ≡ ok true
      → (b : BackupCodes) × (get BackupCodes user w.backups ≡ some b)
        × (contains (hash code) b.codes ≡ true)
        × (contains (hash code) b.used_codes ≡ false)
        × (w.up ≡ true)
  unfolding use_backup_code
  use_backup_code-ok_true user code w h = elim (Option-cases (get BackupCodes user w.backups)) [
    | inl missing ↦ absurd (ground arith)
    | inr (b, found) ↦ (b, found, ground arith, ground arith, ground arith)
  ]

  -- What a call writes: nothing, or the code as used.
  use_backup_code-backups :
      (user code : String) (w : World redis)
      → ((use_backup_code redis hash user code w).1.backups ≡ w.backups)
        ⊎ ((b : BackupCodes) × (get BackupCodes user w.backups ≡ some b)
            × ((use_backup_code redis hash user code w).1.backups
                ≡ set BackupCodes user (mark_used (hash code) b) (some one_year) w.backups))
  unfolding use_backup_code
  use_backup_code-backups user code w = elim (Option-cases (get BackupCodes user w.backups)) [
    | inl missing ↦ inl (ground arith)
    | inr (b, found) ↦
        elim (Bool-cases
          (w.up && (contains (hash code) b.codes && not (contains (hash code) b.used_codes)))) [
            | inl written ↦ inr (b, found, ground arith)
            | inr kept ↦ inl (ground arith)
          ]
  ]

  accepted_backups :
      (user code : String) (w : World redis) (b : BackupCodes)
      → (use_backup_code redis hash user code w).0 ≡ ok true
      → get BackupCodes user w.backups ≡ some b
      → (use_backup_code redis hash user code w).1.backups
        ≡ set BackupCodes user (mark_used (hash code) b) (some one_year) w.backups
  unfolding use_backup_code
  accepted_backups user code w b h found = ground arith

  use_backup_code-IsSpent_self :
      (user code : String) (w : World redis)
      → (use_backup_code redis hash user code w).0 ≡ ok true
      → IsSpent (use_backup_code redis hash user code w).1 user (hash code)
  use_backup_code-IsSpent_self user code w h =
      let (b, found, listed, unused, up) = use_backup_code-ok_true user code w h in
      rw (accepted_backups user code w b h found) (
        inr (
          mark_used (hash code) b,
          rw get-set (rw (eq_refl user) refl),
          rw contains-append
              (rw (eq_refl (hash code)) (or_true (contains (hash code) b.used_codes))),
        ))

  spent_codes :
      (user h : String) (w : World redis) (b : BackupCodes)
      → IsSpent w user h
      → get BackupCodes user w.backups ≡ some b
      → contains h b.used_codes ≡ true
  spent_codes user h w b (inl missing) found = cc
  spent_codes user h w b (inr (b', found', used)) found =
      let both : some b' ≡ some b = sym found' ∙ found in
      let same : b' ≡ b = cc in
      subst (λ (x : BackupCodes). contains h x.used_codes ≡ true) same used

  use_backup_code-IsSpent :
      (user code other h : String) (w : World redis)
      → IsSpent w user h
      → IsSpent (use_backup_code redis hash other code w).1 user h
  use_backup_code-IsSpent user code other h w s = elim (use_backup_code-backups other code w) [
    | inl kept ↦ rw kept s
    | inr (b, found, written) ↦ elim (Bool-cases (str_eq other user)) [
      | inl same ↦ rw written (
          inr (
            mark_used (hash code) b,
            rw get-set (rw same refl),
            contains-mark_used h (hash code) b (
                spent_codes user h w b s (
                  subst (λ k. get BackupCodes k w.backups ≡ some b) ((eq_iff other user).0 same)
                    found)),
          ))
      | inr apart ↦ rw written (rw get-set (rw apart s))
    ]
  ]

  IsSpent-refused :
      (user code : String) (w : World redis)
      → IsSpent w user (hash code)
      → (use_backup_code redis hash user code w).0 ≢ ok true
  IsSpent-refused user code w s h =
      let (b, found, listed, unused, up) = use_backup_code-ok_true user code w h in
      cc (spent_codes user (hash code) w b s found)

  -- What may happen to the user's codes after a call: calls with any code of any user, and steps
  -- that write no backup codes while keys expire and the connection comes and goes.
  pub data Later : World redis → World redis → Type 0 where
    here : {w : World redis} → Later w w
    used :
        {w v : World redis}
        → Later w v
        → (user code : String) → Later w (use_backup_code redis hash user code v).1
    elsewhere :
        {w v u : World redis}
        → Later w v
        → ((k : String)
            → (get BackupCodes k u.backups ≡ get BackupCodes k v.backups)
              ⊎ (get BackupCodes k u.backups ≡ none))
        → Later w u

  expire :
      (user h : String) (v u : World redis)
      → (get BackupCodes user u.backups ≡ get BackupCodes user v.backups)
        ⊎ (get BackupCodes user u.backups ≡ none)
      → IsSpent v user h
      → IsSpent u user h
  expire user h v u (inl same) s = rw same s
  expire user h v u (inr gone) s = inl gone

  Later-IsSpent :
      (user h : String) {w v : World redis} → Later w v → IsSpent w user h → IsSpent v user h
  Later-IsSpent user h here s = s
  Later-IsSpent user h (used {v = v} l other code) s =
      use_backup_code-IsSpent user code other h v (Later-IsSpent user h l s)
  Later-IsSpent user h (elsewhere {v = v} {u = u} l kept) s =
      expire user h v u (kept user) (Later-IsSpent user h l s)

  -- Once a backup code was accepted, no code with the same hash is accepted for that user again,
  -- whatever calls of useBackupCode come between and whatever keys expire, as long as no new set
  -- of codes is generated.
  pub use_backup_code_once :
      (user code code' : String) (w v : World redis)
      → (use_backup_code redis hash user code w).0 ≡ ok true
      → Later (use_backup_code redis hash user code w).1 v
      → hash code' ≡ hash code
      → (use_backup_code redis hash user code' v).0 ≢ ok true
  use_backup_code_once user code code' w v accepted later same = IsSpent-refused user code' v (
      subst (IsSpent v user) (sym same)
        (Later-IsSpent user (hash code) later (use_backup_code-IsSpent_self user code w accepted)))

  contains-map :
      (c : String) (cs : List String)
      → contains c cs ≡ true
      → contains (hash c) (map hash cs) ≡ true
  contains-map c [] h = cc
  contains-map c (x ∷ cs) h = elim (Bool-cases (str_eq x c)) [
    | inl same ↦ rw ((eq_iff x c).0 same) (rw (eq_refl (hash c)) refl)
    | inr other ↦ ground (arith, contains-map c cs)
  ]

  -- With the connection up, each code of a freshly generated set is accepted.
  pub use-generate_backup_codes :
      (user code : String) (codes : List String) (now : ℕ) (w : World redis)
      → w.up ≡ true
      → contains code codes ≡ true
      → (use_backup_code redis hash user code
          (generate_backup_codes redis hash user codes now w).1).0
        ≡ ok true
  unfolding use_backup_code generate_backup_codes use_found
  use-generate_backup_codes user code codes now w up listed =
      simp (up, get-set, eq_refl, contains-map code codes listed, use_found)
