-- ===== src/Mfa/Challenges/Code.antt =====
-- The check of a code in verifyMFAChallenge accepts the right codes, and touches no challenge.
use Prim.Native.String.{len}
use anticipation.Base.{
  ◌==◌, ℕ, ◌≡◌, refl, String, Bool, true, false, Option, none, some, arith, Option-cases,
  Bool-cases, inl, inr, ◌≢◌, str_eq, eq_iff, eq_refl, sym, ◌∙◌, ap,
}
use anticipation.Base.Result.{ok}
use anticipation.Redis.Laws.{Redis, contains}
use anticipation.Mfa.State.{
  MethodType, totp, sms, email, webauthn, backup_codes, hardware_token, push, voice, magic_link,
  Method, Challenge, BackupCodes, Config, World,
}
use anticipation.Mfa.Backup.{use_backup_code, use_found}
use anticipation.Mfa.Backup.SingleUse.{use_backup_code-ok_true}
use anticipation.Mfa.Challenges.Verify.{check_totp, check_sent_code, check_code, safe_equal}

same_number : (n : ℕ) → (n == n) ≡ true
same_number n = ground arith

module _ (redis : Redis) (config : Config) (hash : String → String) where
  open redis use {Strings, get, set, del, get-set, get-del}

  use_backup_code-frame :
      (user code : String) (w : World redis)
      → ((use_backup_code redis hash user code w).1.challenges ≡ w.challenges)
        × ((use_backup_code redis hash user code w).1.up ≡ w.up)
  unfolding use_backup_code
  use_backup_code-frame user code w = elim (Option-cases (get BackupCodes user w.backups)) [
    | inl missing ↦ ground arith
    | inr (b, found) ↦ ground arith
  ]

  module _ (totp_verify : String → Option String → Option Bool) where
    -- The code that a method of the kind asks for.
    abbrev pub IsRight : MethodType → Method → Challenge → String → World redis → Type 0
    IsRight totp m c code w = totp_verify code m.metadata.secret ≡ some true
    IsRight sms m c code w = (c.code ≡ some code) × (code ≢ "")
    IsRight email m c code w = (c.code ≡ some code) × (code ≢ "")
    IsRight backup_codes m c code w =
        (b : BackupCodes) × (get BackupCodes c.user_id w.backups ≡ some b)
        × (contains (hash code) b.codes ≡ true)
        × (contains (hash code) b.used_codes ≡ false)
    IsRight webauthn m c code w = code ≡ "webauthn-success"
    IsRight hardware_token m c code w = ⊥
    IsRight push m c code w = ⊥
    IsRight voice m c code w = ⊥
    IsRight magic_link m c code w = ⊥

    sent_nothing : (s : String) → str_eq s "" ≡ false → s ≢ ""
    sent_nothing s real gone = cc ((eq_iff s "").1 gone)

    check_sent_code-ok_true :
        (sent : Option String) (code : String) (w : World redis)
        → (check_sent_code redis config hash totp_verify sent code w).0 ≡ ok true
        → (sent ≡ some code) × (code ≢ "")
    unfolding check_sent_code safe_equal
    check_sent_code-ok_true none code w h = absurd (cc)
    check_sent_code-ok_true (some s) code w h = elim (Bool-cases (str_eq s "")) [
      | inl empty ↦ absurd (ground arith)
      | inr real ↦ elim (Bool-cases (str_eq code s)) [
        | inl same ↦
            let e : code ≡ s = (eq_iff code s).0 same in
            (ap (λ x. some x) (sym e), λ gone. sent_nothing s real (sym e ∙ gone))
        | inr other ↦ absurd (ground arith)
      ]
    ]

    pub check_code-ok_true :
        (kind : MethodType) (m : Method) (c : Challenge) (code : String) (w : World redis)
        → (check_code redis config hash totp_verify kind m c code w).0 ≡ ok true
        → IsRight kind m c code w
    unfolding check_code
    check_code-ok_true totp m c code w h =
        elim (Option-cases (totp_verify code m.metadata.secret)) [
          | inl missing ↦ absurd (ground arith)
          | inr (true, found) ↦ found
          | inr (false, found) ↦ absurd (ground arith)
        ]
    check_code-ok_true sms m c code w h = check_sent_code-ok_true c.code code w h
    check_code-ok_true email m c code w h = check_sent_code-ok_true c.code code w h
    check_code-ok_true backup_codes m c code w h =
        let (b, found, listed, unused, up) =
          use_backup_code-ok_true redis hash c.user_id code w h in
        (b, found, listed, unused)
    check_code-ok_true webauthn m c code w h = elim (Bool-cases (str_eq code "webauthn-success")) [
      | inl same ↦ (eq_iff code "webauthn-success").0 same
      | inr other ↦ absurd (ground arith)
    ]
    check_code-ok_true hardware_token m c code w h = cc
    check_code-ok_true push m c code w h = cc
    check_code-ok_true voice m c code w h = cc
    check_code-ok_true magic_link m c code w h = cc

    check_sent_code-frame :
        (sent : Option String) (code : String) (w : World redis)
        → ((check_sent_code redis config hash totp_verify sent code w).1.challenges ≡ w.challenges)
          × ((check_sent_code redis config hash totp_verify sent code w).1.up ≡ w.up)
    unfolding check_sent_code safe_equal
    check_sent_code-frame none code w = (refl, refl)
    check_sent_code-frame (some s) code w = ground arith

    pub check_code-frame :
        (kind : MethodType) (m : Method) (c : Challenge) (code : String) (w : World redis)
        → ((check_code redis config hash totp_verify kind m c code w).1.challenges ≡ w.challenges)
          × ((check_code redis config hash totp_verify kind m c code w).1.up ≡ w.up)
    unfolding check_code check_totp check_sent_code safe_equal
    check_code-frame totp m c code w = elim (Option-cases (totp_verify code m.metadata.secret)) [
      | inl missing ↦ ground arith
      | inr (b, found) ↦ ground arith
    ]
    check_code-frame sms m c code w = check_sent_code-frame c.code code w
    check_code-frame email m c code w = check_sent_code-frame c.code code w
    check_code-frame backup_codes m c code w = use_backup_code-frame c.user_id code w
    check_code-frame webauthn m c code w = (refl, refl)
    check_code-frame hardware_token m c code w = (refl, refl)
    check_code-frame push m c code w = (refl, refl)
    check_code-frame voice m c code w = (refl, refl)
    check_code-frame magic_link m c code w = (refl, refl)

    check_sent_code_right :
        (sent : Option String) (code : String) (w : World redis)
        → sent ≡ some code
        → code ≢ ""
        → (check_sent_code redis config hash totp_verify sent code w).0 ≡ ok true
    unfolding check_sent_code safe_equal
    check_sent_code_right none code w e real = absurd cc
    check_sent_code_right (some s) code w e real =
        let e' : s ≡ code = cc in
        elim (Bool-cases (str_eq code "")) [
          | inl empty ↦ absurd (real ((eq_iff code "").0 empty))
          | inr full ↦ rw e' (rw full (rw (eq_refl code) (rw (same_number (len code)) refl)))
        ]

    pub check_code_right :
        (kind : MethodType) (m : Method) (c : Challenge) (code : String) (w : World redis)
        → w.up ≡ true
        → IsRight kind m c code w
        → (check_code redis config hash totp_verify kind m c code w).0 ≡ ok true
    unfolding check_code check_totp use_backup_code use_found
    check_code_right totp m c code w up right = rw right refl
    check_code_right sms m c code w up (sent, real) = check_sent_code_right c.code code w sent real
    check_code_right email m c code w up (sent, real) =
        check_sent_code_right c.code code w sent real
    check_code_right backup_codes m c code w up (b, found, listed, unused) =
        simp (up, found, listed, unused)
    check_code_right webauthn m c code w up right = rw right refl
    check_code_right hardware_token m c code w up right = absurd right
    check_code_right push m c code w up right = absurd right
    check_code_right voice m c code w up right = absurd right
    check_code_right magic_link m c code w up right = absurd right
