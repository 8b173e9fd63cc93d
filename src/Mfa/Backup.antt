-- ===== src/Mfa/Backup.antt =====
-- generateBackupCodes and useBackupCode of smp-auth-ts/src/services/mfa.service.ts. The SHA-256 of
-- a code is a parameter, and the ten random codes are an argument.
pub mod SingleUse
use anticipation.Base.{
  ℕ, ◌-◌, ◌*◌, String, List, [], ◌∷◌, ◌++◌, Bool, true, false, ◌&&◌, not, Option, none, some,
  length, map, if◌then◌else◌,
}
use anticipation.Base.Exec.{pure, ◌>>=◌, ◌>>◌}
use anticipation.Redis.Laws.{Redis, contains}
use anticipation.Mfa.State.{BackupCodes, World, M, get_backup, set_backup}

-- 86400 * 365
abbrev pub one_year : ℕ
one_year = 31536000

-- backup.usedCodes.push(hashedCode), and the count anew.
abbrev pub mark_used : String → BackupCodes → BackupCodes
mark_used hashed backup =
    let used : List String = backup.used_codes ++ hashed ∷ [] in
    record backup { used_codes = used; remaining_codes = length backup.codes - length used }

module _ (redis : Redis) (hash : String → String) where
  unfoldable pub generate_backup_codes : String → List String → ℕ → M redis BackupCodes
  generate_backup_codes user codes now = do
    let stored : BackupCodes = record {
      user_id = user;
      codes = map hash codes;
      generated_at = now;
      used_codes = [];
      remaining_codes = length codes;
    }
    set_backup redis user stored one_year
    pure (record stored { codes = codes })

  unfoldable pub use_found : String → String → Option BackupCodes → M redis Bool
  use_found user hashed none = pure false
  use_found user hashed (some backup) =
      if contains hashed backup.codes && not (contains hashed backup.used_codes)
      then set_backup redis user (mark_used hashed backup) one_year >> pure true
      else pure false

  unfoldable pub use_backup_code : String → String → M redis Bool
  unfolding use_found
  use_backup_code user code = do found ← get_backup redis user; use_found user (hash code) found
