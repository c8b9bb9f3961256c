-- ===== src/Disaster/Refusals.antt =====
-- What Backup and Restore of generic.go do with a configuration that is not accepted, and when
-- Restore succeeds.
use backup_tool.Base.{◌≡◌, ◌≢◌, none, [], arith, Option-cases, inl, inr}
use backup_tool.Errors.{Errors}
use backup_tool.Disaster.Config.{GenericBackupConfig, GenericRestoreConfig}
use backup_tool.Disaster.Validation.{validate_backup_config, validate_restore_config}
use backup_tool.Disaster.Validation.Accepted.{
  IsBackupConfig, IsRestoreConfig, validate_backup_config_iff, validate_restore_config_iff,
}
use backup_tool.Disaster.Apps.{GenericApp}
use backup_tool.Disaster.Backup.{Finished, backup}
use backup_tool.Disaster.Restore.{restore}

module _ (E : Errors) {W Opts : Type 0} (app : GenericApp E W Opts) where
  -- The procedure did nothing but return an error.
  pub record IsUntouched (w : W) (result : Finished E.Error Opts) (w' : W) : Type 0 where
    pub no_event : result.event ≡ none
    pub failed : result.error ≢ none
    pub no_calls : result.calls ≡ []
    pub same_world : w' ≡ w

  -- A backup returns an event exactly if its configuration is accepted; if it is not, then nothing is
  -- called, the world is as it was, and an error is returned.
  pub backup-refuses :
      (c : GenericBackupConfig) (w : W)
      → let (result, w') = backup E app c w in
        (IsBackupConfig app.globs c → result.event ≢ none)
        × ((¬ IsBackupConfig app.globs c) → IsUntouched w result w')
  unfolding backup
  backup-refuses c w = elim (Option-cases (validate_backup_config E app.globs c)) [
    | inl accepted ↦ (
      λ v. ground (arith, accepted),
      λ no_config. absurd (no_config ((validate_backup_config_iff E app.globs c).0 accepted)),
    )
    | inr (x, refused) ↦ (
      λ v. absurd (ground (arith, refused, (validate_backup_config_iff E app.globs c).1 v)),
      λ no_config. ground (arith, refused),
    )
  ]

  -- The same of a restore.
  pub restore-refuses :
      (c : GenericRestoreConfig) (w : W)
      → let (result, w') = restore E app c w in
        (IsRestoreConfig c → result.event ≢ none)
        × ((¬ IsRestoreConfig c) → IsUntouched w result w')
  unfolding restore
  restore-refuses c w = elim (Option-cases (validate_restore_config E c)) [
    | inl accepted ↦ (
      λ v. ground (arith, accepted),
      λ no_config. absurd (no_config ((validate_restore_config_iff E c).0 accepted)),
    )
    | inr (x, refused) ↦ (
      λ v. absurd (ground (arith, refused, (validate_restore_config_iff E c).1 v)),
      λ no_config. ground (arith, refused),
    )
  ]
