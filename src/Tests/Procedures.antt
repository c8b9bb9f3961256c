-- ===== src/Tests/Procedures.antt =====
-- The procedures of an application, with actions that count calls.
use backup_tool.Base.{ℕ, suc, ◌≡◌, ◌≢◌, refl, Option, none, some, list_eq, list_beq}
use backup_tool.Base.Text.{codes}
use backup_tool.Errors.{ok}
use backup_tool.Exec.{Exec}
use backup_tool.Tests.{numbered}
use backup_tool.Tests.Filters.{suffixes}
use backup_tool.Tests.Disaster.{wiki, sevens, from_env}
use backup_tool.Stage.Model.{RemoteAction, Actions, run}
use backup_tool.Filters.{validate_file_filter}
use backup_tool.Disaster.Validation.{validate_backup_config}
use backup_tool.DrVolumes.{new_dr_volume, snapshot_and_wait_ready}
use backup_tool.Disaster.Apps.{GenericApp}
use backup_tool.Disaster.Backup.{Finished, backup, backup_body}
use backup_tool.Disaster.Backup.Captured.{IsRegistered}
use backup_tool.Disaster.Backup.Outcome.{IsCaptured, backup-IsCaptured}
use backup_tool.Disaster.Backup.Order.{IsFrozen, backup-IsFrozen}
use backup_tool.Disaster.Validation.Accepted.{IsBackupConfig}
use backup_tool.Disaster.Refusals.{IsUntouched, backup-refuses}

abbrev count : ℕ → Option ℕ × ℕ
count w = (none, suc w)

abbrev counting : RemoteAction numbered ℕ ℕ
counting = record {
  validate = count;
  setup = λ opts w. (none, suc opts, suc w);
  execute = count;
  cleanup = some (λ _. count);
  before_consistency_point = some (λ w. (ok 40, suc w));
  set_consistency_point = none;
}

abbrev made : Exec ℕ ℕ (RemoteAction numbered ℕ ℕ)
made w = (ok counting, w)

abbrev app : GenericApp numbered ℕ ℕ
app = record {
  clients = sevens;
  globs = suffixes;
  now = λ w. 50;
  rfc3339 = λ t. codes "2026-01-02T03:04:05Z";
  named = λ kind name direction. kind;
  credentials_from_env = from_env;
  new_cnpg_backup = λ namespace cluster volume path opts. made;
  new_cnpg_restore = λ namespace cluster cert issuer volume path opts. made;
  new_files_backup = λ namespace pvc volume path opts. made;
  new_files_restore = λ namespace pvc volume path. made;
  new_files_group_backup = λ namespace selector volume path opts. made;
  new_files_group_restore = λ namespace selector volume path. made;
  new_s3_sync = λ namespace volume path url credentials direction. made;
  new_remote_stage = λ namespace name timeout. record {
    now = λ w. 60;
    empty_opts = 0;
    create_instance = λ _. count;
    get_client = count;
    close_client = count;
    delete_instance = count;
    log_prefix = codes "backup";
    cleanup_timeout = timeout;
  };
}

abbrev outcome : Finished ℕ ℕ × ℕ
outcome = backup numbered app wiki 1

wiki-succeeds : outcome.0.error ≡ none
unfolding backup backup_body list_beq validate_backup_config validate_file_filter new_dr_volume run
    snapshot_and_wait_ready
wiki-succeeds = refl

backup-IsCaptured_example :
    IsBackupConfig suffixes wiki × IsCaptured numbered app wiki 1 outcome.0.calls outcome.1
backup-IsCaptured_example =
    backup-IsCaptured numbered app wiki 1 outcome.1 outcome.0 refl wiki-succeeds

backup-IsFrozen_example :
    (actions : Actions numbered ℕ ℕ) × (before : ℕ) × (ready : ℕ) × (r : IsRegistered numbered app
      wiki before actions ready)
    × IsFrozen numbered app wiki actions r.postgres r.files r.file_groups r.s3 outcome.0.calls
backup-IsFrozen_example = backup-IsFrozen numbered app wiki 1 outcome.1 outcome.0 refl wiki-succeeds

backup-refuses_example :
    (IsBackupConfig suffixes wiki → outcome.0.event ≢ none)
    × ((¬ IsBackupConfig suffixes wiki) → IsUntouched numbered app 1 outcome.0 outcome.1)
backup-refuses_example = backup-refuses numbered app wiki 1
