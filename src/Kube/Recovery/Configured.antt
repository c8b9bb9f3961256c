-- ===== src/Kube/Recovery/Configured.antt =====
-- What configureWALRecovery of pkg/kubecluster/composite/clonedcluster/clonedcluster.go guarantees of
-- the options that it returns.
use backup_tool.Base.{◌≡◌, ◌≢◌, some, [], list_eq}
use backup_tool.Errors.{Errors}
use backup_tool.Kube.Databases.{Backup, VolumeSnapshotRecovery, CreateClusterOptions}
use backup_tool.Kube.Recovery.{get_backup_snapshot_names}

-- The options recover from a data snapshot, and fetch the log of a server from an object store.
pub record IsConfigured (b : Backup) (opts opts' : CreateClusterOptions) : Type 0 where
  pub recovery : VolumeSnapshotRecovery
  pub is_set : opts'.volume_snapshot_recovery ≡ some recovery
  pub has_data : recovery.data_snapshot_name ≢ []
  pub of_backup :
      (recovery.data_snapshot_name, recovery.wal_snapshot_name) ≡ get_backup_snapshot_names b
  pub has_store : recovery.source_object_store ≢ []
  pub one_server : recovery.source_name ≡ recovery.source_server_name
  pub to_the_point : recovery.recovery_target_time ≡ []
  pub nothing_else : opts' ≡ record opts { volume_snapshot_recovery = some recovery }
