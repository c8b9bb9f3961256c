-- ===== src/Actions/FilesBackup.antt =====
-- pkg/disasterrecovery/actions/remote/files/backup/filesbackup.go: the capture of a directory on a
-- volume that is in use.
pub mod LifeCycle
use backup_tool.Base.{ℕ, Bool, true, false, not, Option, none, some, List, [], ◌∷◌}
use backup_tool.Base.Text.{Chars, codes}
use backup_tool.Errors.{Errors, Result, ok, err, wrap}
use backup_tool.Exec.{Exec, wrapping, pure, gets, ◌>>=◌, ◌>>◌}
use backup_tool.Helpers.{minute, max_wait}
use backup_tool.Cleanup.{CleanupContext, run_error}
use backup_tool.Filters.{FileFilter}
use backup_tool.Kube.Api.{History, deleted, pod, pvc, asking}
use backup_tool.Kube.Building.{Building, calling, hold}
use backup_tool.Kube.Volumes.{ClonePvcOptions}
use backup_tool.Disaster.Apps.{FilesBackupOptions}
use backup_tool.Actions.{
  pvc_volume, InstanceOptions, mounting, Naming, require, follow, fields, release_held,
}

-- corev1.PersistentVolumeClaim, with its creation timestamp
pub record ClonedPvc : Type 0 where
  pub name : Chars
  pub creation_timestamp : ℕ

-- What the action calls.
pub record FilesBackupClients (X : Type 0) : Type 0 where
  pub get_pvc : Chars → Chars → History → Result X (Unit {0})
  -- namespace, PVC, options
  pub clone_pvc : Chars → Chars → ClonePvcOptions → Exec X History ClonedPvc
  pub delete_pvc : Chars → Chars → History → Option X
  -- SyncFiles of the tool's client: source, destination, filter
  pub sync_files : Chars → Chars → FileFilter → History → Result X (Unit {0})
  pub naming : Naming

-- FilesBackup, with the states that it embeds
pub record FilesBackup : Type 0 where
  pub uid : Chars
  pub is_configured : Bool
  pub namespace : Chars
  pub source_pvc_name : Chars
  pub dr_vol_name : Chars
  pub backup_dir_rel_path : Chars
  pub opts : FilesBackupOptions
  pub is_validated : Bool
  pub cloned_pvc : Option ClonedPvc
  pub is_cloned : Bool
  -- mountPaths
  pub dr_volume_mount : Chars
  pub data_mount : Chars
  pub is_setup : Bool

-- The options of the clone. It is bound at once, as its snapshot is deleted.
unfoldable pub clone_options : Chars → FilesBackupOptions → ClonePvcOptions
clone_options dr_vol_name opts = record {
  wait_for_snapshot_timeout = 0;
  dest_storage_class_name = [];
  dest_pvc_name_prefix = dr_vol_name;
  force_bind = true;
  force_bind_timeout = 0;
  cleanup_timeout = opts.cleanup_timeout;
  snapshot_class = opts.snapshot_class;
}

module _ (E : Errors) (k : FilesBackupClients E.Error) where
  abbrev Method : Type 0 → Type 0
  Method = Exec E.Error (Building FilesBackup)

  -- Configure
  unfoldable pub configure_files :
      Chars → Chars → Chars → Chars → FilesBackupOptions → Method (Unit {0})
  configure_files namespace source_pvc_name dr_vol_name backup_dir_rel_path opts = do
    s ← fields
    require E (not s.is_configured) "attempted to configure multiple times"
    uid ← gets (λ b. k.naming.new_uid b.history)
    hold (λ s. record s {
      uid = uid;
      namespace = namespace;
      source_pvc_name = source_pvc_name;
      dr_vol_name = dr_vol_name;
      backup_dir_rel_path = backup_dir_rel_path;
      opts = opts;
      is_configured = true;
    })

  -- Validate
  unfoldable pub validate_files : Method (Unit {0})
  validate_files = do
    s ← fields
    require E s.is_configured "attempted to validate without configuring"
    wrapping E "failed to get source data PVC"
        (calling (asking pvc s.source_pvc_name (k.get_pvc s.namespace s.source_pvc_name)))
    wrapping E "failed to get DR PVC"
        (calling (asking pvc s.dr_vol_name (k.get_pvc s.namespace s.dr_vol_name)))
    hold (λ s. record s { is_validated = true })

  -- BeforeConsistencyPoint, which pins the instant at which the clone was created
  unfoldable pub clone_files : Method ℕ
  unfolding clone_options
  clone_files = do
    s ← fields
    require E s.is_validated "attempted to clone without validating"
    require E (not s.is_cloned) "attempted to clone multiple times"
    cloned ←
        wrapping E "failed to clone source data PVC"
          (calling (k.clone_pvc s.namespace s.source_pvc_name (clone_options s.dr_vol_name s.opts)))
    hold (λ s. record s { cloned_pvc = some cloned; is_cloned = true })
    pure cloned.creation_timestamp

  -- Setup
  unfoldable pub setup_files : InstanceOptions → Method InstanceOptions
  setup_files bti_opts = do
    s ← fields
    require E s.is_cloned "attempted to setup without cloning"
    require E (not s.is_setup) "attempted to setup multiple times"
    let base = k.naming.join (codes "/mnt" ∷ codes "filesbackup" ∷ s.uid ∷ [])
    let dr_volume = k.naming.join (base ∷ codes "dr" ∷ [])
    let data_dir = k.naming.join (base ∷ codes "data" ∷ [])
    hold (λ s. record s { dr_volume_mount = dr_volume; data_mount = data_dir })
    cloned ← follow E s.cloned_pvc
    hold (λ s. record s { is_setup = true })
    pure (
        mounting (pvc_volume s.dr_vol_name dr_volume ∷ pvc_volume cloned.name data_dir ∷ [])
          bti_opts)

  -- Cleanup
  unfoldable pub cleanup_files :
      CleanupContext → Building FilesBackup → Option E.Error × Building FilesBackup
  unfolding max_wait run_error
  cleanup_files ctx b =
      let s = b.held in
      let (e, h) =
        release_held E ctx "failed to cleanup cloned data PVC"
          (max_wait minute s.opts.cleanup_timeout)
          (λ (cloned : ClonedPvc) (h : History). (
            k.delete_pvc s.namespace cloned.name h,
            deleted (record { kind = pvc; namespace = s.namespace; name = cloned.name }) ∷ h,
          ))
          s.cloned_pvc b.history in
      (wrap E e "failed to cleanup files backup resources", record b { history = h })

  -- Execute
  unfoldable pub execute_files : Method (Unit {0})
  execute_files = do
    s ← fields
    require E s.is_setup "attempted to execute without setting up"
    let dr_data_path = k.naming.join (s.dr_volume_mount ∷ s.backup_dir_rel_path ∷ [])
    wrapping E "failed to sync data directory files to the disaster recovery volume"
        (calling (asking pod dr_data_path (k.sync_files s.data_mount dr_data_path s.opts.filter)))
