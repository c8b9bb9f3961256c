-- ===== src/Actions/FilesRestore.antt =====
-- pkg/disasterrecovery/actions/remote/files/restore/filesrestore.go: the restore of a directory from
-- the DR volume onto a volume that is not in use.
pub mod Run
use backup_tool.Base.{Bool, true, false, not, List, [], ◌∷◌}
use backup_tool.Base.Text.{Chars, codes}
use backup_tool.Errors.{Errors, Result}
use backup_tool.Exec.{Exec, wrapping, pure, gets, ◌>>=◌, ◌>>◌}
use backup_tool.Filters.{no_filter}
use backup_tool.Kube.Api.{History, pvc, asking}
use backup_tool.Kube.Building.{Building, calling, hold}
use backup_tool.Actions.{
  pvc_volume, InstanceOptions, mounting, Naming, FilesClient, require, fields,
}

-- What the action calls on the cluster.
pub record FilesRestoreClients (X : Type 0) : Type 0 where
  pub get_pvc : Chars → Chars → History → Result X (Unit {0})
  pub naming : Naming

-- FilesRestore, with the states that it embeds
pub record FilesRestore : Type 0 where
  pub uid : Chars
  pub is_configured : Bool
  pub namespace : Chars
  pub target_pvc_name : Chars
  pub dr_vol_name : Chars
  pub backup_dir_rel_path : Chars
  pub is_validated : Bool
  -- mountPaths
  pub dr_volume_mount : Chars
  pub data_mount : Chars
  pub is_setup : Bool

module _ (E : Errors) (k : FilesRestoreClients E.Error) where
  abbrev pub Method : Type 0 → Type 0
  Method = Exec E.Error (Building FilesRestore)

  -- Configure
  unfoldable pub configure_files_restore : Chars → Chars → Chars → Chars → Method (Unit {0})
  configure_files_restore namespace target_pvc_name dr_vol_name backup_dir_rel_path = do
    s ← fields
    require E (not s.is_configured) "attempted to configure multiple times"
    uid ← gets (λ b. k.naming.new_uid b.history)
    hold (λ s. record s {
      uid = uid;
      namespace = namespace;
      target_pvc_name = target_pvc_name;
      dr_vol_name = dr_vol_name;
      backup_dir_rel_path = backup_dir_rel_path;
      is_configured = true;
    })

  -- Validate
  unfoldable pub validate_files_restore : Method (Unit {0})
  validate_files_restore = do
    s ← fields
    require E s.is_configured "attempted to validate without configuring"
    wrapping E "failed to get target data PVC"
        (calling (asking pvc s.target_pvc_name (k.get_pvc s.namespace s.target_pvc_name)))
    wrapping E "failed to get DR PVC"
        (calling (asking pvc s.dr_vol_name (k.get_pvc s.namespace s.dr_vol_name)))
    hold (λ s. record s { is_validated = true })

  -- Setup
  unfoldable pub setup_files_restore : InstanceOptions → Method InstanceOptions
  setup_files_restore bti_opts = do
    s ← fields
    require E s.is_validated "attempted to setup without validating"
    require E (not s.is_setup) "attempted to setup multiple times"
    let base = k.naming.join (codes "/mnt" ∷ codes "filesrestore" ∷ s.uid ∷ [])
    let dr_volume = k.naming.join (base ∷ codes "dr" ∷ [])
    let data_dir = k.naming.join (base ∷ codes "data" ∷ [])
    hold (λ s. record s { dr_volume_mount = dr_volume; data_mount = data_dir; is_setup = true })
    pure (
        mounting (pvc_volume s.dr_vol_name dr_volume ∷ pvc_volume s.target_pvc_name data_dir ∷ [])
          bti_opts)

module _ (E : Errors) {W : Type 0} (naming : Naming) (client : FilesClient E.Error W) where
  -- Execute
  unfoldable pub execute_files_restore : FilesRestore → Exec E.Error W (Unit {0})
  execute_files_restore s = do
    require E s.is_setup "attempted to execute without setting up"
    wrapping E "failed to sync data directory files to the data PVC" (
        client.sync_files (naming.join (s.dr_volume_mount ∷ s.backup_dir_rel_path ∷ []))
          s.data_mount no_filter)
