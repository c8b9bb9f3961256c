-- ===== src/Actions/GroupRestore.antt =====
-- pkg/disasterrecovery/actions/remote/files/grouprestore/filesgrouprestore.go: the restore of a
-- group of volumes in place. A set of names is the list of its names; what errors print of names is
-- left out.
pub mod Members
pub mod Ending
use backup_tool.Base.{
  ℕ, Bool, true, false, not, ◌&&◌, Option, none, some, List, [], ◌∷◌, ◌++◌, map, is_empty, contains,
  if◌then◌else◌, list_eq,
}
use backup_tool.Base.Dict.{Dict, insert}
use backup_tool.Base.Text.{Chars, codes}
use backup_tool.Errors.{Errors, Result}
use backup_tool.Exec.{Exec, wrapping, pure, lift, gets, from_error, ◌>>=◌, ◌>>◌}
use backup_tool.Filters.{no_filter}
use backup_tool.Kube.Api.{History, pvc, asking}
use backup_tool.Kube.Building.{Building, calling, hold}
use backup_tool.Disaster.Config.{LabelSelector}
use backup_tool.Disaster.Slots.{file_groups_dir_name}
use backup_tool.Actions.{
  Volume, pvc_volume, InstanceOptions, mounting, Naming, FilesClient, require, fields,
}

-- What the action calls on the cluster.
pub record GroupRestoreClients (X : Type 0) : Type 0 where
  pub list_pvcs : Chars → LabelSelector → History → Result X (List Chars)
  pub get_pvc : Chars → Chars → History → Result X (Unit {0})
  pub naming : Naming

-- FilesGroupRestore, with the states that it embeds
pub record FilesGroupRestore : Type 0 where
  pub uid : Chars
  pub is_configured : Bool
  pub namespace : Chars
  pub selector : LabelSelector
  pub dr_vol_name : Chars
  pub group_name : Chars
  pub target_pvc_names : List Chars
  pub is_validated : Bool
  pub dr_volume_mount_path : Chars
  -- the mount paths by the names of the targets
  pub target_mount_paths : Dict Chars Chars
  pub is_setup : Bool

-- The names that are not among the others.
unfoldable pub missing_from : List Chars → List Chars → List Chars
missing_from others [] = []
missing_from others (name ∷ names) =
    let rest = missing_from others names in if contains others name then rest else name ∷ rest

module _ (n : Naming) (base : Chars) where
  -- The loop of Setup over the targets: the volumes and the mount paths.
  unfoldable pub mount_targets :
      List Chars → List Volume → Dict Chars Chars → List Volume × Dict Chars Chars
  mount_targets [] volumes paths = (volumes, paths)
  mount_targets (target ∷ targets) volumes paths =
      let path = n.join (base ∷ codes "targets" ∷ target ∷ []) in
      mount_targets targets (volumes ++ pvc_volume target path ∷ []) (insert target path paths)

module _ (E : Errors) (k : GroupRestoreClients E.Error) where
  abbrev Method : Type 0 → Type 0
  Method = Exec E.Error (Building FilesGroupRestore)

  -- Configure
  unfoldable pub configure_group_restore : Chars → LabelSelector → Chars → Chars → Method (Unit {0})
  configure_group_restore namespace selector dr_vol_name group_name = do
    s ← fields
    require E (not s.is_configured) "attempted to configure multiple times"
    uid ← gets (λ b. k.naming.new_uid b.history)
    hold (λ s. record s {
      uid = uid;
      namespace = namespace;
      selector = selector;
      dr_vol_name = dr_vol_name;
      group_name = group_name;
      is_configured = true;
    })

  -- Validate
  unfoldable pub validate_group_restore : Method (Unit {0})
  validate_group_restore = do
    s ← fields
    require E s.is_configured "attempted to validate without configuring"
    targets ←
        wrapping E "failed to list target PVCs matching the group selector"
          (calling (asking pvc [] (k.list_pvcs s.namespace s.selector)))
    require E (not (is_empty targets)) "group selector matched no PVCs in namespace"
    hold (λ s. record s { target_pvc_names = targets })
    wrapping E "failed to get DR PVC"
        (calling (asking pvc s.dr_vol_name (k.get_pvc s.namespace s.dr_vol_name)))
    hold (λ s. record s { is_validated = true })

  -- Setup
  unfoldable pub setup_group_restore : InstanceOptions → Method InstanceOptions
  unfolding mount_targets
  setup_group_restore bti_opts = do
    s ← fields
    require E s.is_validated "attempted to setup without validating"
    require E (not s.is_setup) "attempted to setup multiple times"
    let base = k.naming.join (codes "/mnt" ∷ codes "filesgrouprestore" ∷ s.uid ∷ [])
    let dr_volume = k.naming.join (base ∷ codes "dr" ∷ [])
    let mounted = mount_targets k.naming base s.target_pvc_names [] []
    hold (λ s. record s {
      dr_volume_mount_path = dr_volume;
      target_mount_paths = mounted.1;
      is_setup = true;
    })
    pure (mounting (pvc_volume s.dr_vol_name dr_volume ∷ mounted.0) bti_opts)

abbrev pub target_names : FilesGroupRestore → List Chars
target_names s = map (λ (p : Chars × Chars). p.0) s.target_mount_paths

module _ (E : Errors) where
  -- verifyOneToOneMapping
  unfoldable pub verify_one_to_one_mapping : FilesGroupRestore → List Chars → Option E.Error
  unfolding missing_from
  verify_one_to_one_mapping s captured =
      if is_empty (missing_from captured (target_names s))
        && is_empty (missing_from (target_names s) captured)
      then none
      else some (E.errorf "refusing to restore group: backup/restore membership is not 1:1")

  module _ {W : Type 0} (naming : Naming) (client : FilesClient E.Error W) where
    -- The loop of Execute over the targets.
    unfoldable pub sync_targets : Chars → Dict Chars Chars → Exec E.Error W (Unit {0})
    sync_targets dir [] = pure tt
    sync_targets dir ((target, path) ∷ paths) = do
      wrapping E "failed to sync captured member onto target PVC"
          (client.sync_files (naming.join (dir ∷ target ∷ [])) path no_filter)
      sync_targets dir paths

    -- Where the members of the group were captured.
    abbrev pub captured_dir : FilesGroupRestore → Chars
    captured_dir s = naming.join (s.dr_volume_mount_path ∷ file_groups_dir_name ∷ s.group_name ∷ [])

    -- Execute
    unfoldable pub execute_group_restore : FilesGroupRestore → Exec E.Error W (Unit {0})
    execute_group_restore s = do
      require E s.is_setup "attempted to execute without setting up"
      captured ←
          wrapping E "failed to list captured members for group"
            (client.list_directory (captured_dir s))
      wrapping E "failed to verify one to one mapping of backup directories"
          (lift (from_error (verify_one_to_one_mapping s captured)))
      sync_targets (captured_dir s) s.target_mount_paths
