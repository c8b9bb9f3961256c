-- ===== src/Actions/GroupBackup.antt =====
-- pkg/disasterrecovery/actions/remote/files/groupbackup/filesgroupbackup.go: the capture of a group
-- of volumes that are in use. The clone of the group is that of Kube/VolumeGroups; the tool's client
-- acts on a world `W` of its own.
pub mod LifeCycle
use backup_tool.Base.{
  ℕ, Bool, true, false, not, Option, none, some, List, [], ◌∷◌, ◌++◌, is_empty, list_eq,
}
use backup_tool.Base.Dict.{Dict, insert}
use backup_tool.Base.Text.{Chars, codes}
use backup_tool.Errors.{Errors, Result, ok, err, wrap, new_aggregate}
use backup_tool.Exec.{Exec, wrapping, pure, raise, gets, from_error, ◌>>=◌, ◌>>◌}
use backup_tool.Helpers.{minute, max_wait}
use backup_tool.Cleanup.{CleanupContext, run_error}
use backup_tool.Kube.Api.{History, deleted, pvc, asking}
use backup_tool.Kube.Building.{Building, calling, hold}
use backup_tool.Kube.Volumes.{pvc_id}
use backup_tool.Kube.VolumeGroups.{
  ClonePvcGroupOptions, GroupSnapshot, ClonePvcGroupResult, GroupClients, group_id, clone_pvc_group,
}
use backup_tool.Disaster.Config.{LabelSelector}
use backup_tool.Disaster.Slots.{file_groups_dir_name}
use backup_tool.Disaster.Apps.{FilesBackupOptions}
use backup_tool.Actions.{
  Volume, pvc_volume, InstanceOptions, mounting, Naming, FilesClient, require, follow, fields,
  release_held,
}

-- What the action calls on the cluster.
pub record GroupBackupClients (X : Type 0) : Type 0 where
  pub groups : GroupClients X
  pub get_pvc : Chars → Chars → History → Result X (Unit {0})
  pub naming : Naming

-- FilesGroupBackup, with the states that it embeds
pub record FilesGroupBackup : Type 0 where
  pub uid : Chars
  pub is_configured : Bool
  pub namespace : Chars
  pub selector : LabelSelector
  pub dr_vol_name : Chars
  pub group_name : Chars
  pub opts : FilesBackupOptions
  pub is_validated : Bool
  pub clone_result : Option ClonePvcGroupResult
  pub is_cloned : Bool
  pub dr_volume_mount_path : Chars
  -- the mount paths by the names of the sources
  pub member_mount_paths : Dict Chars Chars
  pub is_setup : Bool

-- The options of the clone. The clones are bound at once, as their snapshots are deleted.
unfoldable pub group_clone_options : FilesBackupOptions → ClonePvcGroupOptions
group_clone_options opts = record {
  group_snapshot_name = [];
  snapshot_class = opts.snapshot_class;
  wait_for_snapshot_timeout = 0;
  dest_storage_class_name = [];
  force_bind = true;
  force_bind_timeout = 0;
  cleanup_timeout = opts.cleanup_timeout;
}

-- The instant at which the group was frozen.
unfoldable pub freeze_instant : GroupSnapshot → ℕ
freeze_instant g = elim g.creation_time [ none ↦ g.creation_timestamp | some t ↦ t ]

-- A Go call with a result that may be nil and an error.
abbrev pub both_results : {X S A : Type 0} → (S → Option A × Option X × S) → Exec X S (Option A)
both_results call s = let (a, e, s') = call s in (elim e [ none ↦ ok a | some x ↦ err x ], s')

module _ (n : Naming) (base : Chars) where
  -- The loop of Setup over the clones: the volumes and the mount paths.
  unfoldable pub mount_members :
      Dict Chars Chars → List Volume → Dict Chars Chars → List Volume × Dict Chars Chars
  mount_members [] volumes paths = (volumes, paths)
  mount_members ((source, cloned) ∷ clones) volumes paths =
      let path = n.join (base ∷ codes "members" ∷ source ∷ []) in
      mount_members clones (volumes ++ pvc_volume cloned path ∷ []) (insert source path paths)

module _ (E : Errors) (k : GroupBackupClients E.Error) where
  abbrev Method : Type 0 → Type 0
  Method = Exec E.Error (Building FilesGroupBackup)

  -- Configure
  unfoldable pub configure_group_backup :
      Chars → LabelSelector → Chars → Chars → FilesBackupOptions → Method (Unit {0})
  configure_group_backup namespace selector dr_vol_name group_name opts = do
    s ← fields
    require E (not s.is_configured) "attempted to configure multiple times"
    uid ← gets (λ b. k.naming.new_uid b.history)
    hold (λ s. record s {
      uid = uid;
      namespace = namespace;
      selector = selector;
      dr_vol_name = dr_vol_name;
      group_name = group_name;
      opts = opts;
      is_configured = true;
    })

  -- Validate
  unfoldable pub validate_group_backup : Method (Unit {0})
  validate_group_backup = do
    s ← fields
    require E s.is_configured "attempted to validate without configuring"
    sources ←
        wrapping E "failed to list source PVCs matching the group selector"
          (calling (asking pvc [] (k.groups.list_pvcs s.namespace s.selector)))
    require E (not (is_empty sources)) "group selector matched no PVCs in namespace"
    wrapping E "failed to get DR PVC"
        (calling (asking pvc s.dr_vol_name (k.get_pvc s.namespace s.dr_vol_name)))
    hold (λ s. record s { is_validated = true })

  -- BeforeConsistencyPoint, which pins the instant at which the group was frozen
  unfoldable pub clone_group : Method ℕ
  unfolding group_clone_options freeze_instant
  clone_group = do
    s ← fields
    require E s.is_validated "attempted to clone without validating"
    require E (not s.is_cloned) "attempted to clone multiple times"
    result ← wrapping E "failed to clone source data PVC group" (
        calling (
          both_results
            (clone_pvc_group E k.groups s.namespace s.selector (group_clone_options s.opts))))
    hold (λ s. record s { clone_result = result; is_cloned = true })
    r ← follow E result
    pure (freeze_instant r.group)

  -- Setup
  unfoldable pub setup_group_backup : InstanceOptions → Method InstanceOptions
  unfolding mount_members
  setup_group_backup bti_opts = do
    s ← fields
    require E s.is_cloned "attempted to setup without cloning"
    require E (not s.is_setup) "attempted to setup multiple times"
    let base = k.naming.join (codes "/mnt" ∷ codes "filesgroupbackup" ∷ s.uid ∷ [])
    let dr_volume = k.naming.join (base ∷ codes "dr" ∷ [])
    hold (λ s. record s { dr_volume_mount_path = dr_volume })
    r ← follow E s.clone_result
    let mounted = mount_members k.naming base r.cloned_pvcs [] []
    hold (λ s. record s { member_mount_paths = mounted.1; is_setup = true })
    pure (mounting (pvc_volume s.dr_vol_name dr_volume ∷ mounted.0) bti_opts)

  -- The loop of Cleanup over the clones: the errors and the history.
  unfoldable pub release_clones :
      Chars → Dict Chars Chars → List (Option E.Error) → History → List (Option E.Error) × History
  release_clones namespace [] errs h = (errs, h)
  release_clones namespace ((_, name) ∷ clones) errs h =
      release_clones namespace clones
        (errs
          ++ wrap E (k.groups.volumes.delete_pvc namespace name h) "failed to delete cloned PVC"
            ∷ [])
        (deleted (pvc_id namespace name) ∷ h)

  -- The logic of Cleanup. Errors that are nil are left out of an aggregate in any case.
  unfoldable pub release_group : Chars → ClonePvcGroupResult → History → Option E.Error × History
  unfolding release_clones
  release_group namespace r h =
      let (errs, h₁) = release_clones namespace r.cloned_pvcs [] h in
      let e =
        wrap E (k.groups.delete_group_snapshot namespace r.group.name h₁)
          "failed to delete group snapshot" in
      (new_aggregate E (errs ++ e ∷ []), deleted (group_id namespace r.group.name) ∷ h₁)

  -- Cleanup
  unfoldable pub cleanup_group_backup :
      CleanupContext → Building FilesGroupBackup → Option E.Error × Building FilesGroupBackup
  unfolding max_wait run_error
  cleanup_group_backup ctx b =
      let s = b.held in
      let (e, h) =
        release_held E ctx "failed to cleanup files group backup resources"
          (max_wait minute s.opts.cleanup_timeout) (release_group s.namespace) s.clone_result
          b.history in
      (wrap E e "failed to cleanup files group backup resources", record b { history = h })

module _ (E : Errors) {W : Type 0} (naming : Naming) (client : FilesClient E.Error W) where
  -- The loop of Execute over the members.
  unfoldable pub sync_members : FilesGroupBackup → Dict Chars Chars → Exec E.Error W (Unit {0})
  sync_members s [] = pure tt
  sync_members s ((source, path) ∷ paths) = do
    wrapping E "failed to sync member files to the disaster recovery volume" (
        client.sync_files path
          (naming.join (s.dr_volume_mount_path ∷ file_groups_dir_name ∷ s.group_name ∷ source ∷ []))
          s.opts.filter)
    sync_members s paths

  -- Execute
  unfoldable pub execute_group_backup : FilesGroupBackup → Exec E.Error W (Unit {0})
  unfolding sync_members
  execute_group_backup s = do
    require E s.is_setup "attempted to execute without setting up"
    sync_members s s.member_mount_paths
