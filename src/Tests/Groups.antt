-- ===== src/Tests/Groups.antt =====
-- A group of two volumes: its clone, its capture and its restore.
use backup_tool.Base.{
  ℕ, ◌≡◌, refl, subst, true, false, none, some, List, [], ◌∷◌, ◌++◌, list_beq, arith, String, ◌≢◌,
}
use backup_tool.Base.Dict.{insert}
use backup_tool.Base.Text.{Chars, codes}
use backup_tool.Errors.{Result, ok, err}
use backup_tool.Tests.{numbered}
use backup_tool.Kube.Leaks.{NoLeak}
use backup_tool.Kube.Building.{Building}
use backup_tool.Kube.Volumes.{CloneClients}
use backup_tool.Kube.VolumeGroups.{
  ClonePvcGroupOptions, GroupSnapshot, Member, ClonePvcGroupResult, GroupClients,
  clone_pvc_from_member, clone_pvc_group,
}
use backup_tool.Kube.VolumeGroups.Tracking.{OneEach}
use backup_tool.Kube.VolumeGroups.Outcome.{IsFaithful, GroupEnding, clone_pvc_group-GroupEnding}
use backup_tool.Disaster.Config.{LabelSelector}
use backup_tool.Actions.{FilesClient}
use backup_tool.Actions.GroupBackup.{
  GroupBackupClients, FilesGroupBackup, freeze_instant, clone_group, cleanup_group_backup,
}
use backup_tool.Actions.GroupBackup.LifeCycle.{here, clone_group-released}
use backup_tool.Actions.GroupRestore.{
  FilesGroupRestore, verify_one_to_one_mapping, sync_targets, execute_group_restore,
}
use backup_tool.Actions.GroupRestore.Ending.{RestoreEnding, execute_group_restore-RestoreEnding}

abbrev joined : List Chars → Chars
joined [] = []
joined (p ∷ []) = p
joined (p ∷ q ∷ ps) = p ++ codes "/" ++ joined (q ∷ ps)

abbrev everything : LabelSelector
everything = record { match_labels = []; match_expressions = [] }

abbrev volumes : Result ℕ (Unit {0}) → CloneClients ℕ
volumes ready = record {
  snapshot_volume = λ n p class h. err 9;
  wait_for_ready_snapshot = λ n name t h. err 9;
  delete_snapshot = λ n name h. none;
  get_pvc = λ n p h. ok none;
  create_pvc = λ n prefix size class s h. ok (prefix ++ codes "-1");
  delete_pvc = λ n p h. none;
  create_pod = λ n pvcs h. ok (codes "force-bind-1");
  wait_for_ready_pod = λ n p t h. ready;
  delete_pod = λ n p h. none;
}

abbrev frozen : Chars → GroupSnapshot
frozen name = record { name = name; creation_timestamp = 8; creation_time = some 7 }

abbrev member : String → Member
member source = record {
  snapshot = record { name = codes "s"; restore_size = some 7 };
  source_name = some (codes source);
}

abbrev cluster_with : Result ℕ (Unit {0}) → GroupClients ℕ
cluster_with ready = record {
  volumes = volumes ready;
  list_pvcs = λ n s h. ok (codes "db" ∷ codes "media" ∷ []);
  group_snapshot_volumes = λ n s name class h. ok (frozen (codes "g"));
  wait_for_ready_group_snapshot = λ n name t h. ok (frozen name);
  wait_for_ready_members = λ n name c t h. ok (member "db" ∷ member "media" ∷ []);
  delete_group_snapshot = λ n name h. none;
}

db-ne-media : codes "media" ≢ codes "db"
db-ne-media = ground arith

ok_inj : {A : Type 0} {a b : A} → ◌≡◌ {A = Result ℕ A} (ok a) (ok b) → a ≡ b
ok_inj e = ground (arith, e)

cluster-IsFaithful :
    (ready : Result ℕ (Unit {0})) (n : Chars) → IsFaithful numbered (cluster_with ready) n
cluster-IsFaithful ready n = record {
  same_group = λ name t h g e. ground (arith, e);
  one_each = λ name c t h ms e. subst OneEach (ok_inj e) ((db-ne-media, tt), (tt, tt));
}

abbrev bound : ClonePvcGroupOptions
bound = record {
  group_snapshot_name = [];
  snapshot_class = [];
  wait_for_snapshot_timeout = 0;
  dest_storage_class_name = [];
  force_bind = true;
  force_bind_timeout = 0;
  cleanup_timeout = 0;
}

refuses_unbound :
    (clone_pvc_group numbered (cluster_with (err 3)) (codes "wiki") everything bound []).1 ≡ some 3
unfolding clone_pvc_group clone_pvc_from_member list_beq insert
refuses_unbound = refl

clone_pvc_group-GroupEnding_example :
    GroupEnding numbered
      (cluster_with (err 3))
      (codes "wiki")
      []
      (clone_pvc_group numbered (cluster_with (err 3)) (codes "wiki") everything bound [])
clone_pvc_group-GroupEnding_example =
    clone_pvc_group-GroupEnding numbered (cluster_with (err 3)) (codes "wiki") everything bound []
      (cluster-IsFaithful (err 3) (codes "wiki"))

abbrev capturing : GroupBackupClients ℕ
capturing = record {
  groups = cluster_with (ok tt);
  get_pvc = λ n p h. ok tt;
  naming = record { new_uid = λ h. codes "u"; join = joined; rfc3339 = λ t. [] };
}

abbrev ready_to_freeze : Building FilesGroupBackup
ready_to_freeze = record {
  held = record {
    uid = codes "u";
    is_configured = true;
    namespace = codes "wiki";
    selector = everything;
    dr_vol_name = codes "dr";
    group_name = codes "all";
    opts = record {
      snapshot_class = [];
      filter = record { include = []; exclude = [] };
      cleanup_timeout = 0;
    };
    is_validated = true;
    clone_result = none;
    is_cloned = false;
    dr_volume_mount_path = [];
    member_mount_paths = [];
    is_setup = false;
  };
  history = [];
}

freezes : (clone_group numbered capturing ready_to_freeze).0 ≡ ok 7
unfolding clone_group clone_pvc_group clone_pvc_from_member list_beq insert
freezes = refl

clone_group-released_example :
    ((r : ClonePvcGroupResult) × ((clone_group numbered capturing
          ready_to_freeze).1.held.clone_result
        ≡ some r)
      × (7 ≡ freeze_instant r.group))
    × NoLeak []
        (cleanup_group_backup numbered capturing
          (record { log_prefix = []; timeout = 1 })
          (clone_group numbered capturing ready_to_freeze).1).1.history
clone_group-released_example =
    clone_group-released numbered capturing ready_to_freeze
      (clone_group numbered capturing ready_to_freeze).1 (record { log_prefix = []; timeout = 1 }) 7
      (cluster-IsFaithful (ok tt) (codes "wiki")) refl freezes here

-- A file system as the list of the syncs that were made, newest first.
abbrev recorder : FilesClient ℕ (List (Chars × Chars))
recorder = record {
  list_directory = λ dir w. (ok (codes "media" ∷ codes "db" ∷ []), w);
  sync_files = λ source dest filter w. (ok tt, (source, dest) ∷ w);
}

abbrev mounted : FilesGroupRestore
mounted = record {
  uid = codes "u";
  is_configured = true;
  namespace = codes "wiki";
  selector = everything;
  dr_vol_name = codes "dr";
  group_name = codes "all";
  target_pvc_names = codes "db" ∷ codes "media" ∷ [];
  is_validated = true;
  dr_volume_mount_path = codes "/dr";
  target_mount_paths = (codes "db", codes "/t/db") ∷ (codes "media", codes "/t/media") ∷ [];
  is_setup = true;
}

restores_in_place :
    (execute_group_restore numbered capturing.naming recorder mounted []).1
    ≡ (codes "/dr/fileGroups/all/media", codes "/t/media")
      ∷ (codes "/dr/fileGroups/all/db", codes "/t/db")
      ∷ []
unfolding execute_group_restore verify_one_to_one_mapping sync_targets list_beq
restores_in_place = refl

execute_group_restore-RestoreEnding_example :
    RestoreEnding numbered capturing.naming recorder mounted []
      (execute_group_restore numbered capturing.naming recorder mounted [])
execute_group_restore-RestoreEnding_example =
    execute_group_restore-RestoreEnding numbered capturing.naming recorder mounted []
