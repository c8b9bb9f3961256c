-- ===== src/Tests/Volumes.antt =====
-- A clone of a volume on a cluster that does everything but delete a snapshot.
use backup_tool.Base.{ℕ, ◌≡◌, refl, true, none, some, [], list_beq}
use backup_tool.Base.Text.{codes}
use backup_tool.Errors.{ok}
use backup_tool.Tests.{numbered}
use backup_tool.Kube.Volumes.{ClonePvcOptions, CloneClients, clone_pvc}
use backup_tool.Kube.Volumes.Outcome.{ClonePvcEnding, clone_pvc-ClonePvcEnding}

abbrev stubborn : CloneClients ℕ
stubborn = record {
  snapshot_volume = λ n p class h. ok (record { name = codes "s"; restore_size = some 7 });
  wait_for_ready_snapshot = λ n name t h. ok (record { name = codes "s"; restore_size = some 7 });
  delete_snapshot = λ n name h. some 4;
  get_pvc = λ n p h. ok none;
  create_pvc = λ n prefix size class s h. ok (codes "media-1");
  delete_pvc = λ n p h. none;
  create_pod = λ n pvcs h. ok (codes "force-bind-1");
  wait_for_ready_pod = λ n p t h. ok tt;
  delete_pod = λ n p h. none;
}

abbrev bound : ClonePvcOptions
bound = record {
  wait_for_snapshot_timeout = 0;
  dest_storage_class_name = [];
  dest_pvc_name_prefix = [];
  force_bind = true;
  force_bind_timeout = 0;
  cleanup_timeout = 0;
  snapshot_class = [];
}

both_returned :
    (clone_pvc numbered stubborn (codes "wiki") (codes "media") bound []).0 ≡ some (codes "media-1")
unfolding clone_pvc list_beq
both_returned = refl

error_too : (clone_pvc numbered stubborn (codes "wiki") (codes "media") bound []).1 ≡ some 4
unfolding clone_pvc list_beq
error_too = refl

clone_pvc-ClonePvcEnding_example :
    ClonePvcEnding numbered stubborn
      (codes "wiki")
      (codes "media")
      bound
      []
      (clone_pvc numbered stubborn (codes "wiki") (codes "media") bound [])
clone_pvc-ClonePvcEnding_example =
    clone_pvc-ClonePvcEnding numbered stubborn (codes "wiki") (codes "media") bound []
