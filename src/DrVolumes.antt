-- ===== src/DrVolumes.antt =====
-- pkg/kubecluster/composite/drvolume/drvolume.go: the disaster recovery volume, its size and its
-- snapshot. Quantities are natural numbers, and 0 is one that is not set. The clients of the cluster
-- act on a world `W`; resource.ParseQuantity is a parameter.
pub mod Sizes
pub mod Snapshot
use backup_tool.Base.{
  ℕ, ◌+◌, ◌*◌, Bool, not, Option, none, some, List, [], ◌∷◌, if◌then◌else◌, is_empty, ◌==◌, nat_eq,
}
use backup_tool.Base.Text.{Chars}
use backup_tool.Errors.{Errors, Result, ok, err}
use backup_tool.Exec.{Exec, wrapping, pure, raise, lift, ◌>>=◌}
use backup_tool.Helpers.{clean_name}

-- corev1.PersistentVolumeClaim, with its storage request
pub record Pvc : Type 0 where
  pub namespace : Chars
  pub name : Chars
  pub storage_request : Option ℕ

-- DRVolumeCreateOptions
pub record DrVolumeCreateOptions : Type 0 where
  pub volume_storage_class : Chars
  pub cnpg_cluster_names : List Chars

-- DRVolumeSnapshotAndWaitOptions
pub record DrVolumeSnapshotAndWaitOptions : Type 0 where
  pub ready_timeout : ℕ
  pub snapshot_class : Chars

-- DRVolume
pub record DrVolume : Type 0 where
  pub pvc : Option Pvc

-- What the clients of CNPG clusters, of PVCs and of snapshots do here.
pub record VolumeClients (X W : Type 0) : Type 0 where
  -- namespace, name; Spec.StorageConfiguration.Size
  pub get_cluster_size : Chars → Chars → Exec X W Chars
  pub parse_quantity : Chars → Result X ℕ
  pub get_pvc : Chars → Chars → Exec X W Pvc
  -- namespace, name, size, storage class
  pub ensure_pvc_exists : Chars → Chars → ℕ → Chars → Exec X W Pvc
  -- namespace, PVC, name, snapshot class; the snapshot's name
  pub snapshot_volume : Chars → Chars → Chars → Chars → Exec X W Chars
  pub wait_for_ready_snapshot : Chars → Chars → ℕ → Exec X W (Unit {0})

module _ (E : Errors) {W : Type 0} (k : VolumeClients E.Error W) where
  -- Provider.lookupCNPGClusterSize
  unfoldable pub lookup_cnpg_cluster_size : Chars → Chars → Exec E.Error W ℕ
  lookup_cnpg_cluster_size namespace cluster_name = do
    size ← wrapping E "failed to get the cluster" (k.get_cluster_size namespace cluster_name)
    wrapping E "failed to parse the cluster size" (lift (k.parse_quantity size))

  -- The loop of Provider.lookupCNPGClustersSize, on the sum so far.
  unfoldable pub sum_clusters : Chars → List Chars → ℕ → Exec E.Error W ℕ
  unfolding lookup_cnpg_cluster_size
  sum_clusters namespace [] sum = pure sum
  sum_clusters namespace (cluster_name ∷ cluster_names) sum = do
    size ←
        wrapping E "failed to get the cluster size"
          (lookup_cnpg_cluster_size namespace cluster_name)
    sum_clusters namespace cluster_names (sum + size)

  -- Provider.lookupCNPGClustersSize
  unfoldable pub lookup_cnpg_clusters_size : Chars → List Chars → Exec E.Error W ℕ
  unfolding sum_clusters
  lookup_cnpg_clusters_size namespace cluster_names = sum_clusters namespace cluster_names 0

  -- Provider.lookupDRVolumeSize
  unfoldable pub lookup_dr_volume_size : Chars → List Chars → Exec E.Error W ℕ
  unfolding lookup_cnpg_clusters_size
  lookup_dr_volume_size namespace cluster_names = do
    sum ←
        if not (is_empty cluster_names)
        then wrapping E "failed to get the CNPG cluster sizes"
            (lookup_cnpg_clusters_size namespace cluster_names)
        else pure 0
    if sum == 0 then raise (E.errorf "calculated storage size of 0") else pure sum

  -- The size of the volume that Provider.NewDRVolume makes.
  unfoldable pub dr_volume_size : Chars → ℕ → List Chars → Exec E.Error W ℕ
  unfolding lookup_dr_volume_size
  dr_volume_size namespace configured_size cluster_names =
      if configured_size == 0
      then (do
        size ←
            wrapping E "failed to calculate the volume size"
              (lookup_dr_volume_size namespace cluster_names)
        pure (size * 2))
      else pure configured_size

  -- Provider.NewDRVolume
  unfoldable pub new_dr_volume : Chars → Chars → ℕ → DrVolumeCreateOptions → Exec E.Error W DrVolume
  unfolding dr_volume_size
  new_dr_volume namespace name configured_size opts = do
    size ← dr_volume_size namespace configured_size opts.cnpg_cluster_names
    pvc ←
        wrapping E "failed to ensure backup volume exists"
          (k.ensure_pvc_exists namespace name size opts.volume_storage_class)
    pure (record { pvc = some pvc })

  -- DRVolume.SnapshotAndWaitReady
  unfoldable pub snapshot_and_wait_ready :
      DrVolume → Chars → DrVolumeSnapshotAndWaitOptions → Exec E.Error W (Unit {0})
  snapshot_and_wait_ready drv snapshot_name opts = elim drv.pvc [
    | none ↦ raise (E.errorf "no PVC to snapshot")
    | some pvc ↦ do
      snapshot ←
          wrapping E "failed to snapshot backup volume" (
            k.snapshot_volume pvc.namespace pvc.name (clean_name snapshot_name) opts.snapshot_class)
      wrapping E "failed to wait for backup snapshot to become ready"
          (k.wait_for_ready_snapshot pvc.namespace snapshot opts.ready_timeout)
  ]
