-- ===== src/DrVolumes/Snapshot.antt =====
-- A successful snapshot of a DR volume (DRVolume.SnapshotAndWaitReady of drvolume.go).
use backup_tool.Base.{◌≡◌, some}
use backup_tool.Base.Text.{Chars}
use backup_tool.Errors.{Errors, ok}
use backup_tool.Exec.{wrapping}
use backup_tool.Exec.Inversion.{bind-ok, wrapping-ok}
use backup_tool.Helpers.{clean_name}
use backup_tool.DrVolumes.{
  Pvc, DrVolume, DrVolumeSnapshotAndWaitOptions, VolumeClients, snapshot_and_wait_ready,
}

module _ (E : Errors) {W : Type 0} (k : VolumeClients E.Error W) where
  -- The volume's PVC was snapshotted under the cleaned name, and the wait for that snapshot succeeded.
  pub snapshotted_by :
      (drv : DrVolume) (pvc : Pvc) (name : Chars) (opts : DrVolumeSnapshotAndWaitOptions) (w w' : W)
      → drv.pvc ≡ some pvc
      → snapshot_and_wait_ready E k drv name opts w ≡ (ok tt, w')
      → (snapshot : Chars) × (v : W) × (k.snapshot_volume pvc.namespace pvc.name
            (clean_name name)
            opts.snapshot_class
            w
          ≡ (ok snapshot, v))
        × (k.wait_for_ready_snapshot pvc.namespace snapshot opts.ready_timeout v ≡ (ok tt, w'))
  unfolding snapshot_and_wait_ready
  snapshotted_by drv pvc name opts w w' e h =
      let (snapshot, v, made, rest) =
        bind-ok
          (wrapping E "failed to snapshot backup volume"
            (k.snapshot_volume pvc.namespace pvc.name (clean_name name) opts.snapshot_class))
          (λ snapshot.
            wrapping E "failed to wait for backup snapshot to become ready"
              (k.wait_for_ready_snapshot pvc.namespace snapshot opts.ready_timeout))
          w tt w' (rw (e, snapshot_and_wait_ready) at h) in
      (
        snapshot,
        v,
        wrapping-ok E "failed to snapshot backup volume"
            (k.snapshot_volume pvc.namespace pvc.name (clean_name name) opts.snapshot_class) w
            snapshot v made,
        wrapping-ok E "failed to wait for backup snapshot to become ready"
            (k.wait_for_ready_snapshot pvc.namespace snapshot opts.ready_timeout) v tt w' rest,
      )
