-- ===== src/Kube/Volumes.antt =====
-- pkg/kubecluster/composite/clonepvc: clonepvc.go, createfromsnapshot.go and forcebind.go. A volume
-- is cloned from a snapshot of it. The deferred clean-ups run last in, first out, each on what `err`
-- is by then.
pub mod Tracking
pub mod Outcome
use backup_tool.Base.{
  ℕ, String, Bool, true, false, Option, none, some, List, [], ◌∷◌, if◌then◌else◌, ◌==◌, list_eq,
}
use backup_tool.Base.Text.{Chars, codes}
use backup_tool.Errors.{Errors, Result, ok, err, wrap}
use backup_tool.Exec.{Exec, wrapping, pure, lift, error_of, ◌>>=◌}
use backup_tool.Helpers.{minute, max_wait}
use backup_tool.Cleanup.{to, with_err_message, with_original_err, with_timeout, run_error}
use backup_tool.Kube.Api.{
  Resource, History, created, deleted, asked, pod, pvc, snapshot, creating, asking,
}

-- volumesnapshotv1.VolumeSnapshot, with Status.RestoreSize
pub record VolumeSnapshot : Type 0 where
  pub name : Chars
  pub restore_size : Option ℕ

-- ClonePVCOptions
pub record ClonePvcOptions : Type 0 where
  pub wait_for_snapshot_timeout : ℕ
  pub dest_storage_class_name : Chars
  pub dest_pvc_name_prefix : Chars
  pub force_bind : Bool
  pub force_bind_timeout : ℕ
  pub cleanup_timeout : ℕ
  pub snapshot_class : Chars

-- The clients of snapshots and of core, as far as a clone calls them. A created PVC or pod is its
-- name, and a PVC that is read its storage class.
pub record CloneClients (X : Type 0) : Type 0 where
  -- namespace, PVC, class
  pub snapshot_volume : Chars → Chars → Chars → History → Result X VolumeSnapshot
  pub wait_for_ready_snapshot : Chars → Chars → ℕ → History → Result X VolumeSnapshot
  pub delete_snapshot : Chars → Chars → History → Option X
  pub get_pvc : Chars → Chars → History → Result X (Option Chars)
  -- namespace, name prefix, size, storage class, snapshot
  pub create_pvc : Chars → Chars → ℕ → Chars → Chars → History → Result X Chars
  pub delete_pvc : Chars → Chars → History → Option X
  -- namespace, the PVCs that are mounted
  pub create_pod : Chars → List Chars → History → Result X Chars
  pub wait_for_ready_pod : Chars → Chars → ℕ → History → Result X (Unit {0})
  pub delete_pod : Chars → Chars → History → Option X

abbrev pub snapshot_id : Chars → Chars → Resource
snapshot_id namespace name = record { kind = snapshot; namespace = namespace; name = name }

abbrev pub pvc_id : Chars → Chars → Resource
pvc_id namespace name = record { kind = pvc; namespace = namespace; name = name }

abbrev pub pod_id : Chars → Chars → Resource
pod_id namespace name = record { kind = pod; namespace = namespace; name = name }

module _ (E : Errors) where
  -- A deferred cleanup.To(...).WithOriginalErr(&err)...Run(): what `err` is afterwards.
  unfoldable pub deferred :
      String
      → ℕ
      → (History → Option E.Error × History)
      → Option E.Error
      → History
      → Option E.Error × History
  unfolding run_error
  deferred m timeout logic original h =
      let (_, stored, h') =
        run_error
          (with_timeout timeout
            (with_original_err original (with_err_message m (to {E = E} (λ _. logic)))))
          h in
      (elim stored [ none ↦ original | some e ↦ e ], h')

  module _ (k : CloneClients E.Error) (namespace : Chars) where
    -- forceBindVolumes, once the creation of the pod has answered
    unfoldable pub await_pod : ℕ → ℕ → Result E.Error Chars → History → Option E.Error × History
    unfolding deferred
    await_pod wait_for_ready_timeout cleanup_timeout (err e) h =
        (some (E.wrap_error e "failed to create 'force bind' pod"), h)
    await_pod wait_for_ready_timeout cleanup_timeout (ok name) h =
        let (ready, h₁) =
          asking pod name (k.wait_for_ready_pod namespace name wait_for_ready_timeout) h in
        deferred "failed to delete 'force bind' pod" (max_wait minute cleanup_timeout)
          (λ h. (k.delete_pod namespace name h, deleted (pod_id namespace name) ∷ h))
          (wrap E (error_of ready) "failed to wait for 'force bind' pod to become ready") h₁

    -- forceBindVolumes
    unfoldable pub force_bind_volumes : List Chars → ℕ → ℕ → History → Option E.Error × History
    unfolding await_pod
    force_bind_volumes pvc_names wait_for_ready_timeout cleanup_timeout h =
        let (r, h₁) =
          creating pod (codes "force-bind-") (pod_id namespace) (k.create_pod namespace pvc_names)
            h in
        await_pod wait_for_ready_timeout cleanup_timeout r h₁

    -- The storage class of createPVCFromSnapshot: that of the source, if none is given.
    unfoldable pub storage_class_name : Chars → Chars → Exec E.Error History Chars
    storage_class_name source_pvc_name dest_storage_class_name h =
        let inherited : Exec E.Error History Chars = do
          class ←
              wrapping E "failed to get source PVC"
                (asking pvc source_pvc_name (k.get_pvc namespace source_pvc_name))
          pure (elim class [ none ↦ dest_storage_class_name | some c ↦ c ])
        in if dest_storage_class_name == [] then inherited h else (ok dest_storage_class_name, h)

    abbrev restore_size_of : Option ℕ → Result E.Error ℕ
    restore_size_of none = err (E.errorf "snapshot does not have a restore size")
    restore_size_of (some size) = ok size

    -- createPVCFromSnapshot
    unfoldable pub create_pvc_from_snapshot :
        Chars → Chars → VolumeSnapshot → Chars → Exec E.Error History Chars
    unfolding storage_class_name
    create_pvc_from_snapshot dest_name_prefix source_pvc_name s dest_storage_class_name = do
      class ← storage_class_name source_pvc_name dest_storage_class_name
      size ← lift (restore_size_of s.restore_size)
      wrapping E "failed to create volume from snapshot" (
          creating pvc dest_name_prefix (pvc_id namespace)
            (k.create_pvc namespace dest_name_prefix size class s.name))

    -- The deferred deletion of the clone, which deletes it only if there is an error by then: the
    -- two results, and the history.
    unfoldable pub settle_clone :
        ClonePvcOptions → Chars → Option E.Error → History → Option Chars × Option E.Error × History
    unfolding deferred
    settle_clone opts cloned none h =
        let (e, h₁) =
          deferred "failed to delete created volume" (max_wait minute opts.cleanup_timeout)
            (λ h. (none, h)) none h in
        (some cloned, e, h₁)
    settle_clone opts cloned (some x) h =
        let (e, h₁) =
          deferred "failed to delete created volume" (max_wait minute opts.cleanup_timeout)
            (λ h. (k.delete_pvc namespace cloned h, deleted (pvc_id namespace cloned) ∷ h)) (some x)
            h in
        (none, e, h₁)

    -- The binding of the clone, if it is asked for.
    unfoldable pub bind_clone : ClonePvcOptions → Chars → History → Option E.Error × History
    unfolding force_bind_volumes
    bind_clone opts cloned h =
        if opts.force_bind
        then (let (e, h₁) =
              force_bind_volumes (cloned ∷ []) opts.force_bind_timeout opts.cleanup_timeout h in
            (wrap E e "failed to force bind cloned PVC", h₁))
        else (none, h)

    -- ClonePVC once the creation of the clone has answered, up to the deletion of the snapshot
    unfoldable pub with_clone :
        ClonePvcOptions → Result E.Error Chars → History → Option Chars × Option E.Error × History
    unfolding settle_clone bind_clone
    with_clone opts (err e) h =
        (none, some (E.wrap_error e "failed to create volume from created snapshot"), h)
    with_clone opts (ok cloned) h =
        let (e, h₁) = bind_clone opts cloned h in settle_clone opts cloned e h₁

    -- ClonePVC once the wait for the snapshot has answered, up to the deletion of the snapshot
    unfoldable pub with_ready :
        ClonePvcOptions
        → Chars
        → Result E.Error VolumeSnapshot
        → History
        → Option Chars × Option E.Error × History
    unfolding create_pvc_from_snapshot with_clone
    with_ready opts pvc_name (err e) h =
        (none, some (E.wrap_error e "failed to wait for snapshot to become ready"), h)
    with_ready opts pvc_name (ok ready) h =
        let (r, h₁) =
          create_pvc_from_snapshot
            (if opts.dest_pvc_name_prefix == [] then pvc_name else opts.dest_pvc_name_prefix)
            pvc_name ready opts.dest_storage_class_name h in
        with_clone opts r h₁

    -- ClonePVC once the creation of the snapshot has answered
    unfoldable pub with_snapshot :
        ClonePvcOptions
        → Chars
        → Result E.Error VolumeSnapshot
        → History
        → Option Chars × Option E.Error × History
    unfolding with_ready deferred
    with_snapshot opts pvc_name (err e) h = (none, some (E.wrap_error e "failed to snapshot"), h)
    with_snapshot opts pvc_name (ok s) h =
        let (r, h₁) =
          asking snapshot s.name
            (k.wait_for_ready_snapshot namespace s.name opts.wait_for_snapshot_timeout) h in
        let (cloned, e, h₂) = with_ready opts pvc_name r h₁ in
        let (e', h₃) =
          deferred "failed to delete created snapshot for PVC"
            (max_wait minute opts.cleanup_timeout)
            (λ h.
              (k.delete_snapshot namespace s.name h, deleted (snapshot_id namespace s.name) ∷ h))
            e h₂ in
        (cloned, e', h₃)

    -- ClonePVC: the clone and the error that it returns, of which both may be set.
    unfoldable pub clone_pvc :
        Chars → ClonePvcOptions → History → Option Chars × Option E.Error × History
    unfolding with_snapshot
    clone_pvc pvc_name opts h =
        let (r, h₁) =
          creating snapshot pvc_name (λ (s : VolumeSnapshot). snapshot_id namespace s.name)
            (k.snapshot_volume namespace pvc_name opts.snapshot_class) h in
        with_snapshot opts pvc_name r h₁
