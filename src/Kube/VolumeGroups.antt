-- ===== src/Kube/VolumeGroups.antt =====
-- pkg/kubecluster/composite/clonepvc/clonepvcgroup.go: the clone of a group of volumes from one
-- snapshot of all of them. A map is an association list; the deferred clean-ups run last in, first
-- out. A created PVC is its name.
pub mod Tracking
pub mod Outcome
use backup_tool.Base.{
  ℕ, String, Bool, true, false, Option, none, some, List, [], ◌∷◌, map, if◌then◌else◌, ◌==◌,
  list_eq, length,
}
use backup_tool.Base.Dict.{Dict, insert}
use backup_tool.Base.Text.{Chars, codes}
use backup_tool.Errors.{Errors, Result, ok, err, wrap, new_aggregate}
use backup_tool.Exec.{Exec, wrapping, raise}
use backup_tool.Helpers.{minute, max_wait}
use backup_tool.Kube.Api.{Resource, History, deleted, pvc, group_snapshot, creating, asking}
use backup_tool.Kube.Volumes.{
  VolumeSnapshot, CloneClients, pvc_id, deferred, create_pvc_from_snapshot, force_bind_volumes,
}
use backup_tool.Disaster.Config.{LabelSelector}

-- ClonePVCGroupOptions
pub record ClonePvcGroupOptions : Type 0 where
  pub group_snapshot_name : Chars
  pub snapshot_class : Chars
  pub wait_for_snapshot_timeout : ℕ
  pub dest_storage_class_name : Chars
  pub force_bind : Bool
  pub force_bind_timeout : ℕ
  pub cleanup_timeout : ℕ

-- volumegroupsnapshotv1.VolumeGroupSnapshot, with Status.CreationTime
pub record GroupSnapshot : Type 0 where
  pub name : Chars
  pub creation_timestamp : ℕ
  pub creation_time : Option ℕ

-- A member's volumesnapshotv1.VolumeSnapshot, with Spec.Source.PersistentVolumeClaimName
pub record Member : Type 0 where
  pub snapshot : VolumeSnapshot
  pub source_name : Option Chars

-- ClonePVCGroupResult: the clones by the names of their sources
pub record ClonePvcGroupResult : Type 0 where
  pub group : GroupSnapshot
  pub cloned_pvcs : Dict Chars Chars

-- The clients of snapshots and of core, as far as the clone of a group calls them.
pub record GroupClients (X : Type 0) : Type 0 where
  pub volumes : CloneClients X
  pub list_pvcs : Chars → LabelSelector → History → Result X (List Chars)
  -- namespace, selector, name, class
  pub group_snapshot_volumes :
      Chars → LabelSelector → Chars → Chars → History → Result X GroupSnapshot
  pub wait_for_ready_group_snapshot : Chars → Chars → ℕ → History → Result X GroupSnapshot
  -- namespace, group snapshot, count, timeout
  pub wait_for_ready_members : Chars → Chars → ℕ → ℕ → History → Result X (List Member)
  pub delete_group_snapshot : Chars → Chars → History → Option X

abbrev pub group_id : Chars → Chars → Resource
group_id namespace name = record { kind = group_snapshot; namespace = namespace; name = name }

-- The name that the pointer refers to; no caller comes here with nil.
abbrev pub source_of : Member → Chars
source_of m = elim m.source_name [ none ↦ [] | some s ↦ s ]

abbrev pub clone_names : Dict Chars Chars → List Chars
clone_names = map (λ (p : Chars × Chars). p.1)

module _ (E : Errors) (k : GroupClients E.Error) (namespace : Chars) where
  -- clonePVCFromMember
  unfoldable pub clone_pvc_from_member : ClonePvcGroupOptions → Member → Exec E.Error History Chars
  unfolding create_pvc_from_snapshot
  clone_pvc_from_member opts m =
      if source_of m == []
      then raise (E.errorf "member snapshot does not reference a source PVC")
      else wrapping E "failed to create volume from member snapshot" (
          create_pvc_from_snapshot E k.volumes namespace (source_of m) (source_of m) m.snapshot
            opts.dest_storage_class_name)

  -- The loop over the members: the error, the clones so far, and the history.
  unfoldable pub clone_members :
      ClonePvcGroupOptions
      → List Member
      → Dict Chars Chars
      → History
      → Option E.Error × Dict Chars Chars × History
  clone_members opts [] clones h = (none, clones, h)
  clone_members opts (m ∷ ms) clones h =
      let (r, h₁) = clone_pvc_from_member opts m h in
      elim r [
        | ok cloned ↦ clone_members opts ms (insert (source_of m) cloned clones) h₁
        | err e ↦ (some (E.wrap_error e "failed to clone member snapshot"), clones, h₁)
      ]

  -- One more error of a clean-up.
  abbrev pub collect : Option E.Error → Option E.Error → Option E.Error
  collect cleanup_err none = cleanup_err
  collect cleanup_err (some e) = new_aggregate E (cleanup_err ∷ some e ∷ [])

  -- The loop that deletes the clones.
  unfoldable pub delete_clones :
      Dict Chars Chars → Option E.Error → History → Option E.Error × History
  delete_clones [] cleanup_err h = (cleanup_err, h)
  delete_clones ((_, name) ∷ clones) cleanup_err h =
      delete_clones clones (collect cleanup_err (k.volumes.delete_pvc namespace name h))
        (deleted (pvc_id namespace name) ∷ h)

  -- The binding of all clones by one pod, if it is asked for.
  unfoldable pub bind_clones :
      ClonePvcGroupOptions → Dict Chars Chars → History → Option E.Error × History
  unfolding force_bind_volumes
  bind_clones opts clones h =
      if opts.force_bind
      then (let (e, h₁) =
            force_bind_volumes E k.volumes namespace (clone_names clones) opts.force_bind_timeout
              opts.cleanup_timeout h in
          (wrap E e "failed to force bind cloned volumes for group snapshot", h₁))
      else (none, h)

  -- The clones and their binding.
  unfoldable pub make_clones :
      ClonePvcGroupOptions → List Member → History → Option E.Error × Dict Chars Chars × History
  unfolding clone_members bind_clones
  make_clones opts members h =
      let (e, clones, h₁) = clone_members opts members [] h in
      elim e [
        | none ↦ let (e', h₂) = bind_clones opts clones h₁ in (e', clones, h₂)
        | some x ↦ (some x, clones, h₁)
      ]

  -- The deferred deletion of the clones, which deletes them only if there is an error by then.
  unfoldable pub settle_clones :
      ClonePvcGroupOptions
      → GroupSnapshot
      → Option E.Error × Dict Chars Chars × History
      → Option ClonePvcGroupResult × Option E.Error × History
  unfolding deferred delete_clones
  settle_clones opts ready (none, clones, h) =
      let (e, h₁) =
        deferred E "failed to delete created volumes for group snapshot"
          (max_wait minute opts.cleanup_timeout) (λ h. (none, h)) none h in
      (some (record { group = ready; cloned_pvcs = clones }), e, h₁)
  settle_clones opts ready (some x, clones, h) =
      let (e, h₁) =
        deferred E "failed to delete created volumes for group snapshot"
          (max_wait minute opts.cleanup_timeout) (delete_clones clones none) (some x) h in
      (none, e, h₁)

  -- ClonePVCGroup once the wait for the members has answered, up to the group's own clean-up
  unfoldable pub with_members :
      ClonePvcGroupOptions
      → GroupSnapshot
      → Result E.Error (List Member)
      → History
      → Option ClonePvcGroupResult × Option E.Error × History
  unfolding make_clones settle_clones
  with_members opts ready (err e) h =
      (none, some (E.wrap_error e "failed to wait for members of group snapshot"), h)
  with_members opts ready (ok members) h = settle_clones opts ready (make_clones opts members h)

  -- ClonePVCGroup once the wait for the group snapshot has answered, up to its clean-up
  unfoldable pub with_ready_group :
      ClonePvcGroupOptions
      → ℕ
      → Result E.Error GroupSnapshot
      → History
      → Option ClonePvcGroupResult × Option E.Error × History
  unfolding with_members
  with_ready_group opts expected (err e) h =
      (none, some (E.wrap_error e "failed to wait for group snapshot to become ready"), h)
  with_ready_group opts expected (ok ready) h =
      let (r, h₁) =
        asking group_snapshot ready.name
          (k.wait_for_ready_members namespace ready.name expected opts.wait_for_snapshot_timeout)
          h in
      with_members opts ready r h₁

  -- The deferred deletion of the group snapshot, which the caller owns if there is no error.
  unfoldable pub settle_group :
      ClonePvcGroupOptions
      → GroupSnapshot
      → Option ClonePvcGroupResult × Option E.Error × History
      → Option ClonePvcGroupResult × Option E.Error × History
  unfolding deferred
  settle_group opts group (result, none, h) =
      let (e, h₁) =
        deferred E "failed to delete created group snapshot" (max_wait minute opts.cleanup_timeout)
          (λ h. (none, h)) none h in
      (result, e, h₁)
  settle_group opts group (result, some x, h) =
      let (e, h₁) =
        deferred E "failed to delete created group snapshot" (max_wait minute opts.cleanup_timeout)
          (λ h. (
            k.delete_group_snapshot namespace group.name h,
            deleted (group_id namespace group.name) ∷ h,
          ))
          (some x) h in
      (result, e, h₁)

  -- ClonePVCGroup once the creation of the group snapshot has answered
  unfoldable pub with_group :
      ClonePvcGroupOptions
      → ℕ
      → Result E.Error GroupSnapshot
      → History
      → Option ClonePvcGroupResult × Option E.Error × History
  unfolding with_ready_group settle_group
  with_group opts expected (err e) h =
      (none, some (E.wrap_error e "failed to create group snapshot"), h)
  with_group opts expected (ok group) h =
      let (r, h₁) =
        asking group_snapshot group.name
          (k.wait_for_ready_group_snapshot namespace group.name opts.wait_for_snapshot_timeout) h in
      settle_group opts group (with_ready_group opts expected r h₁)

  -- ClonePVCGroup once the PVCs are listed
  unfoldable pub with_sources :
      LabelSelector
      → ClonePvcGroupOptions
      → Result E.Error (List Chars)
      → History
      → Option ClonePvcGroupResult × Option E.Error × History
  unfolding with_group
  with_sources selector opts (err e) h =
      (none, some (E.wrap_error e "failed to list PVCs matching the group selector"), h)
  with_sources selector opts (ok []) h =
      (none, some (E.errorf "group selector matched no PVCs in namespace"), h)
  with_sources selector opts (ok (source ∷ sources)) h =
      let (r, h₁) =
        creating group_snapshot opts.group_snapshot_name
          (λ (g : GroupSnapshot). group_id namespace g.name)
          (k.group_snapshot_volumes namespace selector opts.group_snapshot_name opts.snapshot_class)
          h in
      with_group opts (length (source ∷ sources)) r h₁

  -- ClonePVCGroup: its result and its error.
  unfoldable pub clone_pvc_group :
      LabelSelector
      → ClonePvcGroupOptions
      → History
      → Option ClonePvcGroupResult × Option E.Error × History
  unfolding with_sources
  clone_pvc_group selector opts h =
      let (r, h₁) = asking pvc [] (k.list_pvcs namespace selector) h in
      with_sources selector opts r h₁
