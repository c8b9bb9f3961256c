-- ===== src/Kube/Volumes/Outcome.antt =====
-- What a clone of a volume leaves on the cluster (pkg/kubecluster/composite/clonepvc).
use backup_tool.Base.{
  ◌≡◌, refl, arith, Option, none, some, [], ◌∷◌, Option-cases, ◌⊎◌, inl, inr, if◌then◌else◌, ◌==◌,
  list_eq,
}
use backup_tool.Base.Text.{Chars}
use backup_tool.Errors.{Errors, Result, ok, err}
use backup_tool.Helpers.{minute, max_wait}
use backup_tool.Kube.Api.{Resource, History, note_created, created, deleted, asked, snapshot}
use backup_tool.Exec.Ensures.{Ends}
use backup_tool.Kube.Leaks.{
  Tracks, NoLeak, Tracks-asked, Tracks-hold, Tracks-drop, Tracks-weaken, NoLeak-refl,
}
use backup_tool.Kube.Volumes.Tracking.{
  Spared, WithPvc, bind-Tracks, create-Ensures, bind-Spared, create-Spared,
}
use backup_tool.Kube.Volumes.{
  VolumeSnapshot, ClonePvcOptions, CloneClients, snapshot_id, pvc_id, deferred, settle_clone,
  with_clone, with_ready, with_snapshot, create_pvc_from_snapshot, bind_clone, clone_pvc,
}

module _ (E : Errors) (k : CloneClients E.Error) (namespace : Chars) where
  -- The clone of a volume, step by step from the history `h`.
  module _ (pvc_name : Chars) (opts : ClonePvcOptions) (h : History) where
    abbrev pub made_snapshot : Result E.Error VolumeSnapshot
    made_snapshot = k.snapshot_volume namespace pvc_name opts.snapshot_class h

    abbrev pub awaited : VolumeSnapshot → Result E.Error VolumeSnapshot
    awaited s =
        k.wait_for_ready_snapshot namespace s.name opts.wait_for_snapshot_timeout
          (created (snapshot_id namespace s.name) ∷ h)

    -- The creation of the clone from the snapshot that is ready.
    abbrev pub creation : VolumeSnapshot → VolumeSnapshot → Result E.Error Chars × History
    creation s ready =
        create_pvc_from_snapshot E k namespace
          (if opts.dest_pvc_name_prefix == [] then pvc_name else opts.dest_pvc_name_prefix) pvc_name
          ready opts.dest_storage_class_name
          (asked snapshot s.name ∷ created (snapshot_id namespace s.name) ∷ h)

    abbrev pub binding : VolumeSnapshot → VolumeSnapshot → Chars → Option E.Error × History
    binding s ready name = bind_clone E k namespace opts name (creation s ready).1

    -- A step before the deletion of the snapshot fails.
    pub data StepFails : Type 0 where
      unsnapshotted : (x : E.Error) → made_snapshot ≡ err x → StepFails
      unready :
          (s : VolumeSnapshot) (x : E.Error) → made_snapshot ≡ ok s → awaited s ≡ err x → StepFails
      uncreated :
          (s ready : VolumeSnapshot) (x : E.Error)
          → made_snapshot ≡ ok s
          → awaited s ≡ ok ready
          → (creation s ready).0 ≡ err x
          → StepFails
      unbound :
          (s ready : VolumeSnapshot) (name : Chars) (x : E.Error)
          → made_snapshot ≡ ok s
          → awaited s ≡ ok ready
          → (creation s ready).0 ≡ ok name
          → (binding s ready name).0 ≡ some x
          → StepFails

    -- No step before the deletion of the snapshot fails, and the history is `h'` then.
    pub record StepsSucceed (s : VolumeSnapshot) (name : Chars) (h' : History) : Type 0 where
      pub ready : VolumeSnapshot
      pub of_snapshot : made_snapshot ≡ ok s
      pub of_wait : awaited s ≡ ok ready
      pub of_creation : (creation s ready).0 ≡ ok name
      pub of_binding : (binding s ready name).0 ≡ none
      pub of_history : h' ≡ (binding s ready name).1

    -- What a clone of a volume may end with: a step fails, there is an error and no clone, and nothing
    -- that was created since is not asked to be deleted; or no step fails, and there is a clone, which
    -- is all that is left and is not asked to be deleted, and an error exactly if the deletion of the
    -- snapshot fails.
    pub data ClonePvcEnding : Option Chars × Option E.Error × History → Type 0 where
      gave_up :
          (e : E.Error) (h' : History) → StepFails → NoLeak h h' → ClonePvcEnding (none, some e, h')
      made :
          (s : VolumeSnapshot) (name : Chars) (h' : History)
          → StepsSucceed s name h'
          → k.delete_snapshot namespace s.name h' ≡ none
          → Tracks (λ r. r ≡ pvc_id namespace name) h (deleted (snapshot_id namespace s.name) ∷ h')
          → Spared (pvc_id namespace name) h (deleted (snapshot_id namespace s.name) ∷ h')
          → ClonePvcEnding (some name, none, deleted (snapshot_id namespace s.name) ∷ h')
      kept :
          (s : VolumeSnapshot) (name : Chars) (e x : E.Error) (h' : History)
          → StepsSucceed s name h'
          → k.delete_snapshot namespace s.name h' ≡ some x
          → Tracks (λ r. r ≡ pvc_id namespace name) h (deleted (snapshot_id namespace s.name) ∷ h')
          → Spared (pvc_id namespace name) h (deleted (snapshot_id namespace s.name) ∷ h')
          → ClonePvcEnding (some name, some e, deleted (snapshot_id namespace s.name) ∷ h')

    module _ (s : VolumeSnapshot) (snapped : made_snapshot ≡ ok s) where
      abbrev id : Resource
      id = snapshot_id namespace s.name

      abbrev HoldsSnapshot : Resource → Type 0
      HoldsSnapshot r = ⊥ ⊎ (r ≡ id)

      pvc_left :
          (name : Chars) (h' : History)
          → WithPvc E k namespace HoldsSnapshot h name h'
          → Tracks (λ r. r ≡ pvc_id namespace name) h (deleted id ∷ h')
      pvc_left name h' t =
          Tracks-drop (λ r. r ≡ pvc_id namespace name) h h' id
            (Tracks-weaken (λ r. (⊥ ⊎ (r ≡ id)) ⊎ (r ≡ pvc_id namespace name)) h h'
              (λ r. (r ≡ pvc_id namespace name) ⊎ (r ≡ id)) (λ r kept. swapped r name kept) t)
        where
          swapped :
              (r : Resource) (name : Chars)
              → (⊥ ⊎ (r ≡ id)) ⊎ (r ≡ pvc_id namespace name)
              → (r ≡ pvc_id namespace name) ⊎ (r ≡ id)
          swapped r name (inl (inl f)) = absurd f
          swapped r name (inl (inr e)) = inr e
          swapped r name (inr e) = inl e

      -- What is tried before the deletion of the snapshot.
      data IsTried : Option Chars × Option E.Error × History → Type 0 where
        failed :
            (e : E.Error) (h' : History)
            → StepFails
            → Tracks HoldsSnapshot h h'
            → IsTried (none, some e, h')
        cloned :
            (name : Chars) (h' : History)
            → StepsSucceed s name h'
            → WithPvc E k namespace HoldsSnapshot h name h'
            → Spared (pvc_id namespace name) h h'
            → IsTried (some name, none, h')

      settle-IsTried :
          (ready : VolumeSnapshot) (name : Chars) (bound : Option E.Error)
          → awaited s ≡ ok ready
          → (creation s ready).0 ≡ ok name
          → (binding s ready name).0 ≡ bound
          → WithPvc E k namespace HoldsSnapshot h name (binding s ready name).1
          → Spared (pvc_id namespace name) h (binding s ready name).1
          → IsTried (settle_clone E k namespace opts name bound (binding s ready name).1)
      unfolding settle_clone
      settle-IsTried ready name none a c e t spared =
          cloned name (binding s ready name).1
            (record {
              ready = ready;
              of_snapshot = snapped;
              of_wait = a;
              of_creation = c;
              of_binding = e;
              of_history = refl;
            })
            t spared
      settle-IsTried ready name (some x) a c e t spared =
          failed _ _ (unbound s ready name x snapped a c e)
            (Tracks-drop HoldsSnapshot h (binding s ready name).1 (pvc_id namespace name) t)

      with_clone-IsTried :
          (ready : VolumeSnapshot) (r : Result E.Error Chars)
          → awaited s ≡ ok ready
          → (creation s ready).0 ≡ r
          → Ends
              (WithPvc E k namespace HoldsSnapshot h)
              (Tracks HoldsSnapshot h)
              (r, (creation s ready).1)
          → ((name : Chars) → Spared (pvc_id namespace name) h (creation s ready).1)
          → IsTried (with_clone E k namespace opts r (creation s ready).1)
      unfolding with_clone
      with_clone-IsTried ready (err x) a c t spared = failed _ _ (uncreated s ready x snapped a c) t
      with_clone-IsTried ready (ok name) a c t spared =
          settle-IsTried ready name _ a c refl
            (bind-Tracks E k namespace (λ r. HoldsSnapshot r ⊎ (r ≡ pvc_id namespace name)) h opts
              name (creation s ready).1 t)
            (bind-Spared E k namespace name h opts name (creation s ready).1 (spared name))

      with_ready-IsTried :
          (r : Result E.Error VolumeSnapshot)
          → awaited s ≡ r
          → IsTried
              (with_ready E k namespace opts pvc_name r (asked snapshot s.name ∷ created id ∷ h))
      unfolding with_ready
      with_ready-IsTried (err x) a = failed _ _ (unready s x snapped a) (
          Tracks-asked HoldsSnapshot h (created id ∷ h)
            (Tracks-hold (λ r. ⊥) h h id (NoLeak-refl h)) snapshot s.name)
      with_ready-IsTried (ok ready) a =
          let prefix =
            if opts.dest_pvc_name_prefix == [] then pvc_name else opts.dest_pvc_name_prefix in
          with_clone-IsTried ready _ a refl
            ((create-Ensures E k namespace HoldsSnapshot h prefix pvc_name
                opts.dest_storage_class_name ready).ends
              (asked snapshot s.name ∷ created id ∷ h)
              (Tracks-asked HoldsSnapshot h (created id ∷ h)
                (Tracks-hold (λ r. ⊥) h h id (NoLeak-refl h)) snapshot s.name))
            (λ name.
              create-Spared E k namespace name h prefix pvc_name opts.dest_storage_class_name ready
                (asked snapshot s.name ∷ created id ∷ h) (λ i. ground (arith, i)))

      -- The deferred deletion of the snapshot, on what was tried.
      release_snapshot-ClonePvcEnding :
          (tried : Option Chars × Option E.Error × History)
          → IsTried tried
          → let (e', h₃) =
              deferred E "failed to delete created snapshot for PVC"
                (max_wait minute opts.cleanup_timeout)
                (λ h. (k.delete_snapshot namespace s.name h, deleted id ∷ h))
                tried.1
                tried.2 in
            ClonePvcEnding (tried.0, e', h₃)
      unfolding deferred
      release_snapshot-ClonePvcEnding _ (failed e h' x t) =
          gave_up _ _ x (Tracks-drop (λ r. ⊥) h h' id t)
      release_snapshot-ClonePvcEnding _ (cloned name h' steps t spared) =
          let also : Spared (pvc_id namespace name) h (deleted id ∷ h') =
            λ i. spared (ground (arith, i)) in
          elim (Option-cases (k.delete_snapshot namespace s.name h')) [
            | inl done ↦ rw done (made s name h' steps done (pvc_left name h' t) also)
            | inr (x, refused) ↦
                rw refused (kept s name _ x h' steps refused (pvc_left name h' t) also)
          ]

    with_snapshot-ClonePvcEnding :
        (r : Result E.Error VolumeSnapshot)
        → made_snapshot ≡ r
        → ClonePvcEnding (
            with_snapshot E k namespace opts pvc_name r
              (note_created snapshot pvc_name (λ s. snapshot_id namespace s.name) r h))
    unfolding with_snapshot
    with_snapshot-ClonePvcEnding (err x) e =
        gave_up _ _ (unsnapshotted x e)
          (Tracks-asked (λ r. ⊥) h h (NoLeak-refl h) snapshot pvc_name)
    with_snapshot-ClonePvcEnding (ok s) e =
        release_snapshot-ClonePvcEnding s e _ (with_ready-IsTried s e (awaited s) refl)

    -- A clone of a volume fails and returns no clone exactly if a step before the deletion of its
    -- snapshot fails, and then leaves nothing, whichever step it is. Else the clone is returned and is
    -- not deleted, also where the deletion of the snapshot fails, which is returned as an error.
    pub clone_pvc-ClonePvcEnding : ClonePvcEnding (clone_pvc E k namespace pvc_name opts h)
    unfolding clone_pvc
    clone_pvc-ClonePvcEnding = with_snapshot-ClonePvcEnding made_snapshot refl
