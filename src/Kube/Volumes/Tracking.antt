-- ===== src/Kube/Volumes/Tracking.antt =====
-- What the steps of a clone of a volume leave on the cluster (pkg/kubecluster/composite/clonepvc).
use backup_tool.Base.{ℕ, ◌≡◌, In, arith, Bool-cases, [], ◌∷◌, ◌⊎◌, inl, inr, ◌==◌, list_eq}
use backup_tool.Base.Text.{Chars, codes}
use backup_tool.Errors.{Errors, Result, ok, err, Result-cases}
use backup_tool.Kube.Api.{
  Resource, History, note_created, creating, created, deleted, asked, pod, pvc,
}
use backup_tool.Exec.{lift}
use backup_tool.Exec.Ensures.{Ends, Ensures, Ensures-bind, Ensures-wrapping}
use backup_tool.Kube.Leaks.{Tracks, Tracks-asked, Tracks-hold, Tracks-drop}
use backup_tool.Kube.Volumes.{
  VolumeSnapshot, ClonePvcOptions, CloneClients, pvc_id, pod_id, await_pod, storage_class_name,
  create_pvc_from_snapshot, bind_clone,
}

-- No deletion of the resource was asked for since `h₀`.
abbrev pub Spared : Resource → History → History → Type 0
Spared r h₀ h = In (deleted r) h → In (deleted r) h₀

module _ (E : Errors) (k : CloneClients E.Error) (namespace : Chars) where
  module _ (held : Resource → Type 0) (h₀ : History) where
    pub await_pod-Tracks :
        (wait timeout : ℕ) (r : Result E.Error Chars) (h : History)
        → Tracks held h₀ h
        → Tracks held h₀
            (await_pod E k namespace wait timeout r
              (note_created pod (codes "force-bind-") (pod_id namespace) r h)).1
    unfolding await_pod
    await_pod-Tracks wait timeout (err e) h t = Tracks-asked held h₀ h t pod (codes "force-bind-")
    await_pod-Tracks wait timeout (ok name) h t =
        Tracks-drop held h₀ (asked pod name ∷ created (pod_id namespace name) ∷ h)
          (pod_id namespace name)
          (Tracks-asked (λ r. held r ⊎ (r ≡ pod_id namespace name)) h₀
            (created (pod_id namespace name) ∷ h) (Tracks-hold held h₀ h (pod_id namespace name) t)
            pod name)

    -- Binding volumes leaves no pod.
    pub bind-Tracks :
        (opts : ClonePvcOptions) (name : Chars) (h : History)
        → Tracks held h₀ h
        → Tracks held h₀ (bind_clone E k namespace opts name h).1
    unfolding bind_clone
    bind-Tracks opts name h t = elim (Bool-cases opts.force_bind) [
      | inl e ↦ rw e (
          await_pod-Tracks opts.force_bind_timeout opts.cleanup_timeout
            (k.create_pod namespace (name ∷ []) h) h t)
      | inr e ↦ rw e t
    ]

  -- No deletion of the PVC is asked for by binding or creating a clone.
  module _ (name : Chars) (h₀ : History) where
    abbrev Kept : History → Type 0
    Kept = Spared (pvc_id namespace name) h₀

    pod-Spared :
        (opts : ClonePvcOptions) (r : Result E.Error Chars) (h : History)
        → Kept h
        → Kept
            (await_pod E k namespace opts.force_bind_timeout opts.cleanup_timeout r
              (note_created pod (codes "force-bind-") (pod_id namespace) r h)).1
    unfolding await_pod
    pod-Spared opts (err x) h spared i = spared (ground (arith, i))
    pod-Spared opts (ok p) h spared i = spared (ground (arith, i))

    pub bind-Spared :
        (opts : ClonePvcOptions) (cloned : Chars) (h : History)
        → Kept h
        → Kept (bind_clone E k namespace opts cloned h).1
    unfolding bind_clone
    bind-Spared opts cloned h spared = elim (Bool-cases opts.force_bind) [
      | inl e ↦ rw e (pod-Spared opts (k.create_pod namespace (cloned ∷ []) h) h spared)
      | inr e ↦ rw e spared
    ]

    pub create-Spared :
        (prefix source class : Chars) (s : VolumeSnapshot) (h : History)
        → Kept h
        → Kept (create_pvc_from_snapshot E k namespace prefix source s class h).1
    unfolding create_pvc_from_snapshot storage_class_name
    create-Spared prefix source class s h spared i = spared (ground (arith, i))

  module _ (held : Resource → Type 0) (h₀ : History) where
    storage_class-Ends :
        (source class : Chars) (h : History)
        → Tracks held h₀ h
        → Ends
            (λ _. Tracks held h₀)
            (Tracks held h₀)
            (storage_class_name E k namespace source class h)
    unfolding storage_class_name
    storage_class-Ends source class h t = elim (Bool-cases (class == [])) [
      | inl e ↦ rw e (elim (Result-cases (k.get_pvc namespace source h)) [
        | inl (c, found) ↦ rw found (Tracks-asked held h₀ h t pvc source)
        | inr (x, missing) ↦ rw missing (Tracks-asked held h₀ h t pvc source)
      ])
      | inr e ↦ rw e t
    ]

    -- With the PVC that is created.
    abbrev pub WithPvc : Chars → History → Type 0
    WithPvc name = Tracks (λ r. held r ⊎ (r ≡ pvc_id namespace name)) h₀

    created_answered :
        (prefix : Chars) (r : Result E.Error Chars) (h : History)
        → Tracks held h₀ h
        → Ends WithPvc (Tracks held h₀) (r, note_created pvc prefix (pvc_id namespace) r h)
    created_answered prefix (ok name) h t = Tracks-hold held h₀ h (pvc_id namespace name) t
    created_answered prefix (err e) h t = Tracks-asked held h₀ h t pvc prefix

    lifted :
        {A : Type 0} (r : Result E.Error A)
        → Ensures (Tracks held h₀) (lift r) (λ _. Tracks held h₀) (Tracks held h₀)
    lifted (ok a) = record { ends = λ h t. t }
    lifted (err e) = record { ends = λ h t. t }

    pub create-Ensures :
        (prefix source class : Chars) (s : VolumeSnapshot)
        → Ensures
            (Tracks held h₀)
            (create_pvc_from_snapshot E k namespace prefix source s class)
            WithPvc
            (Tracks held h₀)
    unfolding create_pvc_from_snapshot
    create-Ensures prefix source class s =
        Ensures-bind (storage_class_name E k namespace source class) _
          (record { ends = λ h t. storage_class-Ends source class h t })
          (λ c. Ensures-bind _ _ (lifted _) (λ size.
            Ensures-wrapping E "failed to create volume from snapshot"
              (creating pvc prefix (pvc_id namespace) (k.create_pvc namespace prefix size c s.name))
              (record {
                ends = λ h t.
                    created_answered prefix (k.create_pvc namespace prefix size c s.name h) h t;
              })))
