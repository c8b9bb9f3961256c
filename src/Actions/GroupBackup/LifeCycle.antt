-- ===== src/Actions/GroupBackup/LifeCycle.antt =====
-- The life cycle of the capture of a group of volumes (filesgroupbackup.go), with the clone of the
-- group that it composes (clonepvcgroup.go).
use backup_tool.Base.{
  ℕ, ◌≡◌, refl, sym, subst, String, Bool, true, false, not, Option, some, List, [], ◌∷◌, ◌⊎◌, inl,
  inr, In, arith,
}
use backup_tool.Base.Dict.{Dict}
use backup_tool.Base.Text.{Chars}
use backup_tool.Errors.{Errors, Result, ok, err}
use backup_tool.Cleanup.{CleanupContext}
use backup_tool.Kube.Api.{Resource, History, deleted, asked, pvc}
use backup_tool.Exec.{Exec, wrapping, pure, ◌>>=◌, ◌>>◌}
use backup_tool.Kube.Building.{Building, calling, hold}
use backup_tool.Kube.Leaks.{
  Tracks, NoLeak, NoLeak-refl, Tracks-asked, Tracks-deleted, Tracks-drop, Tracks-weaken,
}
use backup_tool.Kube.Volumes.{pvc_id}
use backup_tool.Kube.VolumeGroups.{ClonePvcGroupResult, group_id}
use backup_tool.Kube.VolumeGroups.Tracking.{clone_ids}
use backup_tool.Kube.VolumeGroups.Outcome.{
  IsFaithful, GroupEnding, gave_up, made, clone_pvc_group-GroupEnding,
}
use backup_tool.Disaster.Config.{LabelSelector}
use backup_tool.Disaster.Apps.{FilesBackupOptions}
use backup_tool.Actions.{InstanceOptions, require, follow}
use backup_tool.Actions.GroupBackup.{
  GroupBackupClients, FilesGroupBackup, both_results, freeze_instant, group_clone_options,
  configure_group_backup, validate_group_backup, clone_group, setup_group_backup, release_clones,
  release_group, cleanup_group_backup,
}

module _ (E : Errors) (k : GroupBackupClients E.Error) where
  -- One call of a method on the cluster's side, with any outcome.
  pub data Step : Building FilesGroupBackup → Building FilesGroupBackup → Type 0 where
    configures :
        (b : Building FilesGroupBackup) (namespace : Chars) (selector : LabelSelector)
        (dr_vol_name group_name : Chars) (opts : FilesBackupOptions)
        → Step b (configure_group_backup E k namespace selector dr_vol_name group_name opts b).1
    validates : (b : Building FilesGroupBackup) → Step b (validate_group_backup E k b).1
    takes_clones : (b : Building FilesGroupBackup) → Step b (clone_group E k b).1
    sets_up :
        (b : Building FilesGroupBackup) (opts : InstanceOptions)
        → Step b (setup_group_backup E k opts b).1
    cleans_up :
        (b : Building FilesGroupBackup) (ctx : CleanupContext)
        → Step b (cleanup_group_backup E k ctx b).1

  pub data Reach (b : Building FilesGroupBackup) : Building FilesGroupBackup → Type 0 where
    here : Reach b b
    next : {c d : Building FilesGroupBackup} → Reach b c → Step c d → Reach b d

  module _ (h₀ : History) (namespace : Chars) (r : ClonePvcGroupResult) where
    abbrev Held : Resource → Type 0
    Held x = (x ≡ group_id namespace r.group.name) ⊎ In x (clone_ids namespace r.cloned_pvcs)

    -- While the clone of the group is held.
    record Holds (c : Building FilesGroupBackup) : Type 0 where
      pub configured : c.held.is_configured ≡ true
      pub cloned : c.held.is_cloned ≡ true
      pub result : c.held.clone_result ≡ some r
      pub there : c.held.namespace ≡ namespace

    release_clones-Tracks :
        (held : Resource → Type 0) (ns : Chars) (clones : Dict Chars Chars)
        (errs : List (Option E.Error)) (h : History)
        → Tracks held h₀ h
        → Tracks held h₀ (release_clones E k ns clones errs h).1
    unfolding release_clones
    release_clones-Tracks held ns [] errs h t = t
    release_clones-Tracks held ns ((source, name) ∷ clones) errs h t =
        release_clones-Tracks held ns clones _ (deleted (pvc_id ns name) ∷ h)
          (Tracks-deleted held h₀ h t (pvc_id ns name))

    release_clones-drops :
        (held : Resource → Type 0) (clones : Dict Chars Chars) (errs : List (Option E.Error))
        (h : History)
        → Tracks (λ x. held x ⊎ In x (clone_ids namespace clones)) h₀ h
        → Tracks held h₀ (release_clones E k namespace clones errs h).1
    unfolding release_clones
    release_clones-drops held [] errs h t =
        Tracks-weaken (λ x. held x ⊎ ⊥) h₀ h held
          (λ x i. elim i [ inl kept ↦ kept | inr f ↦ absurd f ]) t
    release_clones-drops held ((source, name) ∷ clones) errs h t =
        release_clones-drops held clones _ (deleted (pvc_id namespace name) ∷ h) (
          Tracks-drop (λ x. held x ⊎ In x (clone_ids namespace clones)) h₀ h (pvc_id namespace name)
            (Tracks-weaken (λ x. held x ⊎ In x (clone_ids namespace ((source, name) ∷ clones))) h₀ h
              (λ x. (held x ⊎ In x (clone_ids namespace clones)) ⊎ (x ≡ pvc_id namespace name))
              (λ x i. elim i [
                | inl kept ↦ inl (inl kept)
                | inr (inl e) ↦ inr e
                | inr (inr j) ↦ inl (inr j)
              ])
              t))

    release_group-NoLeak :
        (h : History) → Tracks Held h₀ h → NoLeak h₀ (release_group E k namespace r h).1
    unfolding release_group
    release_group-NoLeak h t =
        Tracks-drop (λ x. ⊥) h₀ _ (group_id namespace r.group.name)
          (Tracks-weaken (λ x. x ≡ group_id namespace r.group.name) h₀ _
            (λ x. ⊥ ⊎ (x ≡ group_id namespace r.group.name)) (λ x e. inr e)
            (release_clones-drops (λ x. x ≡ group_id namespace r.group.name) r.cloned_pvcs [] h t))

    cleanup-Tracks :
        (c : Building FilesGroupBackup) (ctx : CleanupContext)
        → Holds c
        → Tracks Held h₀ c.history
        → Tracks Held h₀ (cleanup_group_backup E k ctx c).1.history
    unfolding cleanup_group_backup release_group
    cleanup-Tracks c ctx v t = rw (v.result) (
        Tracks-deleted Held h₀ _
          (release_clones-Tracks Held c.held.namespace r.cloned_pvcs [] c.history t)
          (group_id c.held.namespace r.group.name))

    cleanup-NoLeak :
        (c : Building FilesGroupBackup) (ctx : CleanupContext)
        → Holds c
        → Tracks Held h₀ c.history
        → NoLeak h₀ (cleanup_group_backup E k ctx c).1.history
    unfolding cleanup_group_backup
    cleanup-NoLeak c ctx v t = rw (v.result) (rw (v.there) (release_group-NoLeak c.history t))

    Step-Holds : {c d : Building FilesGroupBackup} → Step c d → Holds c → Holds d
    unfolding configure_group_backup validate_group_backup clone_group setup_group_backup
        cleanup_group_backup
    Step-Holds (configures b n s v g opts) h = ground arith
    Step-Holds (validates b) h = ground arith
    Step-Holds (takes_clones b) h = ground arith
    Step-Holds (sets_up b opts) h = ground arith
    Step-Holds (cleans_up b ctx) h = record {
      configured = h.configured;
      cloned = h.cloned;
      result = h.result;
      there = h.there;
    }

    unchanged : {h h' : History} → h' ≡ h → Tracks Held h₀ h → Tracks Held h₀ h'
    unchanged e t = subst (Tracks Held h₀) (sym e) t

    clone-history :
        (b : Building FilesGroupBackup) → Holds b → (clone_group E k b).1.history ≡ b.history
    unfolding clone_group
    clone-history b h = ground arith

    setup-history :
        (b : Building FilesGroupBackup) (opts : InstanceOptions)
        → (setup_group_backup E k opts b).1.history ≡ b.history
    unfolding setup_group_backup
    setup-history b opts = ground arith

    validate-history :
        (b : Building FilesGroupBackup)
        → let after = (validate_group_backup E k b).1.history in
          (after ≡ b.history)
          ⊎ (after ≡ asked pvc [] ∷ b.history)
          ⊎ (after ≡ asked pvc b.held.dr_vol_name ∷ asked pvc [] ∷ b.history)
    unfolding validate_group_backup
    validate-history b = ground arith

    Step-Tracks :
        {c d : Building FilesGroupBackup}
        → Step c d
        → Holds c
        → Tracks Held h₀ c.history
        → Tracks Held h₀ d.history
    unfolding configure_group_backup
    Step-Tracks (configures b n s v g opts) h t = rw (h.configured) t
    Step-Tracks (validates b) h t =
        let listed = Tracks-asked Held h₀ b.history t pvc [] in
        elim (validate-history b) [
          | inl e ↦ unchanged e t
          | inr (inl e) ↦ unchanged e listed
          | inr (inr e) ↦
              unchanged e
                (Tracks-asked Held h₀ (asked pvc [] ∷ b.history) listed pvc b.held.dr_vol_name)
        ]
    Step-Tracks (takes_clones b) h t = unchanged (clone-history b h) t
    Step-Tracks (sets_up b opts) h t = unchanged (setup-history b opts) t
    Step-Tracks (cleans_up b ctx) h t = cleanup-Tracks b ctx h t

    Reach-NoLeak :
        {c d : Building FilesGroupBackup} (ctx : CleanupContext)
        → Holds c
        → Tracks Held h₀ c.history
        → Reach c d
        → NoLeak h₀ (cleanup_group_backup E k ctx d).1.history
    Reach-NoLeak ctx h t reached =
        let (held, tracked) = Reach-Tracks h t reached in cleanup-NoLeak _ ctx held tracked
      where
        Reach-Tracks :
            {c d : Building FilesGroupBackup}
            → Holds c
            → Tracks Held h₀ c.history
            → Reach c d
            → Holds d × Tracks Held h₀ d.history
        Reach-Tracks h t here = (h, t)
        Reach-Tracks h t (next reached st) =
            let (held, tracked) = Reach-Tracks h t reached in
            (Step-Holds st held, Step-Tracks st held tracked)

  -- What the freeze of a group leaves: nothing, or the result that it holds.
  data FreezeEnding (b : Building FilesGroupBackup)
      : Result E.Error ℕ × Building FilesGroupBackup → Type 0 where
    nothing_left :
        (e : E.Error) (b' : Building FilesGroupBackup)
        → NoLeak b.history b'.history
        → FreezeEnding b (err e, b')
    froze :
        (r : ClonePvcGroupResult) (b' : Building FilesGroupBackup)
        → Holds b.history b.held.namespace r b'
        → Tracks (Held b.history b.held.namespace r) b.history b'.history
        → FreezeEnding b (ok (freeze_instant r.group), b')

  -- The method, once the clone has ended.
  abbrev after_clone :
      Building FilesGroupBackup
      → Option ClonePvcGroupResult × Option E.Error × History
      → Result E.Error ℕ × Building FilesGroupBackup
  after_clone b ended =
      (wrapping E "failed to clone source data PVC group" (calling (both_results (λ _. ended)))
          >>= λ result.
              hold (λ s. record s { clone_result = result; is_cloned = true })
              >> (follow E result >>= λ (r : ClonePvcGroupResult). pure (freeze_instant r.group)))
        b

  after_clone-FreezeEnding :
      (b : Building FilesGroupBackup)
      (ended : Option ClonePvcGroupResult × Option E.Error × History)
      → b.held.is_configured ≡ true
      → GroupEnding E k.groups b.held.namespace b.history ended
      → FreezeEnding b (after_clone b ended)
  after_clone-FreezeEnding b _ configured (gave_up e h t) = nothing_left _ _ t
  after_clone-FreezeEnding b _ configured (made r h t) =
      froze r _ (record { configured = configured; cloned = refl; result = refl; there = refl }) t

  guarded :
      (b : Building FilesGroupBackup) (valid fresh : Bool) (m₁ m₂ : String)
      (m : Exec E.Error (Building FilesGroupBackup) ℕ)
      → FreezeEnding b (m b)
      → FreezeEnding b ((require E valid m₁ >> (require E fresh m₂ >> m)) b)
  guarded b false fresh m₁ m₂ m h = nothing_left _ _ (NoLeak-refl b.history)
  guarded b true false m₁ m₂ m h = nothing_left _ _ (NoLeak-refl b.history)
  guarded b true true m₁ m₂ m h = h

  clone_group-FreezeEnding :
      (b : Building FilesGroupBackup)
      → IsFaithful E k.groups b.held.namespace
      → b.held.is_configured ≡ true
      → FreezeEnding b (clone_group E k b)
  unfolding clone_group
  clone_group-FreezeEnding b faithful configured =
      guarded b b.held.is_validated (not b.held.is_cloned) _ _ _ (
        after_clone-FreezeEnding b _ configured (
          clone_pvc_group-GroupEnding E k.groups b.held.namespace b.held.selector
            (group_clone_options b.held.opts) b.history faithful))

  -- Where the snapshot controller keeps its promises, a group that was frozen pins the instant of its
  -- freeze; and however the methods are called from then on, once a cleanup has run after them,
  -- nothing that was created since before the freeze is not asked to be deleted.
  pub clone_group-released :
      (b c : Building FilesGroupBackup) (ctx : CleanupContext) (t : ℕ)
      → IsFaithful E k.groups b.held.namespace
      → b.held.is_configured ≡ true
      → (clone_group E k b).0 ≡ ok t
      → Reach (clone_group E k b).1 c
      → ((r : ClonePvcGroupResult) × ((clone_group E k b).1.held.clone_result ≡ some r)
          × (t ≡ freeze_instant r.group))
        × NoLeak b.history (cleanup_group_backup E k ctx c).1.history
  clone_group-released b c ctx t faithful configured done reached =
      released (clone_group E k b) (clone_group-FreezeEnding b faithful configured) done reached
    where
      released :
          (out : Result E.Error ℕ × Building FilesGroupBackup)
          → FreezeEnding b out
          → out.0 ≡ ok t
          → Reach out.1 c
          → ((r : ClonePvcGroupResult) × (out.1.held.clone_result ≡ some r)
              × (t ≡ freeze_instant r.group))
            × NoLeak b.history (cleanup_group_backup E k ctx c).1.history
      released _ (nothing_left e b' leak) e' r = absurd (ground (arith, e'))
      released _ (froze r b' held tracked) e' reached = (
        (r, held.result, ground (arith, e')),
        Reach-NoLeak b.history b.held.namespace r ctx held tracked reached,
      )

  -- A freeze that fails leaves nothing.
  pub clone_group-fails :
      (b : Building FilesGroupBackup) (e : E.Error)
      → IsFaithful E k.groups b.held.namespace
      → b.held.is_configured ≡ true
      → (clone_group E k b).0 ≡ err e
      → NoLeak b.history (clone_group E k b).1.history
  clone_group-fails b e faithful configured failed =
      nothing (clone_group E k b) (clone_group-FreezeEnding b faithful configured) failed
    where
      nothing :
          (out : Result E.Error ℕ × Building FilesGroupBackup)
          → FreezeEnding b out
          → out.0 ≡ err e
          → NoLeak b.history out.1.history
      nothing _ (nothing_left e' b' leak) _ = leak
      nothing _ (froze r b' held tracked) e' = absurd (ground (arith, e'))
