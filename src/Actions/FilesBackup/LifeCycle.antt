-- ===== src/Actions/FilesBackup/LifeCycle.antt =====
-- The life cycle of the capture of a directory (filesbackup.go).
use backup_tool.Base.{ℕ, ◌≡◌, refl, ap, ◌∙◌, subst, true, some, [], is_some, In, inl, inr, arith}
use backup_tool.Base.Text.{Chars}
use backup_tool.Errors.{Errors, Result, ok, Result-cases}
use backup_tool.Cleanup.{CleanupContext}
use backup_tool.Kube.Building.{Building}
use backup_tool.Kube.Api.{History, deleted, pvc}
use backup_tool.Disaster.Apps.{FilesBackupOptions}
use backup_tool.Actions.{InstanceOptions}
use backup_tool.Actions.FilesBackup.{
  FilesBackupClients, FilesBackup, ClonedPvc, clone_options, configure_files, validate_files,
  clone_files, setup_files, cleanup_files, execute_files,
}

-- What the flags promise.
pub record IsSound (s : FilesBackup) : Type 0 where
  pub configured : s.is_validated ≡ true → s.is_configured ≡ true
  pub validated : s.is_cloned ≡ true → s.is_validated ≡ true
  pub cloned : s.is_cloned ≡ is_some s.cloned_pvc
  pub set_up : s.is_setup ≡ true → s.is_cloned ≡ true

module _ (E : Errors) (k : FilesBackupClients E.Error) where
  -- One call of a method, with any outcome.
  pub data Step : Building FilesBackup → Building FilesBackup → Type 0 where
    configures :
        (b : Building FilesBackup) (namespace source_pvc_name dr_vol_name path : Chars)
        (opts : FilesBackupOptions)
        → Step b (configure_files E k namespace source_pvc_name dr_vol_name path opts b).1
    validates : (b : Building FilesBackup) → Step b (validate_files E k b).1
    clones : (b : Building FilesBackup) → Step b (clone_files E k b).1
    sets_up :
        (b : Building FilesBackup) (opts : InstanceOptions) → Step b (setup_files E k opts b).1
    executes : (b : Building FilesBackup) → Step b (execute_files E k b).1
    cleans_up :
        (b : Building FilesBackup) (ctx : CleanupContext) → Step b (cleanup_files E k ctx b).1

  pub data Reach (b : Building FilesBackup) : Building FilesBackup → Type 0 where
    here : Reach b b
    next : {c d : Building FilesBackup} → Reach b c → Step c d → Reach b d

  Step-IsSound : {b c : Building FilesBackup} → Step b c → IsSound b.held → IsSound c.held
  unfolding configure_files validate_files clone_files setup_files execute_files cleanup_files
  Step-IsSound (configures b n s d p opts) v = ground arith
  Step-IsSound (validates b) v = ground arith
  Step-IsSound (clones b) v = ground arith
  Step-IsSound (sets_up b opts) v = ground arith
  Step-IsSound (executes b) v = ground arith
  Step-IsSound (cleans_up b ctx) v = v

  Reach-IsSound : {b c : Building FilesBackup} → IsSound b.held → Reach b c → IsSound c.held
  Reach-IsSound v here = v
  Reach-IsSound v (next r st) = Step-IsSound st (Reach-IsSound v r)

  module _ (cloned : ClonedPvc) where
    Step-keeps :
        {b c : Building FilesBackup}
        → Step b c
        → IsSound b.held
        → b.held.cloned_pvc ≡ some cloned
        → c.held.cloned_pvc ≡ some cloned
    unfolding configure_files validate_files clone_files setup_files execute_files cleanup_files
    Step-keeps (configures b n s d p opts) v e = ground arith
    Step-keeps (validates b) v e = ground arith
    Step-keeps (clones b) v e = ground arith
    Step-keeps (sets_up b opts) v e = ground arith
    Step-keeps (executes b) v e = ground arith
    Step-keeps (cleans_up b ctx) v e = e

    Reach-keeps :
        {b c : Building FilesBackup}
        → IsSound b.held
        → b.held.cloned_pvc ≡ some cloned
        → Reach b c
        → c.held.cloned_pvc ≡ some cloned
    Reach-keeps v e here = e
    Reach-keeps v e (next r st) = Step-keeps st (Reach-IsSound v r) (Reach-keeps v e r)

    cleanup-deletes :
        (ctx : CleanupContext) (b : Building FilesBackup)
        → b.held.cloned_pvc ≡ some cloned
        → In
            (deleted (record { kind = pvc; namespace = b.held.namespace; name = cloned.name }))
            (cleanup_files E k ctx b).1.history
    unfolding cleanup_files
    cleanup-deletes ctx b e = rw e (inl refl)

  -- While a clone is held, no call changes the namespace.
  Step-namespace :
      {b c : Building FilesBackup}
      → Step b c
      → IsSound b.held
      → is_some b.held.cloned_pvc ≡ true
      → c.held.namespace ≡ b.held.namespace
  unfolding configure_files validate_files clone_files setup_files execute_files cleanup_files
  Step-namespace (configures b n s d p opts) v e = ground arith
  Step-namespace (validates b) v e = ground arith
  Step-namespace (clones b) v e = ground arith
  Step-namespace (sets_up b opts) v e = ground arith
  Step-namespace (executes b) v e = ground arith
  Step-namespace (cleans_up b ctx) v e = refl

  Reach-namespace :
      {b c : Building FilesBackup} (cloned : ClonedPvc)
      → IsSound b.held
      → b.held.cloned_pvc ≡ some cloned
      → Reach b c
      → c.held.namespace ≡ b.held.namespace
  Reach-namespace cloned v e here = refl
  Reach-namespace cloned v e (next r st) =
      Step-namespace st (Reach-IsSound v r) (ap is_some (Reach-keeps cloned v e r))
      ∙ Reach-namespace cloned v e r

  -- What the cluster answers to a clone of the source, bound at once and named for the DR volume.
  abbrev pub answered : FilesBackup → History → Result E.Error ClonedPvc
  answered s h =
      (k.clone_pvc s.namespace s.source_pvc_name
        (record {
          wait_for_snapshot_timeout = 0;
          dest_storage_class_name = [];
          dest_pvc_name_prefix = s.dr_vol_name;
          force_bind = true;
          force_bind_timeout = 0;
          cleanup_timeout = s.opts.cleanup_timeout;
          snapshot_class = s.opts.snapshot_class;
        })
        h).0

  pinned_by :
      (b c : Building FilesBackup) (point : ℕ)
      → clone_files E k b ≡ (ok point, c)
      → (cloned : ClonedPvc) × (answered b.held b.history ≡ ok cloned)
        × (point ≡ cloned.creation_timestamp)
        × (c.held.cloned_pvc ≡ some cloned)
        × (c.held.namespace ≡ b.held.namespace)
  unfolding clone_files clone_options
  pinned_by b c point h = elim (Result-cases (answered b.held b.history)) [
    | inl (cloned, done) ↦
        (cloned, done, ground (arith, done, h), ground (arith, done, h), ground (arith, done, h))
    | inr (x, failed) ↦ absurd (ground (arith, failed, h))
  ]

  -- If the freeze of a directory succeeds, then the cluster answered with a clone of the source; the
  -- freeze pins the instant at which that was created, and the clone is not lost: whatever calls
  -- follow, a cleanup asks for its deletion in the namespace in which it was made.
  pub clone_files-pinned :
      (b : Building FilesBackup) {c d : Building FilesBackup} (point : ℕ) (ctx : CleanupContext)
      → IsSound b.held
      → clone_files E k b ≡ (ok point, c)
      → Reach c d
      → (cloned : ClonedPvc) × (answered b.held b.history ≡ ok cloned)
        × (point ≡ cloned.creation_timestamp)
        × In
            (deleted (record { kind = pvc; namespace = b.held.namespace; name = cloned.name }))
            (cleanup_files E k ctx d).1.history
  clone_files-pinned b {c} {d} point ctx v h r =
      let (cloned, done, pinned, holds, place) = pinned_by b c point h in
      let sound : IsSound c.held = subst (λ p. IsSound p.1.held) h (Step-IsSound (clones b) v) in
      (
        cloned,
        done,
        pinned,
        subst
            (λ ns.
              In (deleted (record { kind = pvc; namespace = ns; name = cloned.name }))
                (cleanup_files E k ctx d).1.history)
            (Reach-namespace cloned sound holds r ∙ place)
            (cleanup-deletes cloned ctx d (Reach-keeps cloned sound holds r)),
      )
