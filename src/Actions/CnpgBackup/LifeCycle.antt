-- ===== src/Actions/CnpgBackup/LifeCycle.antt =====
-- The life cycle of the capture of a database cluster (cnpgbackup.go): what its flags promise,
-- however its methods are called and however the cluster answers.
use backup_tool.Base.{
  ℕ, ◌≡◌, refl, ◌==◌, nat_eq, if◌then◌else◌, Bool-cases, ap, ◌∙◌, subst, true, some, is_some, [],
  ◌∷◌, arith, Option-cases, inl, inr, In,
}
use backup_tool.Base.Text.{Chars}
use backup_tool.Errors.{Errors, ok, wrap, Result-cases}
use backup_tool.Cleanup.{CleanupContext}
use backup_tool.Kube.Building.{Building}
use backup_tool.Kube.Api.{deleted, backup}
use backup_tool.Kube.Databases.{Backup}
use backup_tool.Kube.Clone.{ClonedCluster, CloneClusterOptions}
use backup_tool.Exec.{error_of}
use backup_tool.Disaster.Apps.{CnpgBackupOptions}
use backup_tool.Actions.{InstanceOptions}
use backup_tool.Actions.CnpgBackup.{
  CnpgBackupClients, CnpgBackup, with_cleanup_timeout, set_backup_point, configure_backup,
  validate_backup, take_base_backup, mount_clone, setup_backup, cleanup_backup, execute_backup,
}

-- What the flags promise.
pub record IsLawful (s : CnpgBackup) : Type 0 where
  pub configured : s.is_validated ≡ true → s.is_configured ≡ true
  pub found : s.is_validated ≡ true → is_some s.source_cluster ≡ true
  pub validated : s.is_base_backed_up ≡ true → s.is_validated ≡ true
  pub backed_up : s.is_base_backed_up ≡ is_some s.base_backup
  pub cloned_from : is_some s.cloned_cluster ≡ true → s.is_base_backed_up ≡ true
  pub set_up : s.is_setup ≡ true → is_some s.cloned_cluster ≡ true

module _ (E : Errors) (k : CnpgBackupClients E.Error) where
  configure-IsLawful :
      (namespace cluster_name dr_vol_name path : Chars) (opts : CnpgBackupOptions)
      (b : Building CnpgBackup)
      → IsLawful b.held
      → IsLawful (configure_backup E k namespace cluster_name dr_vol_name path opts b).1.held
  unfolding configure_backup
  configure-IsLawful namespace cluster_name dr_vol_name path opts b v = ground arith

  validate-IsLawful :
      (b : Building CnpgBackup) → IsLawful b.held → IsLawful (validate_backup E k b).1.held
  unfolding validate_backup
  validate-IsLawful b v = ground arith

  take-IsLawful :
      (b : Building CnpgBackup) → IsLawful b.held → IsLawful (take_base_backup E k b).1.held
  unfolding take_base_backup
  take-IsLawful b v = ground arith

  setup-IsLawful :
      (opts : InstanceOptions) (b : Building CnpgBackup)
      → IsLawful b.held
      → IsLawful (setup_backup E k opts b).1.held
  unfolding setup_backup mount_clone
  setup-IsLawful opts b v = ground arith

  cleanup-IsLawful :
      (ctx : CleanupContext) (b : Building CnpgBackup)
      → IsLawful b.held
      → IsLawful (cleanup_backup E k ctx b).1.held
  unfolding cleanup_backup
  cleanup-IsLawful ctx b v = v

  execute-IsLawful :
      (b : Building CnpgBackup) → IsLawful b.held → IsLawful (execute_backup E k b).1.held
  unfolding execute_backup
  execute-IsLawful b v = ground arith

  -- One call of a method, by the stage or by anything else, with any outcome.
  pub data Step : Building CnpgBackup → Building CnpgBackup → Type 0 where
    configures :
        (b : Building CnpgBackup) (namespace cluster_name dr_vol_name path : Chars)
        (opts : CnpgBackupOptions)
        → Step b (configure_backup E k namespace cluster_name dr_vol_name path opts b).1
    validates : (b : Building CnpgBackup) → Step b (validate_backup E k b).1
    takes : (b : Building CnpgBackup) → Step b (take_base_backup E k b).1
    points : (b : Building CnpgBackup) (point : ℕ) → Step b (set_backup_point point b)
    sets_up :
        (b : Building CnpgBackup) (opts : InstanceOptions) → Step b (setup_backup E k opts b).1
    executes : (b : Building CnpgBackup) → Step b (execute_backup E k b).1
    cleans_up :
        (b : Building CnpgBackup) (ctx : CleanupContext) → Step b (cleanup_backup E k ctx b).1

  pub data Reach (b : Building CnpgBackup) : Building CnpgBackup → Type 0 where
    here : Reach b b
    next : {c d : Building CnpgBackup} → Reach b c → Step c d → Reach b d

  Step-IsLawful : {b c : Building CnpgBackup} → Step b c → IsLawful b.held → IsLawful c.held
  unfolding set_backup_point
  Step-IsLawful (configures b n c d p opts) v = configure-IsLawful n c d p opts b v
  Step-IsLawful (validates b) v = validate-IsLawful b v
  Step-IsLawful (takes b) v = take-IsLawful b v
  Step-IsLawful (points b point) v = ground arith
  Step-IsLawful (sets_up b opts) v = setup-IsLawful opts b v
  Step-IsLawful (executes b) v = execute-IsLawful b v
  Step-IsLawful (cleans_up b ctx) v = cleanup-IsLawful ctx b v

  -- However the methods of the action are called and whatever the cluster answers, the flags of the
  -- action keep what they promise: validated only if configured, backed up only if validated and
  -- exactly if a base backup is held, set up only if a clone is held, which has a base backup.
  pub Reach-IsLawful : {b c : Building CnpgBackup} → IsLawful b.held → Reach b c → IsLawful c.held
  Reach-IsLawful v here = v
  Reach-IsLawful v (next r st) = Step-IsLawful st (Reach-IsLawful v r)

  module _ (base : Backup) where
    take-keeps :
        (b : Building CnpgBackup)
        → IsLawful b.held
        → b.held.base_backup ≡ some base
        → (take_base_backup E k b).1.held.base_backup ≡ some base
    unfolding take_base_backup
    take-keeps b v e = ground arith

    Step-keeps :
        {b c : Building CnpgBackup}
        → Step b c
        → IsLawful b.held
        → b.held.base_backup ≡ some base
        → c.held.base_backup ≡ some base
    unfolding configure_backup validate_backup set_backup_point setup_backup mount_clone
        execute_backup cleanup_backup
    Step-keeps (configures b n c d p opts) v e = ground arith
    Step-keeps (validates b) v e = ground arith
    Step-keeps (takes b) v e = take-keeps b v e
    Step-keeps (points b point) v e = e
    Step-keeps (sets_up b opts) v e = ground arith
    Step-keeps (executes b) v e = ground arith
    Step-keeps (cleans_up b ctx) v e = e

    Reach-keeps :
        {b c : Building CnpgBackup}
        → IsLawful b.held
        → b.held.base_backup ≡ some base
        → Reach b c
        → c.held.base_backup ≡ some base
    Reach-keeps v e here = e
    Reach-keeps v e (next r st) = Step-keeps st (Reach-IsLawful v r) (Reach-keeps v e r)

    cleanup-deletes :
        (ctx : CleanupContext) (b : Building CnpgBackup)
        → b.held.base_backup ≡ some base
        → In
            (deleted (record { kind = backup; namespace = b.held.namespace; name = base.name }))
            (cleanup_backup E k ctx b).1.history
    unfolding cleanup_backup
    cleanup-deletes ctx b e = rw e (inl refl)

  -- While a base backup is held, no call changes the namespace.
  Step-namespace :
      {b c : Building CnpgBackup}
      → Step b c
      → IsLawful b.held
      → is_some b.held.base_backup ≡ true
      → c.held.namespace ≡ b.held.namespace
  unfolding configure_backup validate_backup take_base_backup set_backup_point setup_backup
      mount_clone execute_backup cleanup_backup
  Step-namespace (configures b n c d p opts) v e = ground arith
  Step-namespace (validates b) v e = ground arith
  Step-namespace (takes b) v e = ground arith
  Step-namespace (points b point) v e = refl
  Step-namespace (sets_up b opts) v e = ground arith
  Step-namespace (executes b) v e = ground arith
  Step-namespace (cleans_up b ctx) v e = refl

  Reach-namespace :
      {b c : Building CnpgBackup} (base : Backup)
      → IsLawful b.held
      → b.held.base_backup ≡ some base
      → Reach b c
      → c.held.namespace ≡ b.held.namespace
  Reach-namespace base v e here = refl
  Reach-namespace base v e (next r st) =
      Step-namespace st (Reach-IsLawful v r) (ap is_some (Reach-keeps base v e r))
      ∙ Reach-namespace base v e r

  -- The options of the base backup, whose cleanup timeout is that of the action by default.
  abbrev pub cloning : CnpgBackupOptions → CloneClusterOptions
  cloning opts = record opts.cloning_opts {
    cleanup_timeout =
        if opts.cloning_opts.cleanup_timeout == 0
        then opts.cleanup_timeout
        else opts.cloning_opts.cleanup_timeout;
  }

  cloning_lem : (opts : CnpgBackupOptions) → (with_cleanup_timeout opts).cloning_opts ≡ cloning opts
  unfolding with_cleanup_timeout
  cloning_lem opts = elim (Bool-cases (opts.cloning_opts.cleanup_timeout == 0)) [
    | inl unset ↦ rw unset refl
    | inr set ↦ rw set refl
  ]

  taken_by :
      (b c : Building CnpgBackup) (point : ℕ)
      → take_base_backup E k b ≡ (ok point, c)
      → (base : Backup) × ((k.create_cluster_backup b.held.namespace b.held.cluster_name
            (cloning b.held.opts)
            b.history).0
          ≡ ok base)
        × (c.held.base_backup ≡ some base)
        × (c.held.namespace ≡ b.held.namespace)
  unfolding take_base_backup
  taken_by b c point h =
      elim (Result-cases
        (k.create_cluster_backup b.held.namespace b.held.cluster_name (cloning b.held.opts)
          b.history).0) [
            | inl (base, made) ↦ (
              base,
              made,
              ground (arith, made, cloning_lem b.held.opts, h),
              ground (arith, made, cloning_lem b.held.opts, h),
            )
            | inr (x, failed) ↦ absurd (ground (arith, failed, h))
          ]

  -- If a base backup of the cluster is taken, it is not lost: after any further calls, a cleanup asks
  -- for the deletion of the backup that was made, in the namespace in which it was taken, also where
  -- the clone could not be deleted.
  pub base_backup-released :
      (b : Building CnpgBackup) {c d : Building CnpgBackup} (point : ℕ) (ctx : CleanupContext)
      → IsLawful b.held
      → take_base_backup E k b ≡ (ok point, c)
      → Reach c d
      → (base : Backup) × ((k.create_cluster_backup b.held.namespace b.held.cluster_name
            (cloning b.held.opts)
            b.history).0
          ≡ ok base)
        × In
            (deleted (record { kind = backup; namespace = b.held.namespace; name = base.name }))
            (cleanup_backup E k ctx d).1.history
  base_backup-released b {c} {d} point ctx v h r =
      let (base, made, holds, place) = taken_by b c point h in
      let sound : IsLawful c.held = subst (λ q. IsLawful q.1.held) h (take-IsLawful b v) in
      (
        base,
        made,
        subst
            (λ ns.
              In (deleted (record { kind = backup; namespace = ns; name = base.name }))
                (cleanup_backup E k ctx d).1.history)
            (Reach-namespace base sound holds r ∙ place)
            (cleanup-deletes base ctx d (Reach-keeps base sound holds r)),
      )

  -- An action that is set up, however that came about, has what Execute needs: it dumps the clone that
  -- it holds into its file on the DR volume, and its outcome is that of the dump.
  pub execute-dumps :
      {b c : Building CnpgBackup}
      → IsLawful b.held
      → Reach b c
      → c.held.is_setup ≡ true
      → (clone : ClonedCluster) × (c.held.cloned_cluster ≡ some clone)
        × (error_of (execute_backup E k c).0
            ≡ wrap E
                (error_of (
                  k.dump_all clone c.held.mount_paths.serving_cert c.held.mount_paths.client_cert
                    (k.naming.join
                      (c.held.mount_paths.dr_volume ∷ c.held.backup_file_rel_path ∷ []))
                    c.history))
                "failed to create logical backup for postgres server")
  unfolding execute_backup
  execute-dumps {c = c} v r e = elim (Option-cases c.held.cloned_cluster) [
    | inl absent ↦ absurd (ground (arith, (Reach-IsLawful v r).set_up e, absent))
    | inr (clone, has) ↦ (clone, has, ground (arith, has, e))
  ]
