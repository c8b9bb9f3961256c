-- ===== src/Kube/Clone/Create.antt =====
-- CloneClusterFromBackup, step 5 and the whole, and waitForCloneRecovery of
-- pkg/kubecluster/composite/clonedcluster/clonedcluster.go.
use backup_tool.Base.{ℕ, none, some, [], if◌then◌else◌, ltb, ◌==◌, list_eq, length}
use backup_tool.Base.Text.{Chars}
use backup_tool.Errors.{Errors, Result, ok, err}
use backup_tool.Exec.{Exec, wrapping, pure, lift, from_error, ◌>>=◌, ◌>>◌}
use backup_tool.Kube.Api.{History, Resource, cluster, pod, creating, asking, deleting}
use backup_tool.Kube.Building.{calling, hold, build}
use backup_tool.Kube.Certs.{CertManager, ApproverPolicy}
use backup_tool.Kube.Databases.{
  Bootstrap, Cluster, Backup, CreateClusterOptions, cluster_id, Cnpg, Core, BarmanCloud,
}
use backup_tool.Kube.Recovery.{configure_wal_recovery}
use backup_tool.Kube.Clone.{ClonedCluster, new_cloned_cluster, CloneClusterOptions}
use backup_tool.Kube.Clone.Delete.{delete}
use backup_tool.Kube.Clone.Certificates.{Clone, Certificates, create_pki}

-- The database and the owner that the clone is created with: those of the first way to bootstrap
-- that the existing cluster sets.
unfoldable pub bootstrap_names : Cluster → Bootstrap
bootstrap_names c = elim c.bootstrap [
  | none ↦ ([], [])
  | some (some b, _, _) ↦ b
  | some (none, some b, _) ↦ b
  | some (none, none, some b) ↦ b
  | some (none, none, none) ↦ ([], [])
]

-- The options of the clone before the recovery is configured.
unfoldable pub base_options : Cluster → CreateClusterOptions
unfolding bootstrap_names
base_options c =
    let (database, owner) = bootstrap_names c in
    record {
      image_name = c.image_name;
      storage_class = elim c.storage_class [ none ↦ [] | some s ↦ s ];
      database_name = database;
      owner_name = owner;
      volume_snapshot_recovery = none;
    }

-- `clusterOpts.VolumeSnapshotRecovery.RecoveryTargetTime = target`
unfoldable pub with_target : Chars → CreateClusterOptions → CreateClusterOptions
with_target target opts = elim opts.volume_snapshot_recovery [
  | none ↦ opts
  | some r ↦ record opts {
    volume_snapshot_recovery = some (record r { recovery_target_time = target });
  }
]

-- ErrRecoveryTargetNotReached
abbrev pub err_recovery_target_not_reached : (E : Errors) → E.Error
err_recovery_target_not_reached E = E.errorf "recovery target not reachable from archived WAL"

module _ (E : Errors) (cnpg : Cnpg E.Error) (core : Core E.Error) where
  -- waitForCloneRecovery
  unfoldable pub wait_for_clone_recovery :
      Chars → Chars → CloneClusterOptions → Exec E.Error History Cluster
  wait_for_clone_recovery namespace new opts h =
      let wait_ready : Exec E.Error History Cluster =
        asking cluster new
          (cnpg.wait_for_ready_cluster namespace new opts.wait_for_cluster_timeout) in
      if opts.recovery_target_time == []
      then wait_ready h
      else let (r, h') =
          asking pod new (core.wait_for_job_completion namespace new opts.wait_for_cluster_timeout)
            h in
        elim r [
          | ok _ ↦ wait_ready h'
          | err e ↦
              if E.is e core.job_failed
              then (err (err_recovery_target_not_reached E), h')
              else (err (E.wrap_error e "failed waiting for the recovery job of cluster"), h')
        ]

  -- the closure `createClone`
  unfoldable pub create_clone :
      Chars → Chars → ℕ → Certificates → CreateClusterOptions → Clone E.Error (Unit {0})
  create_clone namespace new size certs opts = do
    c ← wrapping E "failed to create new cluster from backup" (
        calling (
          creating cluster new cluster_id (
            cnpg.create_cluster namespace new size certs.serving certs.client_ca certs.replication
              opts)))
    hold (λ clone. record clone { cluster = some c })

  -- The fallback of CloneClusterFromBackup to the consistency point.
  unfoldable pub fall_back :
      Chars
      → Chars
      → ℕ
      → Certificates
      → CreateClusterOptions
      → CloneClusterOptions
      → Clone E.Error Cluster
  unfolding create_clone with_target
  fall_back namespace new size certs cluster_opts opts = do
    let id : Resource = record { kind = cluster; namespace = namespace; name = new }
    wrapping E "failed to delete cluster before recovery fallback"
        (calling (deleting id (cnpg.delete_cluster namespace new)))
    wrapping E "failed waiting for cluster deletion before recovery fallback" (
        calling (
          asking cluster new (λ h.
            from_error
              (cnpg.wait_for_cluster_deleted namespace new opts.wait_for_cluster_timeout h))))
    create_clone namespace new size certs (with_target [] cluster_opts)
    wrapping E "failed to wait for new cluster to become ready" (
        calling (
          asking cluster new
            (cnpg.wait_for_ready_cluster namespace new opts.wait_for_cluster_timeout)))

  -- What CloneClusterFromBackup does with the outcome of waitForCloneRecovery.
  unfoldable pub recovered :
      Chars
      → Chars
      → ℕ
      → Certificates
      → CreateClusterOptions
      → CloneClusterOptions
      → Result E.Error Cluster
      → Clone E.Error Cluster
  unfolding fall_back
  recovered namespace new size certs cluster_opts opts (ok c) b = pure c b
  recovered namespace new size certs cluster_opts opts (err e) b =
      if E.is e (err_recovery_target_not_reached E)
      then fall_back namespace new size certs cluster_opts opts b
      else (err (E.wrap_error e "failed to wait for new PITR cluster to become ready"), b)

  -- Step 5 of CloneClusterFromBackup from the creation of the cluster on.
  unfoldable pub recover_clone :
      Chars
      → Chars
      → ℕ
      → Certificates
      → CreateClusterOptions
      → CloneClusterOptions
      → Clone E.Error (Unit {0})
  unfolding wait_for_clone_recovery create_clone recovered
  recover_clone namespace new size certs cluster_opts opts = do
    create_clone namespace new size certs cluster_opts
    c ← λ b.
        let (r, h) = wait_for_clone_recovery namespace new opts b.history in
        recovered namespace new size certs cluster_opts opts r (record b { history = h })
    hold (λ clone. record clone { cluster = some c })

module _ (E : Errors) (cm : CertManager E.Error) (ap : ApproverPolicy E.Error) (cnpg : Cnpg E.Error)
    (core : Core E.Error) (bc : BarmanCloud E.Error) where
  -- The steps of CloneClusterFromBackup.
  unfoldable pub clone_steps :
      Chars → Chars → Chars → Backup → CloneClusterOptions → Clone E.Error (Unit {0})
  unfolding create_pki base_options configure_wal_recovery with_target recover_clone
  clone_steps namespace existing new ready_backup opts = do
    source ←
        wrapping E "failed to get existing cluster"
          (calling (asking cluster existing (cnpg.get_cluster namespace existing)))
    size ←
        wrapping E "failed to parse the existing cluster storage volume size"
          (lift (core.parse_quantity source.storage_size))
    certs ← create_pki E cm ap namespace new opts
    configured ← wrapping E "failed to configure WAL recovery for new cluster" (
        calling (
          configure_wal_recovery E bc cnpg.barman_plugin_name namespace source ready_backup
            (base_options source)))
    recover_clone E cnpg core namespace new size certs
        (with_target opts.recovery_target_time configured) opts

  -- CloneClusterFromBackup
  unfoldable pub clone_cluster_from_backup :
      Chars → Chars → Chars → Backup → CloneClusterOptions → Exec E.Error History ClonedCluster
  unfolding clone_steps delete
  clone_cluster_from_backup namespace existing new ready_backup opts h =
      let cloned =
        build E (delete E cm ap cnpg) "failed to cleanup cloned cluster" new_cloned_cluster
          (clone_steps namespace existing new ready_backup opts) in
      if ltb 40 (length new)
      then (err (E.errorf "newClusterName must be 40 characters or less"), h)
      else cloned h
