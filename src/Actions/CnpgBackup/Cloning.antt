-- ===== src/Actions/CnpgBackup/Cloning.antt =====
-- The clone that the capture of a database cluster asks for (cnpgbackup.go, with
-- pkg/kubecluster/composite/clonedcluster/clonedcluster.go).
use backup_tool.Base.{
  ℕ, ◌≡◌, ◌≢◌, ◌≤◌, ◌∷◌, ap, true, false, Option-cases, inl, inr, some, [], ◌++◌, arith, length,
  ltb, nat_eq,
}
use backup_tool.Base.Text.{Chars, codes}
use backup_tool.Errors.{Errors, ok, Result-cases}
use backup_tool.Helpers.{truncate_string, clean_name}
use backup_tool.Helpers.Names.{length-truncate, length-clean_name}
use backup_tool.Kube.Api.{History}
use backup_tool.Kube.Building.{Building, build}
use backup_tool.Kube.Certs.{CertManager, ApproverPolicy, Certificate}
use backup_tool.Kube.UserCert.{ClusterUserCert}
use backup_tool.Kube.Databases.{Backup, Cnpg, Core, BarmanCloud}
use backup_tool.Kube.Clone.{ClonedCluster, CloneClusterOptions, new_cloned_cluster}
use backup_tool.Kube.Clone.Create.{clone_steps, clone_cluster_from_backup}
use backup_tool.Kube.Clone.Delete.{delete}
use backup_tool.Actions.{InstanceOptions, pvc_volume, secret_volume}
use backup_tool.Actions.CnpgBackup.{
  CnpgBackupClients, CnpgBackup, MountPaths, cloned_cluster_name, with_point, mount_clone,
  setup_backup,
}

-- The name of a clone has at most 40 characters, whatever the name of its cluster.
pub length-cloned_name :
    (uid cluster_name : Chars) → length (cloned_cluster_name uid cluster_name) ≤ 40
unfolding cloned_cluster_name
length-cloned_name uid cluster_name =
    let full = codes "bt-" ++ (uid ++ (codes "-cloned-" ++ cluster_name)) in
    omega (arith, length-clean_name (truncate_string full 40 []), length-truncate full 40 [])

-- The DR volume and the secrets of the clone's certificates are added to what is mounted, of the
-- serving certificate without its key.
pub record Mounted (opts opts' : InstanceOptions) (clone : ClonedCluster) (dr_vol_name : Chars)
    (paths : MountPaths) : Type 0 where
  pub serving : Certificate
  pub user : ClusterUserCert
  pub client : Certificate
  pub of_serving : clone.serving_certificate ≡ some serving
  pub of_user : clone.postgres_user_certificate ≡ some user
  pub of_client : user.certificate ≡ some client
  pub of_volumes :
      opts'.volumes
      ≡ opts.volumes
        ++ pvc_volume dr_vol_name paths.dr_volume
          ∷ secret_volume serving.spec.secret_name paths.serving_cert (codes "tls.crt" ∷ [])
          ∷ secret_volume client.spec.secret_name paths.client_cert []
          ∷ []

module _ (E : Errors) (k : CnpgBackupClients E.Error) where
  -- What a successful set-up has done: the WAL of the source was archived, then the held base backup
  -- was cloned, to recover to the consistency point if there is one, under a name of at most 40
  -- characters; the clone is held, and its certificates are mounted beside the DR volume.
  pub record IsCloned (opts opts' : InstanceOptions) (b b' : Building CnpgBackup) : Type 0 where
    pub base : Backup
    pub clone : ClonedCluster
    pub options : CloneClusterOptions
    pub archived : History
    pub cloned : History
    pub of_base : b.held.base_backup ≡ some base
    pub of_archive :
        k.force_source_wal_archive b.held.namespace b.held.cluster_name b.history
        ≡ (ok tt, archived)
    pub of_clone :
        k.clone_cluster_from_backup b.held.namespace b.held.cluster_name
          (clean_name (
            truncate_string
              (codes "bt-" ++ (b.held.uid ++ (codes "-cloned-" ++ b.held.cluster_name)))
              40
              []))
          base
          options
          archived
        ≡ (ok clone, cloned)
    pub to_the_point :
        b.held.consistency_point ≢ 0
        → options ≡ record b.held.opts.cloning_opts {
          recovery_target_time = k.naming.rfc3339 b.held.consistency_point;
        }
    pub without_point : b.held.consistency_point ≡ 0 → options ≡ b.held.opts.cloning_opts
    pub mounted : Mounted opts opts' clone b.held.dr_vol_name b'.held.mount_paths
    pub is_held : b'.held.cloned_cluster ≡ some clone
    pub is_set_up : b'.held.is_setup ≡ true
    pub named : length (cloned_cluster_name b.held.uid b.held.cluster_name) ≤ 40

  mounts :
      (opts opts' : InstanceOptions) (clone : ClonedCluster) (b b' : Building CnpgBackup)
      → mount_clone E k opts clone b ≡ (ok opts', b')
      → (b'.held.cloned_cluster ≡ b.held.cloned_cluster)
        × (b'.held.is_setup ≡ true)
        × Mounted opts opts' clone b.held.dr_vol_name b'.held.mount_paths
  unfolding mount_clone
  mounts opts opts' clone b b' h = elim (Option-cases clone.serving_certificate) [
    | inl absent ↦ absurd (ground (arith, absent, h))
    | inr (serving, e₁) ↦ elim (Option-cases clone.postgres_user_certificate) [
      | inl absent ↦ absurd (ground (arith, e₁, absent, h))
      | inr (user, e₂) ↦ elim (Option-cases user.certificate) [
        | inl absent ↦ absurd (ground (arith, e₁, e₂, absent, h))
        | inr (client, e₃) ↦ (
          ground (arith, e₁, e₂, e₃, h),
          ground (arith, e₁, e₂, e₃, h),
          record {
            serving = serving;
            user = user;
            client = client;
            of_serving = e₁;
            of_user = e₂;
            of_client = e₃;
            of_volumes = ground (arith, e₁, e₂, e₃, h);
          },
        )
      ]
    ]
  ]

  pointed :
      (point : ℕ) (opts : CloneClusterOptions)
      → ((point ≢ 0)
          → with_point k.naming point opts
            ≡ record opts { recovery_target_time = k.naming.rfc3339 point })
        × (point ≡ 0 → with_point k.naming point opts ≡ opts)
  unfolding with_point
  pointed point opts = (λ ne. ground (arith, ne), λ e. ground (arith, e))

  -- A set-up that succeeds has archived the WAL and then cloned the held base backup, and holds the
  -- clone, whose certificates are mounted beside the DR volume. The clone is to recover to the
  -- consistency point, if there is one, with the configured options otherwise, and its name has at most
  -- 40 characters.
  pub setup-IsCloned :
      (opts opts' : InstanceOptions) (b b' : Building CnpgBackup)
      → setup_backup E k opts b ≡ (ok opts', b')
      → IsCloned opts opts' b b'
  unfolding setup_backup cloned_cluster_name
  setup-IsCloned opts opts' b b' h =
      let s = b.held in
      let archive = k.force_source_wal_archive s.namespace s.cluster_name b.history in
      elim (Result-cases archive.0) [
        | inr (x, failed) ↦ absurd (ground (arith, failed, h))
        | inl (u, done) ↦ elim (Option-cases s.base_backup) [
          | inl absent ↦ absurd (ground (arith, done, absent, h))
          | inr (base, has) ↦
              let cloning =
                k.clone_cluster_from_backup s.namespace s.cluster_name
                  (cloned_cluster_name s.uid s.cluster_name) base
                  (with_point k.naming s.consistency_point s.opts.cloning_opts) archive.1 in
              elim (Result-cases cloning.0) [
                | inr (x, failed) ↦ absurd (ground (arith, done, has, failed, h))
                | inl (clone, made) ↦
                    let held : Building CnpgBackup = record {
                      held = record s { cloned_cluster = some clone };
                      history = cloning.1;
                    } in
                    let mounted =
                      mounts opts opts' clone held b' (ground (arith, done, has, made, h)) in
                    record {
                      base = base;
                      clone = clone;
                      options = with_point k.naming s.consistency_point s.opts.cloning_opts;
                      archived = archive.1;
                      cloned = cloning.1;
                      of_base = has;
                      of_archive = ap (λ r. (r, archive.1)) done;
                      of_clone = ap (λ r. (r, cloning.1)) made;
                      is_held = mounted.0;
                      is_set_up = mounted.1;
                      to_the_point = (pointed s.consistency_point s.opts.cloning_opts).0;
                      without_point = (pointed s.consistency_point s.opts.cloning_opts).1;
                      mounted = mounted.2;
                      named = length-cloned_name s.uid s.cluster_name;
                    }
              ]
        ]
      ]

-- The guard of CloneClusterFromBackup against long names never decides on the name that the action
-- gives: a clone is always tried.
pub clone-not_refused :
    (E : Errors) (cm : CertManager E.Error) (approver : ApproverPolicy E.Error)
    (cnpg : Cnpg E.Error) (core : Core E.Error) (bc : BarmanCloud E.Error)
    (namespace cluster_name uid : Chars) (base : Backup) (opts : CloneClusterOptions) (h : History)
    → clone_cluster_from_backup E cm approver cnpg core bc namespace cluster_name
        (cloned_cluster_name uid cluster_name)
        base
        opts
        h
      ≡ build E
          (delete E cm approver cnpg)
          "failed to cleanup cloned cluster"
          new_cloned_cluster
          (clone_steps E cm approver cnpg core bc namespace cluster_name
            (cloned_cluster_name uid cluster_name)
            base
            opts)
          h
unfolding clone_cluster_from_backup clone_steps
clone-not_refused E cm approver cnpg core bc namespace cluster_name uid base opts h =
    let short = length-cloned_name uid cluster_name in
    let test : ltb 40 (length (cloned_cluster_name uid cluster_name)) ≡ false =
      ground (arith, short) in
    rw (test, clone_cluster_from_backup)
