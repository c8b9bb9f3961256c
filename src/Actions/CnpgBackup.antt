-- ===== src/Actions/CnpgBackup.antt =====
-- pkg/disasterrecovery/actions/remote/cnpg/backup/cnpgbackup.go: the capture of a database cluster.
-- The composite operations on the cluster are an interface; those of Kube.Clone have its types.
pub mod LifeCycle
pub mod Cloning
use backup_tool.Base.{
  ℕ, ◌*◌, Bool, true, false, not, Option, none, some, List, [], ◌∷◌, ◌++◌, if◌then◌else◌, ◌==◌,
  nat_eq,
}
use backup_tool.Base.Text.{Chars, codes}
use backup_tool.Errors.{Errors, Result, ok, err, wrap, new_aggregate}
use backup_tool.Exec.{Exec, wrapping, pure, gets, ◌>>=◌, ◌>>◌}
use backup_tool.Helpers.{minute, max_wait, truncate_string, clean_name}
use backup_tool.Cleanup.{CleanupContext, run_error}
use backup_tool.Kube.Api.{History, Resource, deleted, backup, cluster, pod, pvc, asking}
use backup_tool.Kube.Building.{Building, calling, hold}
use backup_tool.Kube.Certs.{Certificate}
use backup_tool.Kube.Databases.{Cluster, Backup, backup_id}
use backup_tool.Kube.UserCert.{ClusterUserCert}
use backup_tool.Kube.Clone.{ClonedCluster, CloneClusterOptions}
use backup_tool.Disaster.Apps.{CnpgBackupOptions}
use backup_tool.Actions.{
  Volume, pvc_volume, secret_volume, InstanceOptions, mounting, Naming, require, follow, fields,
  release_held,
}

-- What the action calls.
pub record CnpgBackupClients (X : Type 0) : Type 0 where
  pub get_cluster : Chars → Chars → History → Result X Cluster
  -- cnpg.IsClusterReady
  pub is_cluster_ready : Cluster → Bool
  pub get_pvc : Chars → Chars → History → Result X (Unit {0})
  -- namespace, cluster, options
  pub create_cluster_backup : Chars → Chars → CloneClusterOptions → Exec X History Backup
  -- ForceSourceWALArchive
  pub force_source_wal_archive : Chars → Chars → Exec X History (Unit {0})
  -- namespace, cluster, name of the clone, backup, options
  pub clone_cluster_from_backup :
      Chars → Chars → Chars → Backup → CloneClusterOptions → Exec X History ClonedCluster
  pub delete_clone : ClonedCluster → History → Option X × History
  pub delete_backup : Chars → Chars → History → Option X
  -- DumpAll of the tool's client: the clone whose credentials are used, the mounts of its serving
  -- and client certificates, the file
  pub dump_all : ClonedCluster → Chars → Chars → Chars → History → Result X (Unit {0})
  pub naming : Naming

-- setupStateMountPaths
pub record MountPaths : Type 0 where
  pub dr_volume : Chars
  pub serving_cert : Chars
  pub client_cert : Chars

-- CNPGBackup, with the states that it embeds
pub record CnpgBackup : Type 0 where
  pub uid : Chars
  pub is_configured : Bool
  pub namespace : Chars
  pub cluster_name : Chars
  pub dr_vol_name : Chars
  pub backup_file_rel_path : Chars
  pub opts : CnpgBackupOptions
  pub is_validated : Bool
  pub source_cluster : Option Cluster
  pub base_backup : Option Backup
  pub consistency_point : ℕ
  pub is_base_backed_up : Bool
  pub cloned_cluster : Option ClonedCluster
  pub mount_paths : MountPaths
  pub is_setup : Bool

-- The name of the clone, fmt.Sprintf("%s-%s-cloned-%s", constants.ToolShortName, ...) cut to 40.
unfoldable pub cloned_cluster_name : Chars → Chars → Chars
unfolding truncate_string clean_name
cloned_cluster_name uid cluster_name =
    clean_name (truncate_string (codes "bt-" ++ (uid ++ (codes "-cloned-" ++ cluster_name))) 40 [])

-- The options of the clone: it recovers forward to the consistency point, if there is one.
unfoldable pub with_point : Naming → ℕ → CloneClusterOptions → CloneClusterOptions
with_point naming point opts =
    if point == 0 then opts else record opts { recovery_target_time = naming.rfc3339 point }

-- The options with a cleanup timeout for the clone, which is that of the action by default.
unfoldable pub with_cleanup_timeout : CnpgBackupOptions → CnpgBackupOptions
with_cleanup_timeout opts =
    if opts.cloning_opts.cleanup_timeout == 0
    then record opts {
      cloning_opts = record opts.cloning_opts { cleanup_timeout = opts.cleanup_timeout };
    }
    else opts

-- SetConsistencyPoint
unfoldable pub set_backup_point : ℕ → Building CnpgBackup → Building CnpgBackup
set_backup_point point b = record b { held = record b.held { consistency_point = point } }

module _ (E : Errors) (k : CnpgBackupClients E.Error) where
  abbrev pub Method : Type 0 → Type 0
  Method = Exec E.Error (Building CnpgBackup)

  -- Configure
  unfoldable pub configure_backup :
      Chars → Chars → Chars → Chars → CnpgBackupOptions → Method (Unit {0})
  configure_backup namespace cluster_name dr_vol_name backup_file_rel_path opts = do
    s ← fields
    require E (not s.is_configured) "attempted to configure multiple times"
    uid ← gets (λ b. k.naming.new_uid b.history)
    hold (λ s. record s {
      uid = uid;
      namespace = namespace;
      cluster_name = cluster_name;
      dr_vol_name = dr_vol_name;
      backup_file_rel_path = backup_file_rel_path;
      opts = opts;
      is_configured = true;
    })

  -- Validate
  unfoldable pub validate_backup : Method (Unit {0})
  validate_backup = do
    s ← fields
    require E s.is_configured "attempted to validate without configuring"
    source ←
        wrapping E "failed to get CNPG cluster"
          (calling (asking cluster s.cluster_name (k.get_cluster s.namespace s.cluster_name)))
    require E (k.is_cluster_ready source) "CNPG cluster is not ready"
    hold (λ s. record s { source_cluster = some source })
    wrapping E "failed to get DR PVC"
        (calling (asking pvc s.dr_vol_name (k.get_pvc s.namespace s.dr_vol_name)))
    hold (λ s. record s { is_validated = true })

  -- BeforeConsistencyPoint, which pins no instant
  unfoldable pub take_base_backup : Method ℕ
  unfolding with_cleanup_timeout
  take_base_backup = do
    s ← fields
    require E s.is_validated "attempted to create base backup without validating"
    require E (not s.is_base_backed_up) "attempted to create base backup multiple times"
    let opts = with_cleanup_timeout s.opts
    hold (λ s. record s { opts = opts })
    taken ←
        wrapping E "failed to back up cluster"
          (calling (k.create_cluster_backup s.namespace s.cluster_name opts.cloning_opts))
    hold (λ s. record s { base_backup = some taken; is_base_backed_up = true })
    pure 0

  -- The mounts of Setup, below one directory of the action.
  unfoldable pub backup_mounts : Chars → Chars → MountPaths
  backup_mounts cluster_name uid =
      let base = k.naming.join (codes "/mnt" ∷ codes "cnpgbackup" ∷ cluster_name ∷ uid ∷ []) in
      let secrets = k.naming.join (base ∷ codes "secrets" ∷ []) in
      record {
        dr_volume = k.naming.join (base ∷ codes "dr" ∷ []);
        serving_cert = k.naming.join (secrets ∷ codes "serving-cert" ∷ []);
        client_cert = k.naming.join (secrets ∷ codes "client-cert" ∷ []);
      }

  -- The part of Setup that mounts what the dump needs.
  unfoldable pub mount_clone : InstanceOptions → ClonedCluster → Method InstanceOptions
  unfolding backup_mounts
  mount_clone bti_opts clone = do
    s ← fields
    let paths = backup_mounts s.cluster_name s.uid
    hold (λ s. record s { mount_paths = paths })
    serving ← follow E clone.serving_certificate
    user ← follow E clone.postgres_user_certificate
    client ← follow E user.certificate
    hold (λ s. record s { is_setup = true })
    pure (
        mounting
          (pvc_volume s.dr_vol_name paths.dr_volume
            ∷ secret_volume serving.spec.secret_name paths.serving_cert (codes "tls.crt" ∷ [])
            ∷ secret_volume client.spec.secret_name paths.client_cert []
            ∷ [])
          bti_opts)

  -- Setup
  unfoldable pub setup_backup : InstanceOptions → Method InstanceOptions
  unfolding cloned_cluster_name with_point
  setup_backup bti_opts = do
    s ← fields
    require E s.is_base_backed_up "attempted to setup without creating a base backup"
    require E (not s.is_setup) "attempted to setup multiple times"
    wrapping E "failed to force source WAL archive"
        (calling (k.force_source_wal_archive s.namespace s.cluster_name))
    base ← follow E s.base_backup
    clone ← wrapping E "failed to clone cluster" (
        calling (
          k.clone_cluster_from_backup s.namespace s.cluster_name
            (cloned_cluster_name s.uid s.cluster_name) base
            (with_point k.naming s.consistency_point s.opts.cloning_opts)))
    hold (λ s. record s { cloned_cluster = some clone })
    mount_clone bti_opts clone

  -- Cleanup
  unfoldable pub cleanup_backup :
      CleanupContext → Building CnpgBackup → Option E.Error × Building CnpgBackup
  unfolding max_wait run_error
  cleanup_backup ctx b =
      let s = b.held in
      let (e₁, h₁) =
        release_held E ctx "failed to cleanup cloned cluster resources"
          (max_wait (10 * minute) s.opts.cleanup_timeout) k.delete_clone s.cloned_cluster
          b.history in
      let (e₂, h₂) =
        release_held E ctx "failed to cleanup base backup" (max_wait minute s.opts.cleanup_timeout)
          (λ (base : Backup) (h : History). (
            k.delete_backup s.namespace base.name h,
            deleted (record { kind = backup; namespace = s.namespace; name = base.name }) ∷ h,
          ))
          s.base_backup h₁ in
      (
        wrap E (new_aggregate E (e₁ ∷ e₂ ∷ [])) "failed to cleanup CNPG backup resources",
        record b { history = h₂ },
      )

  -- Execute
  unfoldable pub execute_backup : Method (Unit {0})
  execute_backup = do
    s ← fields
    require E s.is_setup "attempted to execute without setting up"
    let path = k.naming.join (s.mount_paths.dr_volume ∷ s.backup_file_rel_path ∷ [])
    clone ← follow E s.cloned_cluster
    wrapping E "failed to create logical backup for postgres server" (
        calling (
          asking pod path
            (k.dump_all clone s.mount_paths.serving_cert s.mount_paths.client_cert path)))
