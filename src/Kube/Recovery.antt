-- ===== src/Kube/Recovery.antt =====
-- Where a cloned cluster recovers from: the parts of
-- pkg/kubecluster/composite/clonedcluster/clonedcluster.go that only read.
pub mod Archiver
pub mod Configured
use backup_tool.Base.{
  ℕ, Bool, true, false, Option, none, some, List, [], ◌∷◌, ◌++◌, if◌then◌else◌, ◌==◌, list_eq,
}
use backup_tool.Base.Text.{Chars, codes}
use backup_tool.Errors.{Errors, Result, ok, err}
use backup_tool.Exec.{Exec, wrapping, pure, raise, lift, ◌>>=◌}
use backup_tool.Kube.Api.{History, cluster, asking}
use backup_tool.Kube.Databases.{
  PluginConfiguration, Cluster, ElementType, pg_data, pg_wal, other, SnapshotElement, Backup,
  VolumeSnapshotRecovery, CreateClusterOptions, BarmanCloud,
}

abbrev pub is_true : Option Bool → Bool
is_true none = false
is_true (some b) = b

-- The loop of findBarmanCloudWALArchiver, with `barmanCloudPlugin` in `fallback`.
unfoldable pub find_archiver_from :
    Chars → List PluginConfiguration → Option PluginConfiguration → Option PluginConfiguration
find_archiver_from barman [] fallback = fallback
find_archiver_from barman (plugin ∷ plugins) fallback =
    let next = find_archiver_from barman plugins (
      if plugin.name == barman
      then (elim fallback [ none ↦ some plugin | some p ↦ some p ])
      else fallback) in
    if plugin.name == barman
    then (if is_true plugin.is_wal_archiver then some plugin else next)
    else next

-- findBarmanCloudWALArchiver
unfoldable pub find_barman_cloud_wal_archiver : Chars → Cluster → Option PluginConfiguration
unfolding find_archiver_from
find_barman_cloud_wal_archiver barman c = find_archiver_from barman c.plugins none

-- The loop of getBackupSnapshotNames, on the two names found so far.
snapshot_names_from : List SnapshotElement → Chars → Chars → Chars × Chars
snapshot_names_from [] data_name wal_name = (data_name, wal_name)
snapshot_names_from (e ∷ es) data_name wal_name = elim e.kind [
  | pg_data ↦ snapshot_names_from es e.name wal_name
  | pg_wal ↦ snapshot_names_from es data_name e.name
  | other _ ↦ snapshot_names_from es data_name wal_name
]

-- getBackupSnapshotNames
unfoldable pub get_backup_snapshot_names : Backup → Chars × Chars
unfolding snapshot_names_from
get_backup_snapshot_names b = snapshot_names_from b.elements [] []

-- The names below one endpoint of getClusterDomainNames.
domain_names_from : Chars → Chars → List Chars → List Chars
domain_names_from subdomain parent [] = []
domain_names_from subdomain parent (component ∷ components) =
    (subdomain ++ parent ++ component)
    ∷ domain_names_from subdomain (parent ++ component) components

endpoint_names : Chars → Chars → List Chars → List Chars
unfolding domain_names_from
endpoint_names cluster_name namespace [] = []
endpoint_names cluster_name namespace (endpoint ∷ endpoints) =
    domain_names_from (cluster_name ++ codes "-" ++ endpoint) []
      ([] ∷ (codes "." ++ namespace) ∷ codes ".svc" ∷ [])
    ++ endpoint_names cluster_name namespace endpoints

-- getClusterDomainNames
unfoldable pub get_cluster_domain_names : Chars → Chars → List Chars
unfolding endpoint_names
get_cluster_domain_names cluster_name namespace =
    endpoint_names cluster_name namespace (codes "r" ∷ codes "ro" ∷ codes "rw" ∷ [])

module _ (E : Errors) (bc : BarmanCloud E.Error) where
  -- resolveBarmanServerName
  unfoldable pub resolve_barman_server_name :
      Chars → Chars → PluginConfiguration → Chars → Exec E.Error History Chars
  resolve_barman_server_name namespace cluster_name plugin object_store_name h =
      let asked : Exec E.Error History Chars = do
        configured ←
            wrapping E "failed to get barman-cloud object store"
              (asking cluster object_store_name (bc.get_object_store namespace object_store_name))
        pure (if configured == [] then cluster_name else configured)
      in if plugin.server_name == [] then asked h else (ok plugin.server_name, h)

  -- configureWALRecovery, once the plugin and its object store are found
  unfoldable pub recovery_from :
      Chars
      → Cluster
      → PluginConfiguration
      → Backup
      → CreateClusterOptions
      → Exec E.Error History CreateClusterOptions
  unfolding resolve_barman_server_name
  recovery_from namespace source plugin b opts = do
    server_name ←
        wrapping E "failed to resolve barman server name"
          (resolve_barman_server_name namespace source.name plugin plugin.barman_object_name)
    let (data_name, wal_name) = get_backup_snapshot_names b
    let configured : CreateClusterOptions = record opts {
      volume_snapshot_recovery = some (record {
        data_snapshot_name = data_name;
        wal_snapshot_name = wal_name;
        source_name = server_name;
        source_object_store = plugin.barman_object_name;
        source_server_name = server_name;
        recovery_target_time = [];
      });
    }
    lift (
        if data_name == []
        then err (E.errorf "backup did not report a PG_DATA volume snapshot to recover from")
        else ok configured)

  -- configureWALRecovery
  unfoldable pub configure_wal_recovery :
      Chars
      → Chars
      → Cluster
      → Backup
      → CreateClusterOptions
      → Exec E.Error History CreateClusterOptions
  unfolding recovery_from
  configure_wal_recovery barman namespace source b opts =
      elim (find_barman_cloud_wal_archiver barman source) [
        | none ↦ raise (E.errorf "source cluster does not archive WAL via the barman-cloud plugin")
        | some plugin ↦
            if plugin.barman_object_name == []
            then raise (E.errorf "barman-cloud plugin is missing the barmanObjectName parameter")
            else recovery_from namespace source plugin b opts
      ]
