-- ===== src/Kube/Databases.antt =====
-- The data of CNPG clusters and backups, and the clients of pkg/kubecluster/primatives/cnpg, core and
-- barmancloud as far as the cloning of a cluster calls them.
use backup_tool.Base.{ℕ, Bool, Option, List}
use backup_tool.Base.Text.{Chars}
use backup_tool.Errors.{Result}
use backup_tool.Kube.Api.{History, Resource, cluster, backup}

-- apiv1.PluginConfiguration, with the two parameters that are read; a missing one is empty
pub record PluginConfiguration : Type 0 where
  pub name : Chars
  pub is_wal_archiver : Option Bool
  pub barman_object_name : Chars
  pub server_name : Chars

-- The database and the owner of one way to bootstrap.
abbrev pub Bootstrap : Type 0
Bootstrap = Chars × Chars

-- apiv1.Cluster
pub record Cluster : Type 0 where
  pub namespace : Chars
  pub name : Chars
  pub image_name : Chars
  pub storage_size : Chars
  pub storage_class : Option Chars
  -- Spec.Bootstrap, with InitDB, PgBaseBackup and Recovery
  pub bootstrap : Option (Option Bootstrap × Option Bootstrap × Option Bootstrap)
  pub plugins : List PluginConfiguration
  pub current_primary : Chars

-- BackupSnapshotElementStatus; `pg_data` and `pg_wal` are the types that are looked for
pub data ElementType : Type 0 where
  pg_data pg_wal : ElementType
  other : Chars → ElementType

pub record SnapshotElement : Type 0 where
  pub kind : ElementType
  pub name : Chars

-- apiv1.Backup
pub record Backup : Type 0 where
  pub namespace : Chars
  pub name : Chars
  pub elements : List SnapshotElement

-- cnpg.VolumeSnapshotRecovery, with the external cluster that WAL is fetched from
pub record VolumeSnapshotRecovery : Type 0 where
  pub data_snapshot_name : Chars
  pub wal_snapshot_name : Chars
  pub source_name : Chars
  pub source_object_store : Chars
  pub source_server_name : Chars
  pub recovery_target_time : Chars

-- cnpg.CreateClusterOptions
pub record CreateClusterOptions : Type 0 where
  pub image_name : Chars
  pub storage_class : Chars
  pub database_name : Chars
  pub owner_name : Chars
  pub volume_snapshot_recovery : Option VolumeSnapshotRecovery

abbrev pub cluster_id : Cluster → Resource
cluster_id c = record { kind = cluster; namespace = c.namespace; name = c.name }

abbrev pub backup_id : Backup → Resource
backup_id b = record { kind = backup; namespace = b.namespace; name = b.name }

module _ (X : Type 0) where
  pub record Cnpg : Type 0 where
    -- namespace, name prefix, cluster
    pub create_backup : Chars → Chars → Chars → History → Result X Backup
    pub wait_for_ready_backup : Chars → Chars → ℕ → History → Result X Backup
    pub delete_backup : Chars → Chars → History → Option X
    pub get_cluster : Chars → Chars → History → Result X Cluster
    -- namespace, name, volume size, serving, client CA and replication certificates
    pub create_cluster :
        Chars
        → Chars
        → ℕ
        → Chars
        → Chars
        → Chars
        → CreateClusterOptions
        → History
        → Result X Cluster
    pub wait_for_ready_cluster : Chars → Chars → ℕ → History → Result X Cluster
    pub delete_cluster : Chars → Chars → History → Option X
    pub wait_for_cluster_deleted : Chars → Chars → ℕ → History → Option X
    -- BarmanCloudPluginName
    pub barman_plugin_name : Chars

  -- The core client's wait for a job that a label selects, and resource.ParseQuantity.
  pub record Core : Type 0 where
    pub wait_for_job_completion : Chars → Chars → ℕ → History → Result X (Unit {0})
    -- ErrJobFailed
    pub job_failed : X
    pub parse_quantity : Chars → Result X ℕ

  -- The server name of an object store, empty if it has none.
  pub record BarmanCloud : Type 0 where
    pub get_object_store : Chars → Chars → History → Result X Chars
