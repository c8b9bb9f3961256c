-- ===== src/Tests/Recovery.antt =====
-- The recovery of a clone from a backup with a data snapshot, at a concrete input.
use backup_tool.Base.{none, some, [], ◌∷◌}
use backup_tool.Base.Text.{codes}
use backup_tool.Errors.{ok}
use backup_tool.Tests.{numbered}
use backup_tool.Kube.Databases.{Backup, pg_data, pg_wal, CreateClusterOptions, BarmanCloud}

abbrev stores : BarmanCloud numbered.Error
stores = record { get_object_store = λ _ _ _. ok (codes "srv") }

abbrev snapshots : Backup
snapshots = record {
  namespace = codes "db";
  name = codes "b";
  elements =
      record { kind = pg_wal; name = codes "w1" }
      ∷ record { kind = pg_data; name = codes "d1" }
      ∷ [];
}

abbrev plain : CreateClusterOptions
plain = record {
  image_name = codes "postgres";
  storage_class = [];
  database_name = codes "app";
  owner_name = codes "app";
  volume_snapshot_recovery = none;
}

abbrev recovering : CreateClusterOptions
recovering = record plain {
  volume_snapshot_recovery = some (record {
    data_snapshot_name = codes "d1";
    wal_snapshot_name = codes "w1";
    source_name = codes "srv";
    source_object_store = codes "store2";
    source_server_name = codes "srv";
    recovery_target_time = [];
  });
}
