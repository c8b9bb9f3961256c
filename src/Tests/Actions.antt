-- ===== src/Tests/Actions.antt =====
-- The actions at concrete inputs, on a cluster that always answers.
use backup_tool.Base.{ℕ, ◌≡◌, refl, true, false, none, some, List, [], ◌∷◌, ◌++◌, In, arith}
use backup_tool.Base.Text.{Chars, codes}
use backup_tool.Errors.{Result, ok, err}
use backup_tool.Tests.{numbered}
use backup_tool.Tests.Disaster.{cloning, from_env}
use backup_tool.Cleanup.{CleanupContext}
use backup_tool.Kube.Api.{deleted, backup, pvc}
use backup_tool.Kube.Building.{Building}
use backup_tool.Kube.Certs.{Certificate}
use backup_tool.Kube.Databases.{Cluster, Backup}
use backup_tool.Kube.Clone.{ClonedCluster, new_cloned_cluster}
use backup_tool.Disaster.Apps.{direction_download}
use backup_tool.Actions.{pvc_volume, InstanceOptions, Naming}
use backup_tool.Actions.CnpgBackup.{
  CnpgBackupClients, CnpgBackup, take_base_backup, setup_backup, mount_clone, cleanup_backup,
}
use backup_tool.Actions.CnpgBackup.LifeCycle.{
  IsLawful, Reach, here, next, takes, sets_up, Reach-IsLawful, base_backup-released,
}
use backup_tool.Actions.CnpgBackup.Cloning.{IsCloned, setup-IsCloned}
use backup_tool.Actions.FilesBackup.{
  FilesBackupClients, FilesBackup, ClonedPvc, clone_files, cleanup_files,
}
use backup_tool.Actions.FilesBackup.LifeCycle as FilesLife
use backup_tool.Actions.FilesBackup.LifeCycle.{IsSound, answered, clone_files-pinned}
use backup_tool.Actions.Bucket.{
  S3SyncClients, S3Sync, set_bucket_point, setup_bucket, execute_bucket,
}
use backup_tool.Actions.Bucket.Sides.{Syncs, execute_bucket-Syncs}

abbrev joined : List Chars → Chars
joined [] = []
joined (p ∷ ps) = p ++ codes "/" ++ joined ps

abbrev naming : Naming
naming = record { new_uid = λ h. codes "u1"; join = joined; rfc3339 = λ t. codes "2026" }

abbrev source : Cluster
source = record {
  namespace = codes "wiki";
  name = codes "db";
  image_name = [];
  storage_size = [];
  storage_class = none;
  bootstrap = none;
  plugins = [];
  current_primary = [];
}

abbrev taken : Backup
taken = record { namespace = codes "wiki"; name = codes "b"; elements = [] }

abbrev cert : Certificate
cert = record {
  namespace = codes "wiki";
  name = codes "c";
  spec = record {
    issuer_ref = record { name = []; kind = []; group = [] };
    secret_name = codes "s";
    duration = none;
    private_key = none;
    common_name = [];
    dns_names = [];
    ip_addresses = [];
    uris = [];
    email_addresses = [];
    is_ca = false;
    usages = none;
  };
}

abbrev clone : ClonedCluster
clone = record new_cloned_cluster {
  serving_certificate = some cert;
  postgres_user_certificate = some (record { certificate = some cert; crp = none });
}

abbrev k : CnpgBackupClients ℕ
k = record {
  get_cluster = λ n c h. ok source;
  is_cluster_ready = λ c. true;
  get_pvc = λ n p h. ok tt;
  create_cluster_backup = λ n c opts h. (ok taken, h);
  force_source_wal_archive = λ n c h. (ok tt, h);
  clone_cluster_from_backup = λ n c name base opts h. (ok clone, h);
  delete_clone = λ c h. (some 3, h);
  delete_backup = λ n name h. none;
  dump_all = λ c serving client path h. ok tt;
  naming = naming;
}

-- A validated action.
abbrev ready : Building CnpgBackup
ready = record {
  held = record {
    uid = codes "u1";
    is_configured = true;
    namespace = codes "wiki";
    cluster_name = codes "db";
    dr_vol_name = codes "nightly";
    backup_file_rel_path = codes "db.sql";
    opts = record { cloning_opts = cloning; cleanup_timeout = 0 };
    is_validated = true;
    source_cluster = some source;
    base_backup = none;
    consistency_point = 40;
    is_base_backed_up = false;
    cloned_cluster = none;
    mount_paths = record { dr_volume = []; serving_cert = []; client_cert = [] };
    is_setup = false;
  };
  history = [];
}

ready-IsLawful : IsLawful ready.held
ready-IsLawful = ground arith

abbrev no_volumes : InstanceOptions
no_volumes = record { volumes = [] }

abbrev backed_up : Building CnpgBackup
backed_up = (take_base_backup numbered k ready).1

abbrev set_up : Building CnpgBackup
set_up = (setup_backup numbered k no_volumes backed_up).1

up : Reach numbered k ready set_up
up = next (next here (takes ready)) (sets_up backed_up no_volumes)

is_up : set_up.held.is_setup ≡ true
unfolding take_base_backup setup_backup mount_clone
is_up = refl

has_base : backed_up.held.base_backup ≡ some taken
unfolding take_base_backup
has_base = refl

Reach-IsLawful_example : IsLawful set_up.held
Reach-IsLawful_example = Reach-IsLawful numbered k ready-IsLawful up

abbrev ctx : CleanupContext
ctx = record { log_prefix = []; timeout = 1 }

backed_up-IsLawful : IsLawful backed_up.held
backed_up-IsLawful = Reach-IsLawful numbered k ready-IsLawful (next here (takes ready))

base_backed_up : take_base_backup numbered k ready ≡ (ok 0, backed_up)
unfolding take_base_backup
base_backed_up = refl

base_backup-released_example :
    (base : Backup) × ((k.create_cluster_backup (codes "wiki") (codes "db") cloning []).0 ≡ ok base)
    × In
        (deleted (record { kind = backup; namespace = codes "wiki"; name = base.name }))
        (cleanup_backup numbered k ctx set_up).1.history
base_backup-released_example =
    base_backup-released numbered k ready 0 ctx ready-IsLawful base_backed_up
      (next here (sets_up backed_up no_volumes))

abbrev given : Result ℕ InstanceOptions → InstanceOptions
given (ok opts) = opts
given (err _) = no_volumes

clone_set_up :
    setup_backup numbered k no_volumes backed_up
    ≡ (ok (given (setup_backup numbered k no_volumes backed_up).0), set_up)
unfolding take_base_backup setup_backup mount_clone
clone_set_up = refl

setup-IsCloned_example :
    IsCloned numbered k no_volumes
      (given (setup_backup numbered k no_volumes backed_up).0)
      backed_up
      set_up
setup-IsCloned_example =
    setup-IsCloned numbered k no_volumes (given (setup_backup numbered k no_volumes backed_up).0)
      backed_up set_up clone_set_up

abbrev frozen : ClonedPvc
frozen = record { name = codes "media-1"; creation_timestamp = 40 }

abbrev volumes : FilesBackupClients ℕ
volumes = record {
  get_pvc = λ n p h. ok tt;
  clone_pvc = λ n p opts h. (ok frozen, h);
  delete_pvc = λ n p h. none;
  sync_files = λ from to filter h. ok tt;
  naming = naming;
}

abbrev directory : Building FilesBackup
directory = record {
  held = record {
    uid = codes "u1";
    is_configured = true;
    namespace = codes "wiki";
    source_pvc_name = codes "media";
    dr_vol_name = codes "nightly";
    backup_dir_rel_path = codes "media";
    opts = record {
      snapshot_class = [];
      filter = record { include = []; exclude = [] };
      cleanup_timeout = 0;
    };
    is_validated = true;
    cloned_pvc = none;
    is_cloned = false;
    dr_volume_mount = [];
    data_mount = [];
    is_setup = false;
  };
  history = [];
}

directory-IsSound : IsSound directory.held
directory-IsSound = ground arith

froze : clone_files numbered volumes directory ≡ (ok 40, (clone_files numbered volumes directory).1)
unfolding clone_files
froze = refl

clone_files-pinned_example :
    (cloned : ClonedPvc) × (answered numbered volumes directory.held [] ≡ ok cloned)
    × (◌≡◌ {A = ℕ} 40 cloned.creation_timestamp)
    × In
        (deleted (record { kind = pvc; namespace = codes "wiki"; name = cloned.name }))
        (cleanup_files numbered volumes ctx (clone_files numbered volumes directory).1).1.history
clone_files-pinned_example =
    clone_files-pinned numbered volumes directory 40 ctx directory-IsSound froze
      FilesLife.Reach.here

abbrev buckets : S3SyncClients ℕ
buckets = record {
  get_pvc = λ n p h. ok tt;
  s3_sync = λ credentials from to at h. ok tt;
  naming = naming;
}

abbrev bucket : Building S3Sync
bucket = record {
  held = record {
    uid = codes "u1";
    is_configured = true;
    namespace = codes "wiki";
    dr_vol_name = codes "nightly";
    backup_dir_rel_path = codes "media";
    s3_path = codes "s3://wiki/media";
    credentials = from_env;
    direction = direction_download;
    consistency_point = 0;
    is_validated = true;
    dr_volume_mount = [];
    is_setup = false;
  };
  history = [];
}

abbrev bucket_up : Building S3Sync
bucket_up = (setup_bucket numbered buckets no_volumes (set_bucket_point 40 bucket)).1

abbrev bucket_volumes : InstanceOptions
bucket_volumes = given (setup_bucket numbered buckets no_volumes (set_bucket_point 40 bucket)).0

bucket_set_up :
    setup_bucket numbered buckets no_volumes (set_bucket_point 40 bucket)
    ≡ (ok bucket_volumes, bucket_up)
unfolding setup_bucket set_bucket_point
bucket_set_up = refl

bucket_synced :
    execute_bucket numbered buckets bucket_up
    ≡ (ok tt, (execute_bucket numbered buckets bucket_up).1)
unfolding setup_bucket set_bucket_point execute_bucket
bucket_synced = refl

execute_bucket-Syncs_example :
    Syncs numbered buckets bucket.held bucket_up.held.dr_volume_mount 40 bucket_up.history
      (execute_bucket numbered buckets bucket_up).1.history
    × In (pvc_volume (codes "nightly") bucket_up.held.dr_volume_mount) bucket_volumes.volumes
execute_bucket-Syncs_example =
    execute_bucket-Syncs numbered buckets no_volumes bucket_volumes 40 bucket bucket_up
      (execute_bucket numbered buckets bucket_up).1 bucket_set_up bucket_synced
