-- ===== src/Tests/Disaster.antt =====
-- Configurations of a backup and of a restore.
use backup_tool.Base.{ℕ, ◌≡◌, ◌↔◌, refl, false, none, some, [], ◌∷◌, map, list_eq, list_beq, Option}
use backup_tool.Base.Text.{codes}
use backup_tool.Base.Distinct.{Distinct, Apart}
use backup_tool.Errors.{ok}
use backup_tool.Tests.{numbered}
use backup_tool.Tests.Filters.{suffixes, databases_only}
use backup_tool.Filters.{validate_file_filter}
use backup_tool.Kube.UserCert.{NewClusterUserCertOpts}
use backup_tool.Kube.Clone.{CloneClusterOptions}
use backup_tool.DrVolumes.{DrVolumeCreateOptions, Pvc, VolumeClients, new_dr_volume}
use backup_tool.DrVolumes.Sizes.{IsMade, new_dr_volume-IsMade}
use backup_tool.Disaster.Config.{
  Credentials, GenericS3Source, GenericBackupConfig, GenericRestoreConfig,
}
use backup_tool.Disaster.Validation.{validate_backup_config}
use backup_tool.Disaster.Validation.Accepted.{IsBackupConfig, validate_backup_config_iff}
use backup_tool.Disaster.Destinations.{backup_destinations, destinations-Distinct}

abbrev pub no_wait : NewClusterUserCertOpts
no_wait = record { wait_for_crp_timeout = 0; wait_for_cert_timeout = 0 }

abbrev pub cloning : CloneClusterOptions
cloning = record {
  wait_for_backup_timeout = 0;
  wait_for_self_signed_issuer_timeout = 0;
  serving_cert = no_wait;
  client_ca_cert = no_wait;
  postgres_user_cert = no_wait;
  streaming_replica_user_cert = no_wait;
  wait_for_client_ca_issuer_timeout = 0;
  recovery_target_time = [];
  wait_for_cluster_timeout = 0;
  cleanup_timeout = 0;
}

abbrev pub from_env : Credentials
from_env = record {
  access_key_id = codes "key";
  secret_access_key = codes "secret";
  session_token = [];
  endpoint = [];
  region = [];
  s3_force_path_style = false;
}

abbrev pub unset : Credentials
unset = record {
  access_key_id = [];
  secret_access_key = [];
  session_token = [];
  endpoint = [];
  region = [];
  s3_force_path_style = false;
}

-- A database, a directory and a bucket, of which the last two share a name.
abbrev pub wiki : GenericBackupConfig
wiki = record {
  namespace = codes "wiki";
  backup_name = codes "nightly";
  backup_volume = record {
    storage_class = [];
    snapshot_class = [];
    size = 10;
    snapshot_ready_timeout = 0;
  };
  cleanup_timeout = 0;
  postgres =
      record { name = codes "main"; cluster = codes "wiki-db"; cluster_cloning = cloning } ∷ [];
  files =
      record {
        source = record { name = codes "media"; pvc = codes "wiki-media" };
        snapshot_class = [];
        filter = databases_only;
      }
      ∷ [];
  file_groups = [];
  s3 = record { name = codes "media"; path = codes "s3://wiki/media"; credentials = unset } ∷ [];
}

abbrev pub wiki_back : GenericRestoreConfig
wiki_back = record {
  namespace = codes "wiki";
  backup_name = codes "nightly";
  cleanup_timeout = 0;
  postgres = [];
  files = record { name = codes "media"; pvc = codes "wiki-media" } ∷ [];
  file_groups = [];
  s3 = [];
}

pub wiki-accepted : validate_backup_config numbered suffixes wiki ≡ none
unfolding validate_backup_config list_beq validate_file_filter
wiki-accepted = refl

validate_backup_config-iff_example :
    (validate_backup_config numbered suffixes wiki ≡ none) ↔ IsBackupConfig suffixes wiki
validate_backup_config-iff_example = validate_backup_config_iff numbered suffixes wiki

destinations-Distinct_example :
    Distinct (backup_destinations wiki)
    ↔ Apart (codes "media" ∷ []) (map (λ (src : GenericS3Source). src.name) wiki.s3)
destinations-Distinct_example = destinations-Distinct numbered suffixes wiki wiki-accepted

-- A cluster whose volumes all have the size 7, with a counter of calls as its world.
abbrev pub sevens : VolumeClients ℕ ℕ
sevens = record {
  get_cluster_size = λ namespace name w. (ok (codes "7"), w);
  parse_quantity = λ text. ok 7;
  get_pvc = λ namespace name w.
      (ok (record { namespace = namespace; name = name; storage_request = some 7 }), w);
  ensure_pvc_exists = λ namespace name size class w.
      (ok (record { namespace = namespace; name = name; storage_request = some size }), w);
  snapshot_volume = λ namespace pvc name class w. (ok name, w);
  wait_for_ready_snapshot = λ namespace name timeout w. (ok tt, w);
}

abbrev two : DrVolumeCreateOptions
two = record { volume_storage_class = []; cnpg_cluster_names = codes "a" ∷ codes "b" ∷ [] }

abbrev doubled : Pvc
doubled = record { namespace = codes "wiki"; name = codes "nightly"; storage_request = some 28 }

two_made :
    new_dr_volume numbered sevens (codes "wiki") (codes "nightly") 0 two 1
    ≡ (ok (record { pvc = some doubled }), 1)
unfolding new_dr_volume
two_made = refl

new_dr_volume-IsMade_example :
    (pvc : Pvc) × (◌≡◌ {A = Option Pvc} (some doubled) (some pvc))
    × IsMade numbered sevens (codes "wiki") (codes "nightly") 0 two 1 pvc 1
new_dr_volume-IsMade_example =
    new_dr_volume-IsMade numbered sevens (codes "wiki") (codes "nightly") 0 two 1 1
      (record { pvc = some doubled }) two_made
