-- ===== src/Tests/Kube.antt =====
-- Clones of clusters and what they consist of, at concrete inputs.
use backup_tool.Base.{ℕ, ◌≡◌, true, false, none, some, [], ◌∷◌, arith}
use backup_tool.Base.Text.{Chars, codes}
use backup_tool.Errors.{ok, err}
use backup_tool.Tests.{numbered}
use backup_tool.Kube.Certs.{
  Certificate, CertificateSpec, CertManager, ApproverPolicy, IssuerReference,
}
use backup_tool.Kube.Policies.{create_crp_for_certificate}
use backup_tool.Kube.Policies.Outcome.{PolicyEnding, create_crp_for_certificate-PolicyEnding}
use backup_tool.Kube.UserCert.{NewClusterUserCertOpts}
use backup_tool.Kube.UserCert.{new_cluster_user_cert}
use backup_tool.Kube.UserCert.Outcome.{Settled, new_cluster_user_cert-Settled}
use backup_tool.Kube.Certs.{KeepsNames}
use backup_tool.Kube.Databases.{Cluster, Backup, Cnpg}
use backup_tool.Kube.Recovery.{find_barman_cloud_wal_archiver}
use backup_tool.Kube.Recovery.Archiver.{IsArchiver, find_barman_cloud_wal_archiver-IsArchiver}
use backup_tool.Kube.Clone.{
  ClonedCluster, new_cloned_cluster, CloneClusterOptions, create_cluster_backup,
}
use backup_tool.Kube.Clone.Delete.{delete}
use backup_tool.Kube.Clone.Laws.{
  after_deleting, parts, delete-order, BackupEnding, KeepsNamespace,
  create_cluster_backup-BackupEnding,
}

abbrev ref : IssuerReference
ref = record { name = codes "root"; kind = []; group = [] }

abbrev spec_of : Chars → CertificateSpec
spec_of n = record {
  issuer_ref = ref;
  secret_name = n;
  duration = none;
  private_key = none;
  common_name = n;
  dns_names = [];
  ip_addresses = [];
  uris = [];
  email_addresses = [];
  is_ca = false;
  usages = none;
}

abbrev cert_of : Chars → Chars → Certificate
cert_of ns n = record { namespace = ns; name = n; spec = spec_of n }

-- Every call succeeds, but for the deletion of issuers.
abbrev certs : CertManager ℕ
certs = record {
  create_certificate = λ ns n _ _ _. ok (cert_of ns n);
  reissue_certificate = λ ns n _. ok (cert_of ns n);
  wait_for_ready_certificate = λ ns n _ _. ok (cert_of ns n);
  delete_certificate = λ _ _ _. none;
  create_issuer = λ ns n _ _. ok (record { namespace = ns; name = n });
  wait_for_ready_issuer = λ ns n _ _. ok (record { namespace = ns; name = n });
  delete_issuer = λ _ _ _. some 8;
}

-- The wait for a policy fails.
abbrev policies : ApproverPolicy ℕ
policies = record {
  is_available = λ _. ok true;
  create_policy = λ n s _. ok (record { name = n; spec = s });
  wait_for_ready_policy = λ _ _ _. err 6;
  delete_policy = λ _ _. none;
}

abbrev pub source : Cluster
source = record {
  namespace = codes "db";
  name = codes "main";
  image_name = codes "postgres";
  storage_size = codes "1Gi";
  storage_class = none;
  bootstrap = none;
  plugins =
      record {
        name = codes "other";
        is_wal_archiver = some true;
        barman_object_name = [];
        server_name = [];
      }
      ∷ record {
        name = codes "barman";
        is_wal_archiver = none;
        barman_object_name = codes "store";
        server_name = [];
      }
      ∷ record {
        name = codes "barman";
        is_wal_archiver = some true;
        barman_object_name = codes "store2";
        server_name = [];
      }
      ∷ [];
  current_primary = codes "main-1";
}

abbrev backup_of : Chars → Chars → Backup
backup_of ns n = record { namespace = ns; name = n; elements = [] }

-- A backup does not become ready.
abbrev databases : Cnpg ℕ
databases = record {
  create_backup = λ ns prefix _ _. ok (backup_of ns prefix);
  wait_for_ready_backup = λ _ _ _ _. err 4;
  delete_backup = λ _ _ _. none;
  get_cluster = λ _ _ _. ok source;
  create_cluster = λ _ _ _ _ _ _ _ _. ok source;
  wait_for_ready_cluster = λ _ _ _ _. ok source;
  delete_cluster = λ _ _ _. none;
  wait_for_cluster_deleted = λ _ _ _ _. none;
  barman_plugin_name = codes "barman";
}

create_crp_for_certificate-PolicyEnding_example :
    PolicyEnding numbered policies
      (cert_of (codes "db") (codes "c"))
      5
      []
      (create_crp_for_certificate numbered policies (cert_of (codes "db") (codes "c")) 5 [])
create_crp_for_certificate-PolicyEnding_example =
    create_crp_for_certificate-PolicyEnding numbered policies (cert_of (codes "db") (codes "c")) 5
      []

find_barman_cloud_wal_archiver-IsArchiver_example :
    IsArchiver
      (codes "barman")
      source.plugins
      (find_barman_cloud_wal_archiver (codes "barman") source)
find_barman_cloud_wal_archiver-IsArchiver_example =
    find_barman_cloud_wal_archiver-IsArchiver (codes "barman") source

abbrev clone : ClonedCluster
clone = record new_cloned_cluster {
  cluster = some source;
  self_signed_issuer = some (record { namespace = codes "db"; name = codes "root" });
  postgres_user_certificate =
      some (record { certificate = some (cert_of (codes "db") (codes "u")); crp = none });
}

delete-order_example :
    (delete numbered certs policies databases clone []).1 ≡ after_deleting (parts clone) []
delete-order_example = delete-order numbered certs policies databases clone []

abbrev times : NewClusterUserCertOpts
times = record { wait_for_crp_timeout = 1; wait_for_cert_timeout = 2 }

abbrev options : CloneClusterOptions
options = record {
  wait_for_backup_timeout = 1;
  wait_for_self_signed_issuer_timeout = 1;
  serving_cert = times;
  client_ca_cert = times;
  postgres_user_cert = times;
  streaming_replica_user_cert = times;
  wait_for_client_ca_issuer_timeout = 1;
  recovery_target_time = [];
  wait_for_cluster_timeout = 1;
  cleanup_timeout = 0;
}

in_namespace : KeepsNamespace numbered databases
in_namespace ns prefix s h b e = ground (arith, e)

create_cluster_backup-BackupEnding_example :
    BackupEnding numbered databases
      (codes "db")
      (codes "main")
      options.wait_for_backup_timeout
      []
      (create_cluster_backup numbered databases (codes "db") (codes "main") options [])
create_cluster_backup-BackupEnding_example =
    create_cluster_backup-BackupEnding numbered databases in_namespace (codes "db") (codes "main")
      options []

certs_keep_names : KeepsNames certs
certs_keep_names = record {
  of_create = λ ns n i o h c e. ground (arith, e);
  of_reissue = λ ns n h c e. ground (arith, e);
  of_wait = λ ns n t h c e. ground (arith, e);
  of_create_issuer = λ ns n g h i e. ground (arith, e);
  of_wait_issuer = λ ns n t h i e. ground (arith, e);
}

new_cluster_user_cert-Settled_example : Settled ℕ [] (
    new_cluster_user_cert numbered certs policies
      (codes "db")
      (codes "postgres")
      ref
      (codes "main")
      times
      [])
new_cluster_user_cert-Settled_example =
    new_cluster_user_cert-Settled numbered certs policies certs_keep_names (codes "db")
      (codes "postgres") ref (codes "main") times []
