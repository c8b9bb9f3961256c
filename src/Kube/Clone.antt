-- ===== src/Kube/Clone.antt =====
-- pkg/kubecluster/composite/clonedcluster/clonedcluster.go: the clone of a database cluster, the
-- options of its creation, and the backup that it starts from.
pub mod Delete
pub mod Certificates
pub mod Create
pub mod Laws
use backup_tool.Base.{ℕ, Option, none, some, List, [], ◌∷◌, ◌++◌}
use backup_tool.Base.Text.{Chars, codes}
use backup_tool.Errors.{Errors, Result, ok, err, wrap, non_nil}
use backup_tool.Exec.{Exec, wrapping, wrap_result, ◌>>=◌}
use backup_tool.Kube.Api.{History, Resource, backup, creating, asking, deleting}
use backup_tool.Kube.Certs.{Certificate, Issuer, Policy}
use backup_tool.Kube.UserCert.{ClusterUserCert, NewClusterUserCertOpts}
use backup_tool.Kube.Databases.{Cluster, Backup, backup_id, Cnpg}

-- ClonedCluster
pub record ClonedCluster : Type 0 where
  pub cluster : Option Cluster
  pub self_signed_issuer : Option Issuer
  pub serving_certificate : Option Certificate
  pub client_ca_certificate : Option Certificate
  pub client_ca_issuer : Option Issuer
  pub postgres_user_certificate : Option ClusterUserCert
  pub streaming_replica_user_certificate : Option ClusterUserCert
  pub certificate_request_policies : List Policy

-- newClonedCluster
abbrev pub new_cloned_cluster : ClonedCluster
new_cloned_cluster = record {
  cluster = none;
  self_signed_issuer = none;
  serving_certificate = none;
  client_ca_certificate = none;
  client_ca_issuer = none;
  postgres_user_certificate = none;
  streaming_replica_user_certificate = none;
  certificate_request_policies = [];
}

-- CloneClusterOptions; what the cleanup timeout bounds is not modelled. The options of a certificate
-- have the two fields of those of a user certificate.
pub record CloneClusterOptions : Type 0 where
  pub wait_for_backup_timeout : ℕ
  pub wait_for_self_signed_issuer_timeout : ℕ
  pub serving_cert : NewClusterUserCertOpts
  pub client_ca_cert : NewClusterUserCertOpts
  pub postgres_user_cert : NewClusterUserCertOpts
  pub streaming_replica_user_cert : NewClusterUserCertOpts
  pub wait_for_client_ca_issuer_timeout : ℕ
  -- empty for the consistency point
  pub recovery_target_time : Chars
  pub wait_for_cluster_timeout : ℕ
  pub cleanup_timeout : ℕ

module _ (E : Errors) (cnpg : Cnpg E.Error) where
  -- What CreateClusterBackup does with the outcome of the wait for the backup `b`.
  unfoldable pub settle_backup :
      Chars → Backup → Result E.Error Backup → Exec E.Error History Backup
  settle_backup namespace b (ok ready) h = (ok ready, h)
  settle_backup namespace b (err e) h =
      let id : Resource = record { kind = backup; namespace = namespace; name = b.name } in
      let e' = cnpg.delete_backup namespace b.name h in
      let (_, h') = deleting id (cnpg.delete_backup namespace b.name) h in
      (err (E.aggregate_error e (non_nil E (wrap E e' "failed to delete backup" ∷ []))), h')

  -- The wait of CreateClusterBackup, once the backup exists.
  unfoldable pub await_backup : Chars → CloneClusterOptions → Backup → Exec E.Error History Backup
  unfolding settle_backup
  await_backup namespace opts b h =
      let (r, h') =
        asking backup b.name
          (cnpg.wait_for_ready_backup namespace b.name opts.wait_for_backup_timeout) h in
      settle_backup namespace b (wrap_result E "failed to wait for backup to be ready" r) h'

  -- CreateClusterBackup
  unfoldable pub create_cluster_backup :
      Chars → Chars → CloneClusterOptions → Exec E.Error History Backup
  unfolding await_backup
  create_cluster_backup namespace existing opts = do
    let prefix = existing ++ codes "-cloned"
    b ←
        wrapping E "failed to create backup of existing cluster"
          (creating backup prefix backup_id (cnpg.create_backup namespace prefix existing))
    await_backup namespace opts b
