-- ===== src/Kube/Clone/Certificates.antt =====
-- createClonedClusterCertificate and steps 1 to 4 of CloneClusterFromBackup, the clone's issuers and
-- certificates, of
-- pkg/kubecluster/composite/clonedcluster/clonedcluster.go.
use backup_tool.Base.{ℕ, String, Bool, true, false, none, some, [], ◌∷◌, ◌++◌, list_eq}
use backup_tool.Base.Text.{Chars, codes}
use backup_tool.Helpers.{clean_name, truncate_string_ellipsis}
use backup_tool.Errors.{Errors}
use backup_tool.Exec.{Exec, wrapping, pure, ◌>>=◌, ◌>>◌}
use backup_tool.Kube.Api.{certificate, issuer, creating, asking}
use backup_tool.Kube.Building.{Building, calling, hold}
use backup_tool.Kube.Certs.{
  Certificate, CertificateOptions, IssuerReference, Issuer, IssuerConfig, self_signed, ca,
  server_auth, cert_sign, CertManager, ApproverPolicy, certificate_id, issuer_id,
}
use backup_tool.Kube.Policies.{create_crp_for_certificate}
use backup_tool.Kube.UserCert.{ClusterUserCert, NewClusterUserCertOpts, new_cluster_user_cert}
use backup_tool.Kube.Recovery.{get_cluster_domain_names}
use backup_tool.Kube.Clone.{ClonedCluster, CloneClusterOptions}

-- Building a clone.
abbrev pub Clone : Type 0 → Type 0 → Type 0
Clone X A = Exec X (Building ClonedCluster) A

-- A reference that gives only a name.
abbrev pub issuer_named : Chars → IssuerReference
issuer_named n = record { name = n; kind = []; group = [] }

abbrev pub serving_cert_options : Chars → Chars → Chars → CertificateOptions
serving_cert_options name cluster_name namespace = record {
  common_name = name;
  dns_names = get_cluster_domain_names cluster_name namespace;
  is_ca = false;
  excludes_names = false;
  usages = server_auth ∷ [];
  watched = true;
}

abbrev pub client_ca_cert_options : Chars → CertificateOptions
client_ca_cert_options cluster_name =
    let suffix = codes " CNPC CA" in
    record {
      common_name = truncate_string_ellipsis cluster_name 56 ++ suffix;
      dns_names = [];
      is_ca = true;
      excludes_names = true;
      usages = cert_sign ∷ [];
      watched = true;
    }

-- What the clone is created with: the names of its serving, client CA and replication
-- certificates.
pub record Certificates : Type 0 where
  pub serving : Chars
  pub client_ca : Chars
  pub replication : Chars

module _ (E : Errors) (cm : CertManager E.Error) (ap : ApproverPolicy E.Error) where
  -- createClonedClusterCertificate, where approver-policy enforces approval: the certificate as it
  -- is before the last wait.
  unfoldable pub approve_cloned_cert :
      NewClusterUserCertOpts
      → (Certificate → ClonedCluster → ClonedCluster)
      → Certificate
      → Bool
      → Clone E.Error Certificate
  approve_cloned_cert opts set_cert cert false = pure cert
  approve_cloned_cert opts set_cert cert true = do
    crp ←
        wrapping E "failed to create certificate request policy for certificate"
          (calling (create_crp_for_certificate E ap cert opts.wait_for_crp_timeout))
    hold (λ clone. record clone {
      certificate_request_policies = clone.certificate_request_policies ++ (crp ∷ []);
    })
    reissued ←
        wrapping E "failed to re-issue certificate"
          (calling (asking certificate cert.name (cm.reissue_certificate cert.namespace cert.name)))
    hold (set_cert reissued)
    pure reissued

  -- createClonedClusterCertificate
  unfoldable pub create_cloned_cluster_certificate :
      Chars
      → Chars
      → IssuerReference
      → CertificateOptions
      → NewClusterUserCertOpts
      → (Certificate → ClonedCluster → ClonedCluster)
      → Clone E.Error Certificate
  unfolding approve_cloned_cert
  create_cloned_cluster_certificate namespace name issuer_ref cert_opts opts set_cert = do
    cert ← wrapping E "failed to create certificate" (
        calling (
          creating certificate name certificate_id
            (cm.create_certificate namespace name issuer_ref cert_opts)))
    hold (set_cert cert)
    should_deploy_crp ←
        wrapping E "failed to determine whether approver-policy is enforcing"
          (calling (asking certificate name ap.is_available))
    approved ← approve_cloned_cert opts set_cert cert should_deploy_crp
    ready ← wrapping E "failed to wait for certificate to be ready" (
        calling (
          asking certificate approved.name (
            cm.wait_for_ready_certificate approved.namespace approved.name
              opts.wait_for_cert_timeout)))
    hold (set_cert ready)
    pure ready

  -- The creation of an issuer, and the wait for it: `made` and `waiting` are the messages of the
  -- two failures.
  unfoldable pub create_issuer :
      Chars
      → Chars
      → IssuerConfig
      → ℕ
      → (Issuer → ClonedCluster → ClonedCluster)
      → String
      → String
      → Clone E.Error Issuer
  create_issuer namespace name config timeout set_issuer made waiting = do
    first ←
        wrapping E made
          (calling (creating issuer name issuer_id (cm.create_issuer namespace name config)))
    hold (set_issuer first)
    ready ←
        wrapping E waiting
          (calling (asking issuer name (cm.wait_for_ready_issuer namespace name timeout)))
    hold (set_issuer ready)
    pure ready

  -- Step 4: one user certificate.
  unfoldable pub create_user :
      Chars
      → String
      → Chars
      → Chars
      → Chars
      → NewClusterUserCertOpts
      → (ClusterUserCert → ClonedCluster → ClonedCluster)
      → Clone E.Error ClusterUserCert
  create_user namespace message username issuer_name new opts set_user = do
    cuc ← wrapping E message (
        calling
          (new_cluster_user_cert E cm ap namespace username (issuer_named issuer_name) new opts))
    hold (set_user cuc)
    pure cuc

  -- Steps 1 to 4 of CloneClusterFromBackup. A user certificate that was returned holds its
  -- certificate.
  unfoldable pub create_pki : Chars → Chars → CloneClusterOptions → Clone E.Error Certificates
  unfolding create_cloned_cluster_certificate create_issuer create_user
  create_pki namespace new opts = do
    let self_signed_name = clean_name (new ++ codes "-self-signed-issuer")
    root ←
        create_issuer namespace self_signed_name self_signed
          opts.wait_for_self_signed_issuer_timeout
          (λ i clone. record clone { self_signed_issuer = some i })
          "failed to create self-signed issuer" "failed to wait for self-signed issuer to be ready"
    let serving_name = clean_name (truncate_string_ellipsis new 51 ++ codes "-serving-cert")
    serving ← wrapping E "failed to create cluster serving cert" (
        create_cloned_cluster_certificate namespace serving_name (issuer_named root.name)
          (serving_cert_options serving_name new namespace) opts.serving_cert
          (λ c clone. record clone { serving_certificate = some c }))
    let ca_name = clean_name (new ++ codes "-client-ca")
    let ca_issuer_name = clean_name (ca_name ++ codes "-issuer")
    client_ca ← wrapping E "failed to create client CA cert" (
        create_cloned_cluster_certificate namespace ca_name (issuer_named root.name)
          (client_ca_cert_options new) opts.client_ca_cert
          (λ c clone. record clone { client_ca_certificate = some c }))
    create_issuer namespace ca_issuer_name (ca client_ca.name)
        opts.wait_for_client_ca_issuer_timeout
        (λ i clone. record clone { client_ca_issuer = some i }) "failed to create client CA issuer"
        "failed to wait for client CA issuer to be ready"
    create_user namespace "failed to create postgres user cert resources" (codes "postgres")
        ca_issuer_name new opts.postgres_user_cert
        (λ u clone. record clone { postgres_user_certificate = some u })
    replica ←
        create_user namespace "failed to create streaming_replica user cert resources"
          (codes "streaming_replica") ca_issuer_name new opts.streaming_replica_user_cert
          (λ u clone. record clone { streaming_replica_user_certificate = some u })
    pure (record {
      serving = serving.name;
      client_ca = client_ca.name;
      replication = elim replica.certificate [ none ↦ [] | some c ↦ c.name ];
    })
