-- ===== src/Kube/UserCert.antt =====
-- pkg/kubecluster/composite/clusterusercert/clusterusercert.go: the client certificate of one
-- database user, with its policy where approver-policy enforces approval.
pub mod Leaks
pub mod Outcome
use backup_tool.Base.{ℕ, Bool, true, false, Option, none, some, [], ◌∷◌, ◌++◌}
use backup_tool.Base.Text.{Chars, codes}
use backup_tool.Errors.{Errors, wrap, new_aggregate}
use backup_tool.Helpers.{clean_name}
use backup_tool.Exec.{Exec, wrapping, pure, ◌>>=◌, ◌>>◌}
use backup_tool.Kube.Api.{History, certificate, creating, asking}
use backup_tool.Kube.Building.{Building, calling, hold, delete_held, build}
use backup_tool.Kube.Certs.{
  Certificate, CertificateOptions, client_auth, IssuerReference, Policy, CertManager,
  ApproverPolicy, certificate_id, policy_id,
}
use backup_tool.Kube.Policies.{create_crp_for_certificate}

pub record ClusterUserCert : Type 0 where
  pub certificate : Option Certificate
  pub crp : Option Policy

-- NewClusterUserCertOpts, but for the cleanup timeout
pub record NewClusterUserCertOpts : Type 0 where
  pub wait_for_crp_timeout : ℕ
  pub wait_for_cert_timeout : ℕ

-- The options of the certificate of NewClusterUserCert.
abbrev pub user_cert_options : Chars → CertificateOptions
user_cert_options username = record {
  common_name = username;
  dns_names = [];
  is_ca = false;
  excludes_names = false;
  usages = client_auth ∷ [];
  watched = true;
}

module _ (E : Errors) (cm : CertManager E.Error) (ap : ApproverPolicy E.Error) where
  -- ClusterUserCert.Delete
  unfoldable pub delete_user_cert : ClusterUserCert → History → Option E.Error × History
  delete_user_cert cuc h =
      let (e, h₁) =
        delete_held E cuc.crp policy_id (λ p. ap.delete_policy p.name)
          "failed to delete certificate request policy" h in
      let (e', h₂) =
        delete_held E cuc.certificate certificate_id (λ c. cm.delete_certificate c.namespace c.name)
          "failed to delete certificate" h₁ in
      (
        wrap E (new_aggregate E (e ∷ e' ∷ []))
            "failed while cleaning up cluster user certificate resources",
        h₂,
      )

  -- The certificate as it is after step 2: the policy is created, and the certificate reissued,
  -- only where approver-policy enforces approval.
  unfoldable pub approve_user_cert :
      NewClusterUserCertOpts
      → Certificate
      → Bool
      → Exec E.Error (Building ClusterUserCert) Certificate
  unfolding create_crp_for_certificate
  approve_user_cert opts cert false = pure cert
  approve_user_cert opts cert true = do
    crp ←
        wrapping E "failed to create CertificateRequestPolicy for user cert"
          (calling (create_crp_for_certificate E ap cert opts.wait_for_crp_timeout))
    hold (λ cuc. record cuc { crp = some crp })
    reissued ←
        wrapping E "failed to re-issue user cert"
          (calling (asking certificate cert.name (cm.reissue_certificate cert.namespace cert.name)))
    hold (λ cuc. record cuc { certificate = some reissued })
    pure reissued

  -- The steps of NewClusterUserCert.
  unfoldable pub user_cert_steps :
      Chars
      → Chars
      → IssuerReference
      → Chars
      → NewClusterUserCertOpts
      → Exec E.Error (Building ClusterUserCert) (Unit {0})
  unfolding approve_user_cert
  user_cert_steps namespace username issuer_ref cluster_name opts = do
    let cert_name = clean_name (cluster_name ++ codes "-" ++ username ++ codes "-user")
    cert ← wrapping E "failed to create user cert" (
        calling (
          creating certificate cert_name certificate_id
            (cm.create_certificate namespace cert_name issuer_ref (user_cert_options username))))
    hold (λ cuc. record cuc { certificate = some cert })
    should_deploy_crp ←
        wrapping E "failed to determine whether approver-policy is enforcing"
          (calling (asking certificate cert_name ap.is_available))
    approved ← approve_user_cert opts cert should_deploy_crp
    ready ← wrapping E "failed to wait for user cert to be ready" (
        calling (
          asking certificate approved.name (
            cm.wait_for_ready_certificate approved.namespace approved.name
              opts.wait_for_cert_timeout)))
    hold (λ cuc. record cuc { certificate = some ready })

  -- NewClusterUserCert
  unfoldable pub new_cluster_user_cert :
      Chars
      → Chars
      → IssuerReference
      → Chars
      → NewClusterUserCertOpts
      → Exec E.Error History ClusterUserCert
  unfolding user_cert_steps delete_user_cert
  new_cluster_user_cert namespace username issuer_ref cluster_name opts =
      build E delete_user_cert "failed to cleanup user cert"
        (record { certificate = none; crp = none })
        (user_cert_steps namespace username issuer_ref cluster_name opts)
