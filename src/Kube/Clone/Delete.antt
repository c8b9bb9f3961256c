-- ===== src/Kube/Clone/Delete.antt =====
-- ClonedCluster.Delete of pkg/kubecluster/composite/clonedcluster/clonedcluster.go.
use backup_tool.Base.{String, Option, none, some, List, [], ◌∷◌, ◌++◌}
use backup_tool.Errors.{Errors, wrap, new_aggregate}
use backup_tool.Kube.Api.{History}
use backup_tool.Kube.Building.{delete_held}
use backup_tool.Kube.Certs.{
  Policy, CertManager, ApproverPolicy, certificate_id, policy_id, issuer_id,
}
use backup_tool.Kube.UserCert.{ClusterUserCert, delete_user_cert}
use backup_tool.Kube.Databases.{cluster_id, Cnpg}
use backup_tool.Kube.Clone.{ClonedCluster}

module _ (E : Errors) (cm : CertManager E.Error) (ap : ApproverPolicy E.Error)
    (cnpg : Cnpg E.Error) where
  -- The deletion of a user certificate, if the clone holds one.
  unfoldable pub delete_held_user :
      String → Option ClusterUserCert → History → Option E.Error × History
  unfolding delete_user_cert
  delete_held_user m none h = (none, h)
  delete_held_user m (some cuc) h = let (e, h') = delete_user_cert E cm ap cuc h in (wrap E e m, h')

  -- The loop over the certificate request policies, with the errors in their order.
  unfoldable pub delete_policies : List Policy → History → List (Option E.Error) × History
  delete_policies [] h = ([], h)
  delete_policies (p ∷ ps) h =
      let (e, h₁) =
        delete_held E (some p) policy_id (λ q. ap.delete_policy q.name)
          "failed to delete cloned cluster certificate request policy" h in
      let (es, h₂) = delete_policies ps h₁ in (e ∷ es, h₂)

  -- ClonedCluster.Delete up to its loop: the errors and the history.
  unfoldable pub delete_named : ClonedCluster → History → List (Option E.Error) × History
  unfolding delete_held_user
  delete_named clone h =
      let (e₁, h₁) =
        delete_held E clone.cluster cluster_id (λ c. cnpg.delete_cluster c.namespace c.name)
          "failed to delete cloned cluster CNPG cluster" h in
      let (e₂, h₂) =
        delete_held_user "failed to delete cloned cluster streaming_replica user cert resources"
          clone.streaming_replica_user_certificate h₁ in
      let (e₃, h₃) =
        delete_held_user "failed to delete cloned cluster postgres user cert resources"
          clone.postgres_user_certificate h₂ in
      let (e₄, h₄) =
        delete_held E clone.client_ca_issuer issuer_id (λ i. cm.delete_issuer i.namespace i.name)
          "failed to delete cloned cluster client CA issuer" h₃ in
      let (e₅, h₅) =
        delete_held E clone.client_ca_certificate certificate_id
          (λ c. cm.delete_certificate c.namespace c.name)
          "failed to delete cloned cluster client CA cert" h₄ in
      let (e₆, h₆) =
        delete_held E clone.serving_certificate certificate_id
          (λ c. cm.delete_certificate c.namespace c.name)
          "failed to delete cloned cluster serving cert" h₅ in
      (e₁ ∷ e₂ ∷ e₃ ∷ e₄ ∷ e₅ ∷ e₆ ∷ [], h₆)

  -- ClonedCluster.Delete
  unfoldable pub delete : ClonedCluster → History → Option E.Error × History
  unfolding delete_named delete_policies
  delete clone h =
      let (es, h₁) = delete_named clone h in
      let (es', h₂) = delete_policies clone.certificate_request_policies h₁ in
      let (e, h₃) =
        delete_held E clone.self_signed_issuer issuer_id (λ i. cm.delete_issuer i.namespace i.name)
          "failed to delete cloned cluster self-signed issuer" h₂ in
      (
        wrap E (new_aggregate E (es ++ es' ++ (e ∷ []))) "failed while cleaning up cloned cluster",
        h₃,
      )
