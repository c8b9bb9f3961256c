-- ===== src/Kube/UserCert/Outcome.antt =====
-- What NewClusterUserCert of pkg/kubecluster/composite/clusterusercert/clusterusercert.go leaves on
-- the cluster.
use backup_tool.Base.{◌≡◌, refl, sym, subst, inl, inr, String, Option, none, some, ◌∷◌, arith}
use backup_tool.Base.Text.{Chars}
use backup_tool.Errors.{Errors, Result, ok, err}
use backup_tool.Exec.Ensures.{Ends}
use backup_tool.Kube.Api.{History, Resource, deleted}
use backup_tool.Kube.Building.{Building, handled}
use backup_tool.Kube.Certs.{
  Certificate, CertManager, ApproverPolicy, IssuerReference, Policy, certificate_id, policy_id,
  KeepsNames,
}
use backup_tool.Kube.UserCert.{
  ClusterUserCert, NewClusterUserCertOpts, delete_user_cert, user_cert_steps, new_cluster_user_cert,
}
use backup_tool.Kube.UserCert.Leaks.{Holding, Failed, steps_keep}
use backup_tool.Kube.Leaks.{Tracks, NoLeak, Tracks-deleted, Tracks-release, NoLeak-refl}

-- What the creation of a user certificate may end with: an error, and nothing but policies was
-- created since `h` and is not asked to be deleted; or a user certificate, which holds its
-- certificate, and no other resource of that kind.
pub data Settled (X : Type 0) (h : History) : Result X ClusterUserCert × History → Type 0 where
  gave_up : (e : X) (h' : History) → NoLeak h h' → Settled X h (err e, h')
  made :
      (cuc : ClusterUserCert) (c : Certificate) (h' : History)
      → cuc.certificate ≡ some c
      → Tracks (λ r. r ≡ certificate_id c) h h'
      → Settled X h (ok cuc, h')

module _ (E : Errors) (cm : CertManager E.Error) (ap : ApproverPolicy E.Error) (id : Resource)
    (h₀ : History) where
  releases :
      (crp : Option Policy) (cert : Option Certificate) (c : Certificate) (h : History)
      → cert ≡ some c
      → certificate_id c ≡ id
      → Tracks (λ r. r ≡ id) h₀ h
      → NoLeak h₀ (delete_user_cert E cm ap (record { certificate = cert; crp = crp }) h).1
  unfolding delete_user_cert
  releases crp none c h e same t = absurd (ground (arith, e))
  releases none (some d) c h e same t =
      subst (λ i. NoLeak h₀ (deleted i ∷ h)) (sym (ground (arith, e, same)))
        (Tracks-release h₀ h id t)
  releases (some p) (some d) c h e same t =
      subst (λ i. NoLeak h₀ (deleted i ∷ deleted (policy_id p) ∷ h)) (sym (ground (arith, e, same)))
        (Tracks-release h₀ (deleted (policy_id p) ∷ h) id
          (Tracks-deleted (λ r. r ≡ id) h₀ h t (policy_id p)))

  leaves :
      (crp : Option Policy) (cert : Option Certificate) (h : History)
      → cert ≡ none
      → NoLeak h₀ h
      → NoLeak h₀ (delete_user_cert E cm ap (record { certificate = cert; crp = crp }) h).1
  unfolding delete_user_cert
  leaves crp (some d) h e t = absurd (ground (arith, e))
  leaves none none h e t = t
  leaves (some p) none h e t = Tracks-deleted (λ r. ⊥) h₀ h t (policy_id p)

  settles :
      (m : String) (r : Result E.Error (Unit {0})) (b : Building ClusterUserCert)
      → Ends (λ _. Holding E id h₀) (Failed E id h₀) (r, b)
      → Settled E.Error h₀ (handled E (delete_user_cert E cm ap) m r b)
  settles m (ok _) b p =
      made b.held p.0.0 b.history p.0.1
        (subst (λ i. Tracks (λ r. r ≡ i) h₀ b.history) (sym p.0.2) p.1)
  settles m (err e) b (inl p) =
      gave_up _ _ (releases b.held.crp b.held.certificate p.0.0 b.history p.0.1 p.0.2 p.1)
  settles m (err e) b (inr p) = gave_up _ _ (leaves b.held.crp b.held.certificate b.history p.0 p.1)

-- If NewClusterUserCert fails, at whichever step, then the deletion of every resource that it
-- created is asked for, but for policies; if it succeeds, the user certificate that it returns holds
-- its certificate, and nothing else was created that is not asked to be deleted, but for policies.
-- The clients are taken to answer with the certificate that was asked for.
pub new_cluster_user_cert-Settled :
    (E : Errors) (cm : CertManager E.Error) (ap : ApproverPolicy E.Error)
    → KeepsNames cm
    → (namespace username : Chars) (issuer_ref : IssuerReference) (cluster_name : Chars)
      (opts : NewClusterUserCertOpts) (h : History)
    → Settled E.Error h
        (new_cluster_user_cert E cm ap namespace username issuer_ref cluster_name opts h)
unfolding new_cluster_user_cert
new_cluster_user_cert-Settled E cm ap keeps namespace username issuer_ref cluster_name opts h =
    let steps = user_cert_steps E cm ap namespace username issuer_ref cluster_name opts in
    let start : Building ClusterUserCert = record {
      held = record { certificate = none; crp = none };
      history = h;
    } in
    let (r, b) = steps start in
    settles E cm ap _ h "failed to cleanup user cert" r b (
      (steps_keep E cm ap keeps namespace username issuer_ref cluster_name opts h).ends start
        (refl, NoLeak-refl h))
