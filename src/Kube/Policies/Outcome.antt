-- ===== src/Kube/Policies/Outcome.antt =====
-- What CreateCRPForCertificate of
-- pkg/kubecluster/composite/createcrpforcertificate/createcrpforcertificate.go leaves on the cluster.
use backup_tool.Base.{ℕ, ◌≡◌, ◌∷◌, inl, inr}
use backup_tool.Base.Text.{Chars}
use backup_tool.Errors.{Errors, Result, ok, err, Result-cases}
use backup_tool.Kube.Api.{History, created, asked, policy}
use backup_tool.Kube.Certs.{Certificate, Policy, policy_id, ApproverPolicy}
use backup_tool.Kube.Policies.{policy_spec, create_crp_for_certificate}

module _ (E : Errors) (ap : ApproverPolicy E.Error) (cert : Certificate) (timeout : ℕ)
    (h : History) where
  -- What CreateCRPForCertificate may end with: no policy was created; one was, and the wait for it
  -- returned it; or one was, and the wait for it failed.
  pub data PolicyEnding : Result E.Error Policy × History → Type 0 where
    refused : (e : E.Error) (n : Chars) → PolicyEnding (err e, asked policy n ∷ h)
    approved :
        (p p' : Policy) (n : Chars)
        → ap.create_policy cert.name (policy_spec cert) h ≡ ok p
        → ap.wait_for_ready_policy p.name timeout (created (policy_id p) ∷ h) ≡ ok p'
        → PolicyEnding (ok p', asked policy n ∷ created (policy_id p) ∷ h)
    left :
        (e x : E.Error) (p : Policy) (n : Chars)
        → ap.create_policy cert.name (policy_spec cert) h ≡ ok p
        → ap.wait_for_ready_policy p.name timeout (created (policy_id p) ∷ h) ≡ err x
        → PolicyEnding (err e, asked policy n ∷ created (policy_id p) ∷ h)

  -- CreateCRPForCertificate creates at most one policy, from the specification that is derived from
  -- the certificate, and never asks for a deletion. Where the policy was created and the wait for it
  -- fails, an error is returned and not the policy, and the policy stays on the cluster.
  pub create_crp_for_certificate-PolicyEnding :
      PolicyEnding (create_crp_for_certificate E ap cert timeout h)
  unfolding create_crp_for_certificate
  create_crp_for_certificate-PolicyEnding =
      elim (Result-cases (ap.create_policy cert.name (policy_spec cert) h)) [
        | inr (x, e) ↦ rw e (refused _ _)
        | inl (p, e) ↦
            elim (Result-cases
              (ap.wait_for_ready_policy p.name timeout (created (policy_id p) ∷ h))) [
                | inl (p', e') ↦ rw (e, e') (approved p p' _ e e')
                | inr (x, e') ↦ rw (e, e') (left _ x p _ e e')
              ]
      ]
