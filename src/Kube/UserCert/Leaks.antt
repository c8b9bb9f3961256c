-- ===== src/Kube/UserCert/Leaks.antt =====
-- NewClusterUserCert of pkg/kubecluster/composite/clusterusercert/clusterusercert.go loses no
-- certificate.
use backup_tool.Base.{
  ℕ, ◌≡◌, refl, sym, ◌∙◌, subst, ◌⊎◌, inl, inr, String, Bool, true, false, none, some, ◌∷◌, ◌++◌,
  arith,
}
use backup_tool.Base.Text.{Chars, codes}
use backup_tool.Errors.{Errors, Result, ok, err}
use backup_tool.Helpers.{clean_name}
use backup_tool.Exec.{wrapping, pure}
use backup_tool.Exec.Ensures.{Ends, Ensures, Ensures-bind, Ensures-wrapping, Ensures-given}
use backup_tool.Kube.Api.{
  Kind, certificate, created, asked, History, Resource, creating, asking, note_created,
}
use backup_tool.Kube.Building.{Building, calling, hold}
use backup_tool.Kube.Certs.{
  Certificate, CertManager, ApproverPolicy, IssuerReference, Policy, certificate_id, policy_id,
  KeepsNames,
}
use backup_tool.Kube.Policies.{create_crp_for_certificate}
use backup_tool.Kube.Policies.Outcome.{
  PolicyEnding, refused, approved, left, create_crp_for_certificate-PolicyEnding,
}
use backup_tool.Kube.UserCert.{
  ClusterUserCert, NewClusterUserCertOpts, user_cert_options, approve_user_cert, user_cert_steps,
}
use backup_tool.Kube.Leaks.{Tracks, NoLeak, Tracks-asked, Tracks-policy, Tracks-created}

module _ {E : Errors} {ap : ApproverPolicy E.Error} {cert : Certificate} {timeout : ℕ}
    {h : History} where
  -- The creation of a policy leaves what is tracked tracked.
  pub Tracks-crp :
      (held : Resource → Type 0) (h₀ : History) (r : Result E.Error Policy × History)
      → PolicyEnding E ap cert timeout h r
      → Tracks held h₀ h
      → Tracks held h₀ r.1
  Tracks-crp held h₀ _ (refused e n) t = Tracks-asked held h₀ h t _ n
  Tracks-crp held h₀ _ (approved p p' n _ _) t =
      Tracks-asked held h₀ (created (policy_id p) ∷ h) (Tracks-policy held h₀ h t p) _ n
  Tracks-crp held h₀ _ (left e x p n _ _) t =
      Tracks-asked held h₀ (created (policy_id p) ∷ h) (Tracks-policy held h₀ h t p) _ n

module _ (E : Errors) (id : Resource) (h₀ : History) where
  -- The one certificate is held, and it is the only thing that could be lost.
  abbrev pub Holding : Building ClusterUserCert → Type 0
  Holding b =
      ((c : Certificate) × (b.held.certificate ≡ some c) × (certificate_id c ≡ id))
      × Tracks (λ r. r ≡ id) h₀ b.history

  abbrev pub Empty : Building ClusterUserCert → Type 0
  Empty b = (b.held.certificate ≡ none) × NoLeak h₀ b.history

  -- What holds where a step fails.
  abbrev pub Failed : Building ClusterUserCert → Type 0
  Failed b = Holding b ⊎ Empty b

  module _ {A : Type 0} (k : Kind) (n : Chars) where
    asked_keeps :
        (b : Building ClusterUserCert)
        → Holding b
        → (r : Result E.Error A)
        → Ends (λ _. Holding) Failed (r, record b { history = asked k n ∷ b.history })
    asked_keeps b p (ok a) = (p.0, Tracks-asked _ h₀ b.history p.1 k n)
    asked_keeps b p (err e) = inl (p.0, Tracks-asked _ h₀ b.history p.1 k n)

    -- A call that reads or waits.
    asking_keeps :
        (service : History → Result E.Error A) (m : String)
        → Ensures Holding (wrapping E m (calling (asking k n service))) (λ _. Holding) Failed
    asking_keeps service m =
        Ensures-wrapping E m (calling (asking k n service))
          (record { ends = λ b p. asked_keeps b p (service b.history) })

  module _ (k : Kind) (n : Chars) where
    certificate_answered :
        (b : Building ClusterUserCert)
        → Holding b
        → (r : Result E.Error Certificate) → ((c : Certificate) → r ≡ ok c → certificate_id c ≡ id)
        → Ends
            (λ c b'. (certificate_id c ≡ id) × Holding b')
            Failed
            (r, record b { history = asked k n ∷ b.history })
    certificate_answered b p (ok a) same = (same a refl, (p.0, Tracks-asked _ h₀ b.history p.1 k n))
    certificate_answered b p (err e) same = inl (p.0, Tracks-asked _ h₀ b.history p.1 k n)

    -- A call that returns the certificate.
    asking_certificate :
        (service : History → Result E.Error Certificate) (m : String)
        → ((h : History) (c : Certificate) → service h ≡ ok c → certificate_id c ≡ id)
        → Ensures Holding
            (wrapping E m (calling (asking k n service)))
            (λ c b. (certificate_id c ≡ id) × Holding b)
            Failed
    asking_certificate service m same =
        Ensures-wrapping E m (calling (asking k n service))
          (record { ends = λ b p. certificate_answered b p (service b.history) (same b.history) })

  hold_certificate :
      (c : Certificate)
      → certificate_id c ≡ id
      → Ensures {X = E.Error} Holding
          (hold (λ cuc. record cuc { certificate = some c }))
          (λ _. Holding)
          Failed
  hold_certificate c same = record { ends = λ b p. ((c, refl, same), p.1) }

  hold_crp :
      (crp : Policy)
      → Ensures {X = E.Error} Holding
          (hold (λ cuc. record cuc { crp = some crp }))
          (λ _. Holding)
          Failed
  hold_crp crp = record { ends = λ b p. p }

  module _ (ap : ApproverPolicy E.Error) (cert : Certificate) (timeout : ℕ) where
    crp_created :
        (b : Building ClusterUserCert)
        → Holding b
        → (r : Result E.Error Policy × History) → Tracks (λ r. r ≡ id) h₀ r.1
        → Ends (λ _. Holding) Failed (r.0, record b { history = r.1 })
    crp_created b p (ok a, h) t = (p.0, t)
    crp_created b p (err e, h) t = inl (p.0, t)

    creating_crp :
        (m : String)
        → Ensures Holding
            (wrapping E m (calling (create_crp_for_certificate E ap cert timeout)))
            (λ _. Holding)
            Failed
    creating_crp m =
        Ensures-wrapping E m (calling (create_crp_for_certificate E ap cert timeout)) (record {
          ends = λ b p. crp_created b p (create_crp_for_certificate E ap cert timeout b.history) (
              Tracks-crp (λ r. r ≡ id) h₀ _
                (create_crp_for_certificate-PolicyEnding E ap cert timeout b.history) p.1);
        })

  -- The creation of the certificate.
  created_answered :
      (b : Building ClusterUserCert)
      → Empty b
      → (n : Chars) (r : Result E.Error Certificate)
      → ((c : Certificate) → r ≡ ok c → certificate_id c ≡ id)
      → Ends
          (λ c b'. (certificate_id c ≡ id) × Tracks (λ r. r ≡ id) h₀ b'.history)
          Failed
          (r, record b { history = note_created certificate n certificate_id r b.history })
  created_answered b p n (ok a) same = (
    same a refl,
    subst (λ i. Tracks (λ r. r ≡ id) h₀ (created i ∷ b.history)) (sym (same a refl))
        (Tracks-created h₀ b.history id p.1),
  )
  created_answered b p n (err e) same =
      inr (p.0, Tracks-asked (λ r. ⊥) h₀ b.history p.1 certificate n)

  creating_certificate :
      (n : Chars) (service : History → Result E.Error Certificate) (m : String)
      → ((h : History) (c : Certificate) → service h ≡ ok c → certificate_id c ≡ id)
      → Ensures Empty
          (wrapping E m (calling (creating certificate n certificate_id service)))
          (λ c b. (certificate_id c ≡ id) × Tracks (λ r. r ≡ id) h₀ b.history)
          Failed
  creating_certificate n service m same =
      Ensures-wrapping E m (calling (creating certificate n certificate_id service))
        (record { ends = λ b p. created_answered b p n (service b.history) (same b.history) })

  hold_first :
      (c : Certificate)
      → certificate_id c ≡ id
      → Ensures {X = E.Error}
          (λ b. Tracks (λ r. r ≡ id) h₀ b.history)
          (hold (λ cuc. record cuc { certificate = some c }))
          (λ _. Holding)
          Failed
  hold_first c same = record { ends = λ b p. ((c, refl, same), p) }

  returning :
      (c : Certificate)
      → certificate_id c ≡ id
      → Ensures {X = E.Error} Holding (pure c) (λ d b. (certificate_id d ≡ id) × Holding b) Failed
  returning c same = record { ends = λ b p. (same, p) }

same_id :
    (c d : Certificate)
    → (c.namespace ≡ d.namespace) × (c.name ≡ d.name)
    → certificate_id c ≡ certificate_id d
same_id c d h = ground (arith, h)

module _ (E : Errors) (cm : CertManager E.Error) (ap : ApproverPolicy E.Error)
    (keeps : KeepsNames cm) where
  module _ (id : Resource) (h₀ : History) where
    approve_keeps :
        (opts : NewClusterUserCertOpts) (cert : Certificate) (enforced : Bool)
        → certificate_id cert ≡ id
        → Ensures
            (Holding E id h₀)
            (approve_user_cert E cm ap opts cert enforced)
            (λ c b. (certificate_id c ≡ id) × Holding E id h₀ b)
            (Failed E id h₀)
    unfolding approve_user_cert
    approve_keeps opts cert false same = returning E id h₀ cert same
    approve_keeps opts cert true same =
        Ensures-bind _ _
          (creating_crp E id h₀ ap cert opts.wait_for_crp_timeout
            "failed to create CertificateRequestPolicy for user cert")
          (λ crp. Ensures-bind _ _ (hold_crp E id h₀ crp) (λ _.
            Ensures-bind _ _
              (asking_certificate E id h₀ certificate cert.name
                (cm.reissue_certificate cert.namespace cert.name) "failed to re-issue user cert"
                (λ h c e. same_id c cert (keeps.of_reissue _ _ h c e) ∙ same))
              (λ c. Ensures-given (λ same'.
                Ensures-bind _ _ (hold_certificate E id h₀ c same')
                  (λ _. returning E id h₀ c same')))))

  module _ (namespace username : Chars) (issuer_ref : IssuerReference) (cluster_name : Chars)
      (opts : NewClusterUserCertOpts) where
    abbrev user_cert_id : Resource
    user_cert_id = record {
      kind = certificate;
      namespace = namespace;
      name = clean_name (cluster_name ++ codes "-" ++ username ++ codes "-user");
    }

    pub steps_keep :
        (h₀ : History)
        → Ensures
            (Empty E user_cert_id h₀)
            (user_cert_steps E cm ap namespace username issuer_ref cluster_name opts)
            (λ _. Holding E user_cert_id h₀)
            (Failed E user_cert_id h₀)
    unfolding user_cert_steps
    steps_keep h₀ =
        Ensures-bind _ _
          (creating_certificate E user_cert_id h₀ user_cert_id.name
            (cm.create_certificate namespace user_cert_id.name issuer_ref
              (user_cert_options username))
            "failed to create user cert" (λ h c e. named c (keeps.of_create _ _ _ _ h c e)))
          (λ cert. Ensures-given (λ same.
            Ensures-bind _ _ (hold_first E user_cert_id h₀ cert same) (λ _.
              Ensures-bind _ _
                (asking_keeps E user_cert_id h₀ certificate user_cert_id.name ap.is_available
                  "failed to determine whether approver-policy is enforcing")
                (λ enforced.
                  Ensures-bind _ _ (approve_keeps user_cert_id h₀ opts cert enforced same)
                    (λ approved. Ensures-given (λ same'.
                      Ensures-bind _ _
                        (asking_certificate E user_cert_id h₀ certificate approved.name
                          (cm.wait_for_ready_certificate approved.namespace approved.name
                            opts.wait_for_cert_timeout)
                          "failed to wait for user cert to be ready"
                          (λ h c e. same_id c approved (keeps.of_wait _ _ _ h c e) ∙ same'))
                        (λ ready.
                          Ensures-given
                            (λ same₂. hold_certificate E user_cert_id h₀ ready same₂))))))))
      where
        named :
            (c : Certificate)
            → (c.namespace ≡ user_cert_id.namespace) × (c.name ≡ user_cert_id.name)
            → certificate_id c ≡ user_cert_id
        named c h = ground (arith, h)
