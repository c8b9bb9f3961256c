-- ===== src/Kube/Clone/Laws.antt =====
-- What the deletion of a clone of pkg/kubecluster/composite/clonedcluster/clonedcluster.go asks for,
-- and what becomes of the backup that a clone starts from.
use backup_tool.Base.{
  ◌≡◌, refl, subst, ℕ, inl, inr, String, Option, none, some, List, [], ◌∷◌, ◌++◌,
}
use backup_tool.Base.Text.{Chars, codes}
use backup_tool.Errors.{Errors, Result, ok, err, wrap, non_nil, Result-cases}
use backup_tool.Exec.{wrap_result}
use backup_tool.Kube.Api.{History, created, deleted, asked, Resource, backup}
use backup_tool.Kube.Building.{delete_held}
use backup_tool.Kube.Certs.{
  Policy, CertManager, ApproverPolicy, certificate_id, policy_id, issuer_id,
}
use backup_tool.Kube.UserCert.{ClusterUserCert, delete_user_cert}
use backup_tool.Kube.Databases.{Backup, cluster_id, backup_id, Cnpg}
use backup_tool.Kube.Clone.{
  ClonedCluster, CloneClusterOptions, settle_backup, await_backup, create_cluster_backup,
}
use backup_tool.Kube.Clone.Delete.{delete_held_user, delete_policies, delete}

-- The parts of a clone in the order of their deletion, each before what it depends on.
abbrev held_id : {A : Type 0} → (A → Resource) → Option A → List Resource
held_id id none = []
held_id id (some a) = id a ∷ []

abbrev user_parts : Option ClusterUserCert → List Resource
user_parts none = []
user_parts (some cuc) = held_id policy_id cuc.crp ++ held_id certificate_id cuc.certificate

abbrev policy_parts : List Policy → List Resource
policy_parts [] = []
policy_parts (p ∷ ps) = policy_id p ∷ policy_parts ps

abbrev pub parts : ClonedCluster → List Resource
parts clone =
    held_id cluster_id clone.cluster
    ++ user_parts clone.streaming_replica_user_certificate
    ++ user_parts clone.postgres_user_certificate
    ++ held_id issuer_id clone.client_ca_issuer
    ++ held_id certificate_id clone.client_ca_certificate
    ++ held_id certificate_id clone.serving_certificate
    ++ policy_parts clone.certificate_request_policies
    ++ held_id issuer_id clone.self_signed_issuer

-- The history after the deletions of `rs`, in their order.
abbrev pub after_deleting : List Resource → History → History
after_deleting [] h = h
after_deleting (r ∷ rs) h = after_deleting rs (deleted r ∷ h)

after_deleting-append :
    (xs ys : List Resource) (h : History)
    → after_deleting (xs ++ ys) h ≡ after_deleting ys (after_deleting xs h)
after_deleting-append [] ys h = refl
after_deleting-append (x ∷ xs) ys h = after_deleting-append xs ys (deleted x ∷ h)

module _ (E : Errors) where
  delete_held-history :
      {A : Type 0} (a : Option A) (id : A → Resource) (service : A → History → Option E.Error)
      (m : String) (h : History)
      → (delete_held E a id service m h).1 ≡ after_deleting (held_id id a) h
  delete_held-history none id service m h = refl
  delete_held-history (some a) id service m h = refl

module _ (E : Errors) (cm : CertManager E.Error) (ap : ApproverPolicy E.Error)
    (cnpg : Cnpg E.Error) where
  delete_held_user-history :
      (m : String) (u : Option ClusterUserCert) (h : History)
      → (delete_held_user E cm ap cnpg m u h).1 ≡ after_deleting (user_parts u) h
  unfolding delete_held_user delete_user_cert
  delete_held_user-history m none h = refl
  delete_held_user-history m (some cuc) h = simp (delete_held-history E, after_deleting-append)

  delete_policies-history :
      (ps : List Policy) (h : History)
      → (delete_policies E cm ap cnpg ps h).1 ≡ after_deleting (policy_parts ps) h
  unfolding delete_policies
  delete_policies-history [] h = refl
  delete_policies-history (p ∷ ps) h = delete_policies-history ps (deleted (policy_id p) ∷ h)

  -- ClonedCluster.Delete asks, whatever fails, for the deletion of every part that the clone holds,
  -- once each and of nothing else: of the cluster, then of the policy and the certificate of each
  -- user, of the client CA's issuer and certificate, of the serving certificate, of the policies,
  -- and last of the self-signed issuer.
  pub delete-order :
      (clone : ClonedCluster) (h : History)
      → (delete E cm ap cnpg clone h).1 ≡ after_deleting (parts clone) h
  unfolding delete
  delete-order clone h = simp (
    delete_held-history E,
    delete_held_user-history,
    delete_policies-history,
    after_deleting-append,
  )

module _ (E : Errors) (cnpg : Cnpg E.Error) where
  -- The namespace of a backup that was created is the one that was asked for.
  abbrev pub KeepsNamespace : Type 0
  KeepsNamespace =
      (ns prefix source : Chars) (h : History) (b : Backup)
      → cnpg.create_backup ns prefix source h ≡ ok b
      → b.namespace ≡ ns

  -- What CreateClusterBackup may end with: no backup could be created; one was, and the wait for it
  -- returned it as ready; or one was, the wait for it failed, and its deletion was asked for.
  pub data BackupEnding (namespace existing : Chars) (timeout : ℕ) (h : History)
      : Result E.Error Backup × History → Type 0 where
    not_created :
        (e x : E.Error) (n : Chars)
        → cnpg.create_backup namespace (existing ++ codes "-cloned") existing h ≡ err x
        → BackupEnding namespace existing timeout h (err e, asked backup n ∷ h)
    ready :
        (b b' : Backup)
        → cnpg.create_backup namespace (existing ++ codes "-cloned") existing h ≡ ok b
        → cnpg.wait_for_ready_backup namespace b.name timeout (created (backup_id b) ∷ h) ≡ ok b'
        → BackupEnding namespace existing timeout h
            (ok b', asked backup b.name ∷ created (backup_id b) ∷ h)
    gone :
        (e x : E.Error) (b : Backup)
        → cnpg.create_backup namespace (existing ++ codes "-cloned") existing h ≡ ok b
        → cnpg.wait_for_ready_backup namespace b.name timeout (created (backup_id b) ∷ h) ≡ err x
        → BackupEnding namespace existing timeout h
            (err e, deleted (backup_id b) ∷ asked backup b.name ∷ created (backup_id b) ∷ h)

  settle_backup-Ending :
      (namespace existing : Chars) (timeout : ℕ) (b : Backup) (h : History)
      (r : Result E.Error Backup)
      → b.namespace ≡ namespace
      → cnpg.create_backup namespace (existing ++ codes "-cloned") existing h ≡ ok b
      → cnpg.wait_for_ready_backup namespace b.name timeout (created (backup_id b) ∷ h) ≡ r
      → BackupEnding namespace existing timeout h (
          settle_backup E cnpg namespace b
            (wrap_result E "failed to wait for backup to be ready" r)
            (asked backup b.name ∷ created (backup_id b) ∷ h))
  unfolding settle_backup
  settle_backup-Ending namespace existing timeout b h (ok b') keeps made waited =
      ready b b' made waited
  settle_backup-Ending namespace existing timeout b h (err x) keeps made waited =
      subst
        (λ ns. BackupEnding namespace existing timeout h (
          err (
              E.aggregate_error (E.wrap_error x "failed to wait for backup to be ready") (
                non_nil E (
                  wrap E
                    (cnpg.delete_backup namespace b.name
                      (asked backup b.name ∷ created (backup_id b) ∷ h))
                    "failed to delete backup"
                  ∷ []))),
          deleted (record { kind = backup; namespace = ns; name = b.name })
              ∷ asked backup b.name
              ∷ created (backup_id b)
              ∷ h,
        ))
        keeps (gone _ x b made waited)

  -- CreateClusterBackup makes at most one backup. It returns a backup exactly where the wait for the
  -- one that it created returned that, and then nothing was deleted; it returns an error where no
  -- backup could be created, or where the wait failed, and then the deletion of the backup has been
  -- asked for. The API server is taken to create a backup in the namespace that it was asked for.
  pub create_cluster_backup-BackupEnding :
      KeepsNamespace
      → (namespace existing : Chars) (opts : CloneClusterOptions) (h : History)
      → BackupEnding namespace existing opts.wait_for_backup_timeout h
          (create_cluster_backup E cnpg namespace existing opts h)
  unfolding create_cluster_backup await_backup settle_backup
  create_cluster_backup-BackupEnding keeps namespace existing opts h =
      let prefix = existing ++ codes "-cloned" in
      elim (Result-cases (cnpg.create_backup namespace prefix existing h)) [
        | inr (x, e) ↦ rw e (not_created _ x _ e)
        | inl (b, e) ↦ rw e (
            settle_backup-Ending namespace existing opts.wait_for_backup_timeout b h _
              (keeps namespace prefix existing h b e) e refl)
      ]
