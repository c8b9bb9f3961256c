-- ===== src/Actions/Bucket/Sides.antt =====
-- Which side of the sync of a bucket is read, and as of when (s3sync.go).
use backup_tool.Base.{
  ℕ, List, subst, sym, ◌≡◌, refl, ap, ◌∙◌, true, In, inl, inr, ◌++◌, [], ◌∷◌, arith,
}
use backup_tool.Base.Text.{Chars}
use backup_tool.Errors.{Errors, ok, Result-cases}
use backup_tool.Kube.Building.{Building}
use backup_tool.Kube.Api.{History, pod, asked}
use backup_tool.Disaster.Apps.{Direction, direction_download, direction_upload}
use backup_tool.Actions.{Volume, pvc_volume, InstanceOptions}
use backup_tool.Actions.Bucket.{
  S3SyncClients, S3Sync, set_bucket_point, setup_bucket, execute_bucket,
}

module _ (E : Errors) (k : S3SyncClients E.Error) where
  -- What a successful execution after a successful set-up called, from the history `h` to `h'`: one
  -- sync, on its destination, and nothing else.
  pub data Syncs (s : S3Sync) (mount : Chars) (point : ℕ) (h h' : History) : Type 0 where
    captured :
        s.direction ≡ direction_download
        → k.s3_sync s.credentials s.s3_path
            (k.naming.join (mount ∷ s.backup_dir_rel_path ∷ []))
            point
            h
          ≡ ok tt
        → h' ≡ asked pod (k.naming.join (mount ∷ s.backup_dir_rel_path ∷ [])) ∷ h
        → Syncs s mount point h h'
    restored :
        s.direction ≡ direction_upload
        → k.s3_sync s.credentials (k.naming.join (mount ∷ s.backup_dir_rel_path ∷ [])) s.s3_path 0 h
          ≡ ok tt
        → h' ≡ asked pod s.s3_path ∷ h
        → Syncs s mount point h h'

  In-end : (v : Volume) (volumes : List Volume) → In v (volumes ++ v ∷ [])
  In-end v [] = inl refl
  In-end v (w ∷ volumes) = inr (In-end v volumes)

  -- The call of an execution that succeeds.
  executed_sync :
      (b b' : Building S3Sync) (d : Direction)
      → b.held.direction ≡ d
      → execute_bucket E k b ≡ (ok tt, b')
      → Syncs b.held b.held.dr_volume_mount b.held.consistency_point b.history b'.history
  unfolding execute_bucket
  executed_sync b b' direction_download e h =
      let s = b.held in
      let path = k.naming.join (s.dr_volume_mount ∷ s.backup_dir_rel_path ∷ []) in
      elim (Result-cases (k.s3_sync s.credentials s.s3_path path s.consistency_point b.history)) [
        | inl (u, done) ↦ captured e done (ground (arith, e, done, h))
        | inr (x, failed) ↦ absurd (ground (arith, e, failed, h))
      ]
  executed_sync b b' direction_upload e h =
      let s = b.held in
      let path = k.naming.join (s.dr_volume_mount ∷ s.backup_dir_rel_path ∷ []) in
      elim (Result-cases (k.s3_sync s.credentials path s.s3_path 0 b.history)) [
        | inl (u, done) ↦ restored e done (ground (arith, e, done, h))
        | inr (x, failed) ↦ absurd (ground (arith, e, failed, h))
      ]

  set_up :
      (opts opts' : InstanceOptions) (b b' : Building S3Sync)
      → setup_bucket E k opts b ≡ (ok opts', b')
      → (opts'.volumes ≡ opts.volumes ++ pvc_volume b.held.dr_vol_name b'.held.dr_volume_mount ∷ [])
        × (b'.held ≡ record b.held { dr_volume_mount = b'.held.dr_volume_mount; is_setup = true })
  unfolding setup_bucket
  set_up opts opts' b b' h = ground (arith, h)

  -- Only what the call reads matters.
  Syncs-same :
      (s s' : S3Sync) (mount : Chars) (point : ℕ) (h h' : History)
      → s'.direction ≡ s.direction
      → s'.credentials ≡ s.credentials
      → s'.s3_path ≡ s.s3_path
      → s'.backup_dir_rel_path ≡ s.backup_dir_rel_path
      → Syncs s' mount point h h'
      → Syncs s mount point h h'
  Syncs-same s s' mount point h h' d c p r (captured e done once) =
      captured (sym d ∙ e) (rw (← c, ← p, ← r) done) (rw (← r) once)
  Syncs-same s s' mount point h h' d c p r (restored e done once) =
      restored (sym d ∙ e) (rw (← c, ← p, ← r) done) (rw (← p) once)

  -- If an action is given the point, set up and executed, and all succeeds, then the DR volume is
  -- mounted in the tool instance, and the only call of the execution is one sync with the directory of
  -- the slot below that mount: a capture read the bucket into it as of the point, and a restore wrote
  -- it to the bucket with no instant.
  pub execute_bucket-Syncs :
      (opts opts' : InstanceOptions) (point : ℕ) (b b' b'' : Building S3Sync)
      → setup_bucket E k opts (set_bucket_point point b) ≡ (ok opts', b')
      → execute_bucket E k b' ≡ (ok tt, b'')
      → Syncs b.held b'.held.dr_volume_mount point b'.history b''.history
        × In (pvc_volume b.held.dr_vol_name b'.held.dr_volume_mount) opts'.volumes
  unfolding set_bucket_point
  execute_bucket-Syncs opts opts' point b b' b'' h run =
      let (volumes, same) = set_up opts opts' (set_bucket_point point b) b' h in
      let syncs = executed_sync b' b'' b'.held.direction refl run in
      let at_point : b'.held.consistency_point ≡ point = ap (λ s. s.consistency_point) same in
      (
        Syncs-same b.held b'.held b'.held.dr_volume_mount point b'.history b''.history
            (ap (λ s. s.direction) same) (ap (λ s. s.credentials) same) (ap (λ s. s.s3_path) same)
            (ap (λ s. s.backup_dir_rel_path) same)
            (subst (λ p. Syncs b'.held b'.held.dr_volume_mount p b'.history b''.history) at_point
              syncs),
        subst (In (pvc_volume b.held.dr_vol_name b'.held.dr_volume_mount)) (sym volumes)
            (In-end (pvc_volume b.held.dr_vol_name b'.held.dr_volume_mount) opts.volumes),
      )
