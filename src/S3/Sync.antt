-- ===== src/S3/Sync.antt =====
-- LocalRuntime.Sync of pkg/s3/transfer.go: the direction of a sync. The state is the local directory
-- and the bucket.
use backup_tool.Base.{ℕ, Option, none, some}
use backup_tool.Base.Text.{Chars}
use backup_tool.Errors.{Errors, Result, ok, err, wrap}
use backup_tool.S3.Location.{Url, S3Path, parse_s3_path}
use backup_tool.S3.Disk.{Disk, Io}
use backup_tool.S3.Download.{Client, download}
use backup_tool.S3.Upload.{Source, Store, upload}

-- What a sync calls: url.Parse, package os on the local directory, and the client on the bucket that
-- a path names.
pub record Services (E : Errors) (B : Type 0) : Type 0 where
  pub url_parse : Chars → Result E.Error Url
  pub io : Chars → Io E
  pub source : Chars → Source E
  pub client : S3Path → B → Client E
  pub store : S3Path → Store E B

module _ (E : Errors) {B : Type 0} (s : Services E B) where
  -- The switch of Sync.
  unfoldable pub dispatch :
      Chars → Chars → ℕ → Option S3Path → Option S3Path → Disk → B → Option E.Error × Disk × B
  dispatch src dest as_of (some from) none disk b =
      let (e, disk') = download (s.io dest) (s.client from b) from as_of disk in
      (wrap E e "failed to download", disk', b)
  dispatch src dest as_of none (some onto) disk b =
      let (e, b') = upload (s.source src) (s.store onto) onto disk b in
      (wrap E e "failed to upload", disk, b')
  dispatch src dest as_of (some _) (some _) disk b =
      (some (E.errorf "s3-to-s3 sync is not supported"), disk, b)
  dispatch src dest as_of none none disk b =
      (some (E.errorf "local-to-local sync is not supported"), disk, b)

  -- Sync
  unfoldable pub sync : Chars → Chars → ℕ → Disk → B → Option E.Error × Disk × B
  unfolding dispatch
  sync src dest as_of disk b = elim (parse_s3_path E s.url_parse src) [
    | err e ↦ (some (E.wrap_error e "failed to parse source path"), disk, b)
    | ok from ↦ elim (parse_s3_path E s.url_parse dest) [
      | err e ↦ (some (E.wrap_error e "failed to parse destination path"), disk, b)
      | ok onto ↦ dispatch src dest as_of from onto disk b
    ]
  ]
