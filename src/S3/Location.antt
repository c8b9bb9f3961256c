-- ===== src/S3/Location.antt =====
-- pkg/s3/s3path.go: s3:// URLs. `url.Parse` is a parameter.
use backup_tool.Base.{Option, none, some, [], if◌then◌else◌, not, ◌==◌, list_eq}
use backup_tool.Base.Text.{Chars, codes, trim_prefix}
use backup_tool.Errors.{Errors, Result, ok, err}

-- url.URL, as far as it is read
pub record Url : Type 0 where
  pub scheme : Chars
  pub host : Chars
  pub path : Chars

-- s3Path
pub record S3Path : Type 0 where
  pub bucket : Chars
  pub prefix : Chars

module _ (E : Errors) (url_parse : Chars → Result E.Error Url) where
  parse_url : Url → Result E.Error (Option S3Path)
  parse_url u =
      if not (u.scheme == codes "s3")
      then ok none
      else if u.host == []
      then err (E.errorf "s3 URL is missing a bucket name")
      else ok (some (record { bucket = u.host; prefix = trim_prefix u.path (codes "/") }))

  -- parseS3Path: `ok none` is the result without error for which isS3 is false.
  unfoldable pub parse_s3_path : Chars → Result E.Error (Option S3Path)
  unfolding parse_url
  parse_s3_path raw = elim (url_parse raw) [
    | err e ↦ err (E.wrap_error e "failed to parse as a URL")
    | ok u ↦ parse_url u
  ]
