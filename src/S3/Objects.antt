-- ===== src/S3/Objects.antt =====
-- The data of pkg/s3/transfer.go and its listings. What a pager of the SDK yields is a list of
-- pages, each of which may fail; the pointers of the SDK's records are options. A time is a number
-- and 0 is Go's zero time.
use backup_tool.Base.{ℕ, Option, none, some, List, [], ◌∷◌, ◌++◌, if◌then◌else◌, is_empty, list_eq}
use backup_tool.Base.Text.{Chars, codes, has_suffix, trim_prefix}
use backup_tool.Errors.{Errors, Result, ok, err}

-- remoteObject
pub record RemoteObject : Type 0 where
  pub key : Chars
  pub rel_path : Chars
  pub version_id : Option Chars
  pub size : ℕ
  pub last_modified : ℕ

-- types.Object
pub record Object : Type 0 where
  pub key : Option Chars
  pub size : Option ℕ
  pub last_modified : Option ℕ

-- types.ObjectVersion
pub record ObjectVersion : Type 0 where
  pub key : Option Chars
  pub last_modified : Option ℕ
  pub size : Option ℕ
  pub version_id : Option Chars

-- types.DeleteMarkerEntry
pub record DeleteMarkerEntry : Type 0 where
  pub key : Option Chars
  pub last_modified : Option ℕ

-- aws.ToString
abbrev pub to_string : Option Chars → Chars
to_string none = []
to_string (some s) = s

-- aws.ToInt64, aws.ToTime
abbrev pub to_number : Option ℕ → ℕ
to_number none = 0
to_number (some n) = n

-- relativeKey: empty for a key that is to be skipped
unfoldable pub relative_key : Chars → Chars → Chars
relative_key prefix key =
    if has_suffix key (codes "/") then [] else trim_prefix (trim_prefix key prefix) (codes "/")

-- The loop over the objects of one page in listLatestObjects.
unfoldable pub page_objects : Chars → List Object → List RemoteObject
page_objects prefix [] = []
page_objects prefix (o ∷ os) =
    let key = to_string o.key in
    let rel = relative_key prefix key in
    let rest = page_objects prefix os in
    let object : RemoteObject = record {
      key = key;
      rel_path = rel;
      version_id = none;
      size = to_number o.size;
      last_modified = to_number o.last_modified;
    } in
    if is_empty rel then rest else object ∷ rest

module _ (E : Errors) where
  -- listLatestObjects
  unfoldable pub list_latest_objects :
      Chars → List (Result E.Error (List Object)) → Result E.Error (List RemoteObject)
  unfolding page_objects
  list_latest_objects prefix [] = ok []
  list_latest_objects prefix (err e ∷ pages) = err (E.wrap_error e "failed to list objects")
  list_latest_objects prefix (ok page ∷ pages) = elim (list_latest_objects prefix pages) [
    | err e ↦ err e
    | ok rest ↦ ok (page_objects prefix page ++ rest)
  ]

  -- The paging loop of listObjectsAsOf.
  unfoldable pub collect_versions :
      List (Result E.Error (List ObjectVersion × List DeleteMarkerEntry))
      → Result E.Error (List ObjectVersion × List DeleteMarkerEntry)
  collect_versions [] = ok ([], [])
  collect_versions (err e ∷ pages) = err (E.wrap_error e "failed to list object versions")
  collect_versions (ok (versions, markers) ∷ pages) = elim (collect_versions pages) [
    | err e ↦ err e
    | ok (more_versions, more_markers) ↦ ok (versions ++ more_versions, markers ++ more_markers)
  ]
