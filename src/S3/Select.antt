-- ===== src/S3/Select.antt =====
-- selectObjectsAsOf of pkg/s3/transfer.go: the objects that were current at an instant.
pub mod Newest
pub mod Spec
use backup_tool.Base.{
  ℕ, Bool, true, false, ◌||◌, Option, none, some, List, [], ◌∷◌, ◌++◌, if◌then◌else◌, ltb, is_empty,
  map, list_eq,
}
use backup_tool.Base.Dict.{Dict, lookup, insert}
use backup_tool.Base.Text.{Chars}
use backup_tool.Errors.{Errors, Result, ok, err}
use backup_tool.S3.Objects.{
  RemoteObject, ObjectVersion, DeleteMarkerEntry, to_string, to_number, relative_key,
  collect_versions,
}

pub record Candidate : Type 0 where
  pub last_modified : ℕ
  pub deleted : Bool
  pub size : ℕ
  pub version_id : Option Chars

-- A key with its candidate.
abbrev pub Entry : Type 0
Entry = Chars × Candidate

-- the closure `consider`
unfoldable pub consider : ℕ → Dict Chars Candidate → Entry → Dict Chars Candidate
consider as_of current (key, c) =
    if ltb as_of c.last_modified then current else elim (lookup key current) [
      | none ↦ insert key c current
      | some existing ↦
          if ltb existing.last_modified c.last_modified then insert key c current else current
    ]

unfoldable pub consider_all : ℕ → List Entry → Dict Chars Candidate → Dict Chars Candidate
unfolding consider
consider_all as_of [] current = current
consider_all as_of (e ∷ es) current = consider_all as_of es (consider as_of current e)

abbrev pub version_entry : ObjectVersion → Entry
version_entry v = (
  to_string v.key,
  record {
    last_modified = to_number v.last_modified;
    deleted = false;
    size = to_number v.size;
    version_id = v.version_id;
  },
)

abbrev pub marker_entry : DeleteMarkerEntry → Entry
marker_entry m = (
  to_string m.key,
  record { last_modified = to_number m.last_modified; deleted = true; size = 0; version_id = none },
)

-- The versions are considered first, then the delete markers.
abbrev pub entries : List ObjectVersion → List DeleteMarkerEntry → List Entry
entries versions markers = map version_entry versions ++ map marker_entry markers

-- The last loop: what is deleted, or has no relative key, is left out.
unfoldable pub selected : Chars → Dict Chars Candidate → List RemoteObject
selected prefix [] = []
selected prefix ((key, c) ∷ current) =
    let rel = relative_key prefix key in
    let rest = selected prefix current in
    let object : RemoteObject = record {
      key = key;
      rel_path = rel;
      version_id = c.version_id;
      size = c.size;
      last_modified = c.last_modified;
    } in
    if c.deleted || is_empty rel then rest else object ∷ rest

-- selectObjectsAsOf
unfoldable pub select_objects_as_of :
    List ObjectVersion → List DeleteMarkerEntry → Chars → ℕ → List RemoteObject
unfolding consider_all selected
select_objects_as_of versions markers prefix as_of =
    selected prefix (consider_all as_of (entries versions markers) [])

module _ (E : Errors) where
  -- listObjectsAsOf
  unfoldable pub list_objects_as_of :
      Chars
      → ℕ
      → List (Result E.Error (List ObjectVersion × List DeleteMarkerEntry))
      → Result E.Error (List RemoteObject)
  unfolding collect_versions select_objects_as_of
  list_objects_as_of prefix as_of pages = elim (collect_versions E pages) [
    | err e ↦ err e
    | ok (versions, markers) ↦ ok (select_objects_as_of versions markers prefix as_of)
  ]
