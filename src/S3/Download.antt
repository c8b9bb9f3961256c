-- ===== src/S3/Download.antt =====
-- The download of pkg/s3/transfer.go: an S3 prefix to a local directory. The transfers run
-- concurrently; here they run one after the other, in the order of the listing. As in an
-- errgroup, all of them run, and the first error is returned.
pub mod Single
pub mod Mirror
use backup_tool.Base.{
  ℕ, Bool, true, false, not, ◌&&◌, ◌||◌, Option, none, some, List, [], ◌∷◌, if◌then◌else◌, ltb,
  ◌==◌, nat_eq, list_eq, map,
}
use backup_tool.Base.Dict.{Dict, lookup, insert}
use backup_tool.Base.Text.{Chars, codes}
use backup_tool.Errors.{Errors, Result, ok, err, wrap, new_aggregate}
use backup_tool.S3.Location.{S3Path}
use backup_tool.S3.Objects.{
  RemoteObject, Object, ObjectVersion, DeleteMarkerEntry, list_latest_objects,
}
use backup_tool.S3.Select.{list_objects_as_of}
use backup_tool.S3.Disk.{
  Node, regular, Disk, Root, folder, Io, Stat, found, not_exist, failed, stat, size_of, mod_time,
  remove_extraneous_local_files,
}

-- What a response body yields: its bytes up to its end or to an error.
pub record Body (E : Errors) : Type 0 where
  pub bytes : List ℕ
  pub fault : Option E.Error

-- The bucket as the client shows it.
pub record Client (E : Errors) : Type 0 where
  -- the status in the answer of GetBucketVersioning
  pub get_bucket_versioning : Result E.Error Chars
  pub object_pages : List (Result E.Error (List Object))
  pub version_pages : List (Result E.Error (List ObjectVersion × List DeleteMarkerEntry))
  pub get_object : Chars → Option Chars → Result E.Error (Body E)

-- os.IsNotExist of the error of os.Stat. That error is nil if something was found.
abbrev pub is_not_exist : {X : Type 0} → Stat X → Bool
is_not_exist not_exist = true
is_not_exist _ = false

abbrev pub stat_error : {X : Type 0} → Stat X → Option X
stat_error (failed e) = some e
stat_error _ = none

-- The first condition of downloadObject.
abbrev pub is_up_to_date : {X : Type 0} → RemoteObject → Stat X → Bool
is_up_to_date obj (found n) = size_of n == obj.size && not (ltb (mod_time n) obj.last_modified)
is_up_to_date obj _ = false

abbrev pub put_node : Chars → Node → Disk → Disk
put_node p n disk = record disk { nodes = insert p n disk.nodes }

module _ {E : Errors} (io : Io E) (client : Client E) where
  -- The end of downloadObject, once the copy and the file's close have returned.
  finish_file : Chars → RemoteObject → List ℕ → Option E.Error → Disk → Option E.Error × Disk
  finish_file target obj bytes copy_close disk = elim copy_close [
    | some e ↦ (some e, disk)
    | none ↦ elim (io.chtimes_fault target) [
      | some e ↦ (some (E.wrap_error e "failed to set modification time"), disk)
      | none ↦ (none, put_node target (regular bytes obj.last_modified) disk)
    ]
  ]

  -- From os.Create on.
  write_file : Chars → RemoteObject → Body E → Disk → Option E.Error × Disk
  unfolding finish_file
  write_file target obj body disk = elim (io.create_fault target) [
    | some e ↦ (some (E.wrap_error e "failed to create"), disk)
    | none ↦
        let (bytes, write_fault) = io.copy target body.bytes in
        let copy_fault : Option E.Error = elim write_fault [
          | some e ↦ some e
          | none ↦ body.fault
        ] in
        finish_file target obj bytes
          (new_aggregate E (
            wrap E copy_fault "failed to write object"
            ∷ wrap E (io.close_fault target) "failed to close"
            ∷ []))
          (put_node target (regular bytes (io.created_at target)) disk)
  ]

  -- From os.MkdirAll on. The directories that it makes are not among the nodes, but for the root.
  make_file : Chars → RemoteObject → Body E → Disk → Option E.Error × Disk
  unfolding write_file
  make_file target obj body disk = elim (io.mkdir_fault target) [
    | some e ↦ (some (E.wrap_error e "failed to create parent directory"), disk)
    | none ↦ write_file target obj body (record disk { root = folder })
  ]

  -- The conditions of downloadObject. The second is met as well if something was found that is
  -- not up to date, and then wraps a nil error.
  fetch_object : RemoteObject → Chars → Stat E.Error → Disk → Option E.Error × Disk
  unfolding make_file
  fetch_object obj target info disk =
      let fetched : Option E.Error × Disk = elim (client.get_object obj.key obj.version_id) [
        | err e ↦ (some (E.wrap_error e "failed to get object"), disk)
        | ok body ↦ make_file target obj body disk
      ] in
      if is_up_to_date obj info
      then (none, disk)
      else if not (is_not_exist info)
      then (wrap E (stat_error info) "failed to stat", disk)
      else fetched

  -- downloadObject
  unfoldable pub download_object : RemoteObject → Disk → Option E.Error × Disk
  unfolding fetch_object stat
  download_object obj disk =
      let target = io.join obj.rel_path in fetch_object obj target (stat io target disk) disk

  -- The transfers and what g.Wait returns.
  unfoldable pub download_each : List RemoteObject → Disk → Option E.Error × Disk
  download_each [] disk = (none, disk)
  download_each (obj ∷ objs) disk =
      let (e, disk') = download_object obj disk in
      let (later, disk₂) = download_each objs disk' in
      (elim e [ some first ↦ some first | none ↦ later ], disk₂)

  -- bucketVersioningEnabled
  unfoldable pub bucket_versioning_enabled : Result E.Error Bool
  bucket_versioning_enabled = elim client.get_bucket_versioning [
    | err e ↦ err (E.wrap_error e "failed to get versioning configuration")
    | ok status ↦ ok (status == codes "Enabled")
  ]

  -- The choice of download between the two listings: a bucket whose versioning is off, or cannot be
  -- determined, is listed in its latest state.
  unfoldable pub is_point_in_time : ℕ → Bool
  unfolding bucket_versioning_enabled
  is_point_in_time as_of =
      if as_of == 0
      then false
      else elim bucket_versioning_enabled [ err _ ↦ false | ok enabled ↦ enabled ]

  unfoldable pub list_objects : S3Path → ℕ → Result E.Error (List RemoteObject)
  unfolding is_point_in_time
  list_objects src as_of =
      if is_point_in_time as_of
      then list_objects_as_of E src.prefix as_of client.version_pages
      else list_latest_objects E src.prefix client.object_pages

  abbrev pub kept_paths : List RemoteObject → List Chars
  kept_paths = map (λ obj. obj.rel_path)

  -- The transfers of download, then the pruning.
  unfoldable pub transfer : List RemoteObject → Disk → Option E.Error × Disk
  unfolding download_each
  transfer objects disk =
      let (e, disk') = download_each objects disk in
      let (e', disk₂) = remove_extraneous_local_files io (kept_paths objects) disk' in
      elim e [
        | some e ↦ (some (E.wrap_error e "failed to download one or more objects"), disk')
        | none ↦ (wrap E e' "failed to prune stale files", disk₂)
      ]

  -- download
  unfoldable pub download : S3Path → ℕ → Disk → Option E.Error × Disk
  unfolding list_objects transfer
  download src as_of disk = elim (list_objects src as_of) [
    | err e ↦ (some (E.wrap_error e "failed to list objects in bucket"), disk)
    | ok objects ↦ transfer objects disk
  ]
