-- ===== src/S3/Upload.antt =====
-- The upload of pkg/s3/transfer.go: a local directory to an S3 prefix. As in `Download`, the
-- transfers run one after the other, all of them run, and the first error is returned.
pub mod Mirror
use backup_tool.Base.{
  ℕ, Bool, true, false, not, ◌&&◌, ◌||◌, Option, none, some, List, [], ◌∷◌, if◌then◌else◌, ltb,
  ◌==◌, nat_eq, list_eq, map, take, contains,
}
use backup_tool.Base.Dict.{Dict, lookup, insert}
use backup_tool.Base.Text.{Chars}
use backup_tool.Errors.{Errors, Result, ok, err, wrap}
use backup_tool.S3.Location.{S3Path}
use backup_tool.S3.Objects.{RemoteObject, Object, list_latest_objects}
use backup_tool.S3.Disk.{
  Node, regular, directory, special, Disk, Root, absent, plain_file, folder, is_regular, size_of,
  mod_time,
}

-- localFile; its path below the directory stands for its absolute path
pub record LocalFile : Type 0 where
  pub rel_path : Chars
  pub size : ℕ
  pub mod_time : ℕ

-- What the packages os, mime and net/http do beyond the disk; a fault is an error that a call meets.
pub record Source (E : Errors) : Type 0 where
  pub root_fault : Option E.Error
  pub walk_fault : Chars → Option E.Error
  pub info_fault : Chars → Option E.Error
  pub rel_fault : Chars → Option E.Error
  -- the error of os.Open on what is no file
  pub open_missing : Chars → E.Error
  pub open_fault : Chars → Option E.Error
  pub read_fault : Chars → Option E.Error
  pub seek_fault : Chars → Option E.Error
  pub close_fault : Chars → Option E.Error
  -- mime.TypeByExtension of the path's extension, empty if there is none
  pub type_by_extension : Chars → Chars
  pub detect_type : List ℕ → Chars
  -- path.Join
  pub join : Chars → Chars → Chars

-- The client on a bucket: a key with bytes and a content type is put, a key is deleted, and the
-- prefix is listed.
pub record Store (E : Errors) (B : Type 0) : Type 0 where
  pub put_object : Chars → List ℕ → Chars → B → Option E.Error × B
  pub delete_object : Chars → B → Option E.Error × B
  pub object_pages : B → List (Result E.Error (List Object))

module _ {E : Errors} (src : Source E) where
  -- The walk of listLocalFiles.
  unfoldable pub list_walk : Dict Chars Node → Result E.Error (List LocalFile)
  list_walk [] = ok []
  list_walk ((p, n) ∷ nodes) =
      let rest = list_walk nodes in
      let file : LocalFile = record { rel_path = p; size = size_of n; mod_time = mod_time n } in
      let with_file : Result E.Error (List LocalFile) = elim rest [
        | err e ↦ err e
        | ok files ↦ ok (file ∷ files)
      ] in
      elim (src.walk_fault p) [
        | some e ↦ err (E.wrap_error e "failed to walk")
        | none ↦ if not (is_regular n) then rest else elim (src.info_fault p) [
          | some e ↦ err (E.wrap_error e "failed to stat")
          | none ↦ elim (src.rel_fault p) [
            | some e ↦ err (E.wrap_error e "failed to compute relative path")
            | none ↦ with_file
          ]
        ]
      ]

  list_root : Root → Dict Chars Node → Result E.Error (List LocalFile)
  unfolding list_walk
  list_root absent nodes = ok []
  list_root plain_file nodes = err (E.errorf "source path is not a directory")
  list_root folder nodes = elim (list_walk nodes) [
    | err e ↦ err (E.wrap_error e "failed to walk")
    | ok files ↦ ok files
  ]

  -- listLocalFiles
  unfoldable pub list_local_files : Disk → Result E.Error (List LocalFile)
  unfolding list_root
  list_local_files disk = elim src.root_fault [
    | some e ↦ err (E.wrap_error e "failed to stat")
    | none ↦ list_root disk.root disk.nodes
  ]

  -- detectContentType
  unfoldable pub detect_content_type : Chars → List ℕ → Result E.Error Chars
  detect_content_type p bytes =
      let by_extension = src.type_by_extension p in
      if not (by_extension == []) then ok by_extension else elim (src.read_fault p) [
        | some e ↦ err (E.wrap_error e "failed to read for content type detection")
        | none ↦ elim (src.seek_fault p) [
          | some e ↦ err (E.wrap_error e "failed to seek back to start")
          | none ↦ ok (src.detect_type (take 512 bytes))
        ]
      ]

  -- What os.Open gives of a path: the bytes that the file will yield.
  unfoldable pub open_file : Chars → Disk → Result E.Error (List ℕ)
  open_file p disk =
      let opened : Result E.Error (List ℕ) = elim (lookup p disk.nodes) [
        | none ↦ err (src.open_missing p)
        | some (regular bytes _) ↦ ok bytes
        | some (directory _ _) ↦ err (src.open_missing p)
        | some (special _ _) ↦ err (src.open_missing p)
      ] in
      elim (src.open_fault p) [ some e ↦ err e | none ↦ opened ]

  module _ {B : Type 0} (store : Store E B) (prefix : Chars) (disk : Disk) where
    abbrev pub key_of : LocalFile → Chars
    key_of lf = src.join prefix lf.rel_path

    -- The end of uploadObject: the type is detected, the object is put, and the file is closed.
    put_file : LocalFile → List ℕ → B → Option E.Error × B
    unfolding detect_content_type
    put_file lf bytes b =
        let (e, b') = elim (detect_content_type lf.rel_path bytes) as (λ _. Option E.Error × B) [
          | err e ↦ (some (E.wrap_error e "failed to detect content type"), b)
          | ok content_type ↦
              let (e, b') = store.put_object (key_of lf) bytes content_type b in
              (wrap E e "failed to upload", b')
        ] in
        (
          elim e [
            | some e ↦ some e
            | none ↦ wrap E (src.close_fault lf.rel_path) "failed to close"
          ],
          b',
        )

    -- uploadObject
    unfoldable pub upload_object : LocalFile → B → Option E.Error × B
    unfolding put_file open_file
    upload_object lf b = elim (open_file lf.rel_path disk) [
      | err e ↦ (some (E.wrap_error e "failed to open"), b)
      | ok bytes ↦ put_file lf bytes b
    ]

    -- remoteByRel
    abbrev pub by_rel : List RemoteObject → Dict Chars RemoteObject → Dict Chars RemoteObject
    by_rel [] d = d
    by_rel (o ∷ os) d = by_rel os (insert o.rel_path o d)

    -- The condition under which upload skips a file.
    abbrev pub is_current : Dict Chars RemoteObject → LocalFile → Bool
    is_current remote lf = elim (lookup lf.rel_path remote) [
      | none ↦ false
      | some o ↦ o.size == lf.size && not (ltb o.last_modified lf.mod_time)
    ]

    -- The first loop of upload.
    unfoldable pub upload_each : Dict Chars RemoteObject → List LocalFile → B → Option E.Error × B
    unfolding upload_object
    upload_each remote [] b = (none, b)
    upload_each remote (lf ∷ files) b =
        let skipped = upload_each remote files b in
        let (e, b') = upload_object lf b in
        let (later, b₂) = upload_each remote files b' in
        if is_current remote lf
        then skipped
        else (elim e [ some e ↦ some (E.wrap_error e "failed to upload") | none ↦ later ], b₂)

    abbrev pub local_rel : List LocalFile → List Chars
    local_rel = map (λ lf. lf.rel_path)

    -- The second loop of upload.
    unfoldable pub delete_each : List Chars → List RemoteObject → B → Option E.Error × B
    delete_each local [] b = (none, b)
    delete_each local (o ∷ os) b =
        let kept = delete_each local os b in
        let (e, b') = store.delete_object o.key b in
        let (later, b₂) = delete_each local os b' in
        if contains local o.rel_path then kept else (
          elim e [ some e ↦ some (E.wrap_error e "failed to delete object") | none ↦ later ],
          b₂,
        )

    -- upload, once both sides are listed
    unfoldable pub push : List LocalFile → List RemoteObject → B → Option E.Error × B
    unfolding upload_each delete_each
    push files objects b =
        let (e, b') = upload_each (by_rel objects []) files b in
        let (e', b₂) = delete_each (local_rel files) objects b' in
        (
          wrap E (elim e [ some e ↦ some e | none ↦ e' ])
              "failed to upload or prune one or more objects",
          b₂,
        )

  -- upload
  unfoldable pub upload : {B : Type 0} → Store E B → S3Path → Disk → B → Option E.Error × B
  unfolding list_local_files push
  upload store dest disk b = elim (list_local_files disk) [
    | err e ↦ (some (E.wrap_error e "failed to enumerate local files"), b)
    | ok files ↦ elim (list_latest_objects E dest.prefix (store.object_pages b)) [
      | err e ↦ (some (E.wrap_error e "failed to list existing objects"), b)
      | ok objects ↦ push store dest.prefix disk files objects b
    ]
  ]
