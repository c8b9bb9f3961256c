-- ===== src/S3/Download/Single.antt =====
-- What the download of one object does (downloadObject of pkg/s3/transfer.go).
use backup_tool.Base.{ℕ, ◌≡◌, none, some, List, list_eq, arith}
use backup_tool.Base.Dict.{lookup, insert}
use backup_tool.Base.Text.{Chars}
use backup_tool.Errors.{Errors, ok}
use backup_tool.S3.Objects.{RemoteObject}
use backup_tool.S3.Disk.{Node, regular, Disk, Io, folder}
use backup_tool.S3.Download.{Client, download_object}

module _ {E : Errors} (io : Io E) (client : Client E) where
  -- Whatever stands at an object's path is left as it is, and no error is reported: neither the
  -- size nor the time of the object matters.
  pub download_object-keeps_existing :
      (obj : RemoteObject) (disk : Disk) (n : Node)
      → io.stat_fault (io.join obj.rel_path) ≡ none
      → lookup (io.join obj.rel_path) disk.nodes ≡ some n
      → download_object io client obj disk ≡ (none, disk)
  unfolding download_object
  download_object-keeps_existing obj disk n reads exists = ground arith

  -- No call fails, and a copy is complete.
  pub record IsFaultless : Type 0 where
    pub stats : (p : Chars) → io.stat_fault p ≡ none
    pub makes_dirs : (p : Chars) → io.mkdir_fault p ≡ none
    pub creates : (p : Chars) → io.create_fault p ≡ none
    pub copies : (p : Chars) (bytes : List ℕ) → io.copy p bytes ≡ (bytes, none)
    pub closes : (p : Chars) → io.close_fault p ≡ none
    pub sets_times : (p : Chars) → io.chtimes_fault p ≡ none

  -- The client serves these bytes for the object.
  abbrev pub Serves : RemoteObject → List ℕ → Type 0
  Serves obj bytes =
      client.get_object obj.key obj.version_id ≡ ok (record { bytes = bytes; fault = none })

  module _ (f : IsFaultless) (obj : RemoteObject) (bytes : List ℕ) (serves : Serves obj bytes) where
    pub download_object-fresh :
        (disk : Disk)
        → io.join obj.rel_path ≡ obj.rel_path
        → lookup obj.rel_path disk.nodes ≡ none
        → download_object io client obj disk ≡ (
          none,
          record {
            root = folder;
            nodes =
                insert obj.rel_path
                  (regular bytes obj.last_modified)
                  (insert obj.rel_path (regular bytes (io.created_at obj.rel_path)) disk.nodes);
          },
        )
    unfolding download_object
    download_object-fresh disk clean fresh = ground (
      arith,
      f.stats obj.rel_path,
      f.makes_dirs obj.rel_path,
      f.creates obj.rel_path,
      f.copies obj.rel_path bytes,
      f.closes obj.rel_path,
      f.sets_times obj.rel_path,
      serves,
      clean,
      fresh,
    )
