-- ===== src/S3/Disk.antt =====
-- The local directory of a sync, and the functions of pkg/s3/transfer.go that walk it. Paths are
-- relative to the directory, and the calls of package os may fail as an `Io` says.
pub mod Prune
use backup_tool.Base.{
  ℕ, Bool, true, false, ◌||◌, Option, none, some, List, [], ◌∷◌, if◌then◌else◌, contains, list_eq,
  length,
}
use backup_tool.Base.Dict.{Dict, lookup, insert, erase}
use backup_tool.Base.Text.{Chars}
use backup_tool.Errors.{Errors, Result, ok, err, wrap}

-- What a path names: a regular file with its bytes and its modification time, or something else
-- with the size and the time that os.Stat gives.
pub data Node : Type 0 where
  regular : List ℕ → ℕ → Node
  directory special : ℕ → ℕ → Node

abbrev pub is_dir : Node → Bool
is_dir (directory _ _) = true
is_dir _ = false

abbrev pub is_regular : Node → Bool
is_regular (regular _ _) = true
is_regular _ = false

abbrev pub size_of : Node → ℕ
size_of (regular bytes _) = length bytes
size_of (directory size _) = size
size_of (special size _) = size

abbrev pub mod_time : Node → ℕ
mod_time (regular _ t) = t
mod_time (directory _ t) = t
mod_time (special _ t) = t

-- The directory itself.
pub data Root : Type 0 where
  absent plain_file folder : Root

pub record Disk : Type 0 where
  pub root : Root
  pub nodes : Dict Chars Node

-- What package os does beyond the disk: `join` is the path below the directory that filepath.Join
-- makes of a relative path; a fault is an error other than "does not exist"; `copy` is what
-- io.Copy leaves in the file of the bytes that come in; `created_at` is a new file's time.
pub record Io (E : Errors) : Type 0 where
  pub join : Chars → Chars
  pub root_fault : Option E.Error
  pub stat_fault : Chars → Option E.Error
  pub mkdir_fault : Chars → Option E.Error
  pub create_fault : Chars → Option E.Error
  pub copy : Chars → List ℕ → List ℕ × Option E.Error
  pub close_fault : Chars → Option E.Error
  pub chtimes_fault : Chars → Option E.Error
  pub remove_fault : Chars → Option E.Error
  pub walk_fault : Chars → Option E.Error
  pub created_at : Chars → ℕ

-- What os.Stat returns.
pub data Stat (X : Type 0) : Type 0 where
  found : Node → Stat X
  not_exist : Stat X
  failed : X → Stat X

module _ {E : Errors} (io : Io E) where
  unfoldable pub stat : Chars → Disk → Stat E.Error
  stat p disk = elim (io.stat_fault p) [
    | some e ↦ failed e
    | none ↦ elim (lookup p disk.nodes) [ none ↦ not_exist | some n ↦ found n ]
  ]

  -- The walk of removeExtraneousLocalFiles over the entries that it comes to.
  unfoldable pub prune_walk : List Chars → Dict Chars Node → Disk → Option E.Error × Disk
  prune_walk keep [] disk = (none, disk)
  prune_walk keep ((p, n) ∷ rest) disk =
      let onward = prune_walk keep rest disk in
      let pruned = prune_walk keep rest (record disk { nodes = erase p disk.nodes }) in
      elim (io.walk_fault p) [
        | some e ↦ (some (E.wrap_error e "failed to walk"), disk)
        | none ↦ if is_dir n || contains keep p then onward else elim (io.remove_fault p) [
          | some e ↦ (some (E.wrap_error e "failed to remove stale file"), disk)
          | none ↦ pruned
        ]
      ]

  prune_root : Root → List Chars → Disk → Option E.Error × Disk
  unfolding prune_walk
  prune_root absent keep disk = (none, disk)
  prune_root plain_file keep disk = (none, disk)
  prune_root folder keep disk = prune_walk keep disk.nodes disk

  -- removeExtraneousLocalFiles
  unfoldable pub remove_extraneous_local_files : List Chars → Disk → Option E.Error × Disk
  unfolding prune_root
  remove_extraneous_local_files keep disk = elim io.root_fault [
    | some e ↦ (some (E.wrap_error e "failed to stat"), disk)
    | none ↦ prune_root disk.root keep disk
  ]
