-- ===== src/Files.antt =====
-- pkg/files/transfer.go: the sync of a directory. The two sides are trees; a path is the list of the
-- names below a root. The copy library (github.com/otiai10/copy), what the removal of a tree leaves
-- if it fails, and the faults of Lstat are parameters. Special files, which are not copied, and links
-- to directories are not modelled.
pub mod Trees
pub mod Pruning
pub mod Survivors
pub mod Agreement
pub mod Mirror
pub mod RoundTrip
pub mod Success
use backup_tool.Base.{
  ℕ, String, Bool, true, false, not, Option, none, some, List, [], ◌∷◌, ◌++◌, if◌then◌else◌, ◌==◌,
  list_eq, nat_eq,
}
use backup_tool.Base.Text.{Chars, codes, trim_space, has_suffix}
use backup_tool.Errors.{Errors, Result, ok, err, wrap}
use backup_tool.Filters.{FileFilter, Globs, should_transfer, filter_is_zero, no_filter}

-- A file with what it holds, or a directory with its entries.
mutual
  pub data Node : Type 0 where
    file : Chars → Node
    dir : Entries → Node

  pub data Entries : Type 0 where
    end : Entries
    entry : Chars → Node → Entries → Entries

abbrev pub is_dir : Node → Bool
is_dir (file c) = false
is_dir (dir es) = true

-- A relative path as a text: "." is the root.
abbrev pub slashed : List Chars → Chars
slashed [] = []
slashed (name ∷ []) = name
slashed (name ∷ next ∷ names) = name ++ codes "/" ++ slashed (next ∷ names)

unfoldable pub relative : List Chars → Chars
relative [] = codes "."
relative (name ∷ names) = slashed (name ∷ names)

-- An entry before others, if there is one.
abbrev pub with_entry : Chars → Option Node → Entries → Entries
with_entry name none es = es
with_entry name (some n) es = entry name n es

unfoldable pub find : Entries → Chars → Option Node
find end name = none
find (entry n node es) name = let rest = find es name in if n == name then some node else rest

-- What stands at a path below a node.
unfoldable pub at : Option Node → List Chars → Option Node
at none names = none
at (some n) [] = some n
at (some (file c)) (name ∷ names) = none
at (some (dir es)) (name ∷ names) = at (find es name) names

-- What os.Lstat returns: whether it is a directory, or an error, which os.IsNotExist accepts or not.
pub data Stat (X : Type 0) : Type 0 where
  present : Bool → Stat X
  absent broken : X → Stat X

-- The operating system and the copy library.
pub record System (X : Type 0) : Type 0 where
  pub not_exist : X
  pub not_directory : X
  -- the fault of an Lstat in the source, and of the root of the destination
  pub source_fault : List Chars → Option X
  pub dest_fault : Option X
  -- the fault of reading a directory of the destination
  pub read_fault : List Chars → Option X
  -- os.RemoveAll: the error, and what is left
  pub remove_all : List Chars → Node → Option X × Option Node
  -- cp.Copy: what is skipped, the source, the path below the destination, the destination
  pub copy :
      (List Chars → Bool → Bool) → Option Node → List Chars → Option Node → Option X × Option Node
  -- filepath.Base
  pub base : Chars → Chars

module _ {X : Type 0} (y : System X) where
  -- Below a file there is not a missing file, for os.IsNotExist, but another error.
  unfoldable pub resolve : Option Node → List Chars → Stat X
  unfolding find
  resolve none names = absent y.not_exist
  resolve (some n) [] = present (is_dir n)
  resolve (some (file c)) (name ∷ names) = broken y.not_directory
  resolve (some (dir es)) (name ∷ names) = resolve (find es name) names

  unfoldable pub lstat : Option X → Option Node → List Chars → Stat X
  unfolding resolve
  lstat (some x) n names = broken x
  lstat none n names = resolve n names

  abbrev pub lstat_source : Option Node → List Chars → Stat X
  lstat_source source names = lstat (y.source_fault names) source names

-- validateSrcDest
unfoldable pub validate_src_dest : (E : Errors) → Chars → Chars → Option E.Error
validate_src_dest E src dest =
    if trim_space src == []
    then some (E.errorf "no source path provided")
    else if trim_space dest == []
    then some (E.errorf "no destination path provided")
    else none

module _ (E : Errors) (y : System E.Error) (g : Globs) (f : FileFilter) where
  module _ (source : Option Node) where
    -- The removal of a path by the walk, with what is left of it.
    abbrev pub remove : List Chars → Node → Option E.Error × Option Node
    remove here n =
        let (e, left) = y.remove_all here n in
        elim e as (λ _. Option E.Error × Option Node) [
          | none ↦ (none, none)
          | some x ↦ (some (E.wrap_error x "failed to remove path"), left)
        ]

    -- The walk of the entries of a directory, which is read first.
    abbrev pub read_entries :
        List Chars → Entries → Option E.Error × Entries → Option E.Error × Entries
    read_entries here es walked = elim (y.read_fault here) as (λ _. Option E.Error × Entries) [
      | some x ↦ (some (E.wrap_error x "failed to walk over path"), es)
      | none ↦ walked
    ]

    -- The walk of deleteMissingFiles: of a node what is left, of entries those that are left.
    unfoldable mutual
      pub prune : List Chars → Node → Option E.Error × Option Node
      prune here (file c) =
          elim (lstat_source y source here) as (λ _. Option E.Error × Option Node) [
            | present _ ↦
                if should_transfer g f (relative here) false
                then (none, some (file c))
                else remove here (file c)
            | absent _ ↦ remove here (file c)
            | broken x ↦ (some (E.wrap_error x "failed to lstat"), some (file c))
          ]
      prune here (dir es) =
          let below = read_entries here es (prune_entries here es) in
          elim (lstat_source y source here) as (λ _. Option E.Error × Option Node) [
            | present _ ↦
                if should_transfer g f (relative here) true
                then (below.0, some (dir below.1))
                else remove here (dir es)
            | absent _ ↦ remove here (dir es)
            | broken x ↦ (some (E.wrap_error x "failed to lstat"), some (dir es))
          ]

      pub prune_entries : List Chars → Entries → Option E.Error × Entries
      prune_entries here end = (none, end)
      prune_entries here (entry name n es) =
          let pruned = prune (here ++ name ∷ []) n in
          let rest = prune_entries here es in
          elim pruned.0 as (λ _. Option E.Error × Entries) [
            | some x ↦ (some x, with_entry name pruned.1 es)
            | none ↦ (rest.0, with_entry name pruned.1 rest.1)
          ]

    -- deleteMissingFiles once the source is a directory: the walk, if there is a destination
    unfoldable pub walk_destination : Stat E.Error → Option Node → Option E.Error × Option Node
    unfolding prune
    walk_destination (broken x) dest = (some (E.wrap_error x "failed to get file info"), dest)
    walk_destination (absent x) dest = (none, dest)
    walk_destination (present d) none = (none, none)
    walk_destination (present d) (some n) =
        let (e, left) = prune [] n in
        (wrap E e "failed while walking over destination directory", left)

    -- deleteMissingFiles
    unfoldable pub delete_missing_files : Option Node → Option E.Error × Option Node
    unfolding walk_destination
    delete_missing_files dest =
        elim (lstat_source y source []) as (λ _. Option E.Error × Option Node) [
          | broken x ↦ (some (E.wrap_error x "failed to get file info"), dest)
          | absent x ↦ (some (E.wrap_error x "failed to get file info"), dest)
          | present false ↦ (none, dest)
          | present true ↦ walk_destination (lstat y y.dest_fault dest []) dest
        ]

    -- The Skip callback of copyFiles, which is set only for a filter that constrains something.
    unfoldable pub skips : List Chars → Bool → Bool
    skips [] is_directory = false
    skips (name ∷ names) is_directory =
        if filter_is_zero f
        then false
        else not (should_transfer g f (relative (name ∷ names)) is_directory)

    -- cp.Copy to a path below the destination
    unfoldable pub run_copy : List Chars → Option Node → Option E.Error × Option Node
    unfolding skips
    run_copy target dest =
        let (e, left) = y.copy skips source target dest in (wrap E e "failed to copy files", left)

    -- Whether a file is copied into the destination: it is a directory, or is missing and written
    -- with a slash at its end.
    unfoldable pub copy_file :
        Chars → Chars → Stat E.Error → Option Node → Option E.Error × Option Node
    unfolding run_copy
    copy_file src dest_path (broken x) dest =
        (some (E.wrap_error x "failed to get file info for destination path"), dest)
    copy_file src dest_path (absent x) dest =
        run_copy (if has_suffix dest_path (codes "/") then y.base src ∷ [] else []) dest
    copy_file src dest_path (present is_directory) dest =
        run_copy (if is_directory then y.base src ∷ [] else []) dest

    -- copyFiles, once the paths are validated
    unfoldable pub copy_valid : Chars → Chars → Option Node → Option E.Error × Option Node
    unfolding run_copy copy_file
    copy_valid src dest_path dest =
        elim (lstat_source y source []) as (λ _. Option E.Error × Option Node) [
          | broken x ↦ (some (E.wrap_error x "failed to get file info for source path"), dest)
          | absent x ↦ (some (E.wrap_error x "failed to get file info for source path"), dest)
          | present true ↦ run_copy [] dest
          | present false ↦ copy_file src dest_path (lstat y y.dest_fault dest []) dest
        ]

    -- copyFiles
    unfoldable pub copy_files : Chars → Chars → Option Node → Option E.Error × Option Node
    unfolding copy_valid
    copy_files src dest_path dest =
        elim (validate_src_dest E src dest_path) as (λ _. Option E.Error × Option Node) [
          | some e ↦ (some e, dest)
          | none ↦ copy_valid src dest_path dest
        ]

    -- SyncFiles, once the paths are validated
    unfoldable pub sync_valid : Chars → Chars → Option Node → Option E.Error × Option Node
    unfolding delete_missing_files copy_files
    sync_valid src dest_path dest =
        let (e, left) = delete_missing_files dest in
        elim e as (λ _. Option E.Error × Option Node) [
          | some x ↦ (some (E.wrap_error x "failed to delete missing files"), left)
          | none ↦ copy_files src dest_path left
        ]

    -- SyncFiles: the error, and the destination afterwards.
    unfoldable pub sync_files : Chars → Chars → Option Node → Option E.Error × Option Node
    unfolding sync_valid
    sync_files src dest_path dest =
        elim (validate_src_dest E src dest_path) as (λ _. Option E.Error × Option Node) [
          | some e ↦ (some e, dest)
          | none ↦ sync_valid src dest_path dest
        ]

-- CopyFiles
unfoldable pub copy_unfiltered :
    (E : Errors)
    → System E.Error
    → Globs
    → Option Node
    → Chars
    → Chars
    → Option Node
    → Option E.Error × Option Node
unfolding copy_files
copy_unfiltered E y g source src dest_path dest =
    copy_files E y g no_filter source src dest_path dest

unfoldable pub directories : Entries → List Chars
directories end = []
directories (entry name (file c) es) = directories es
directories (entry name (dir below) es) = name ∷ directories es

-- ListDirectory, with os.ReadDir as a parameter.
unfoldable pub list_directory :
    (E : Errors) → (Chars → Result E.Error Entries) → Chars → Result E.Error (List Chars)
unfolding directories
list_directory E read_dir path =
    let trimmed = trim_space path in
    if trimmed == []
    then err (E.errorf "no path provided")
    else elim (read_dir trimmed) as (λ _. Result E.Error (List Chars)) [
      | ok es ↦ ok (directories es)
      | err x ↦ err (E.wrap_error x "failed to read directory")
    ]
