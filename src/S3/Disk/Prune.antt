-- ===== src/S3/Disk/Prune.antt =====
-- What pruning leaves on the disk (removeExtraneousLocalFiles of pkg/s3/transfer.go).
use backup_tool.Base.{
  ◌≡◌, refl, Bool, false, not, ◌||◌, ◌&&◌, Option, none, some, List, [], ◌∷◌, if◌then◌else◌,
  contains, list_eq, list_beq, list_beq_iff, arith,
}
use backup_tool.Base.Dict.{Dict, lookup, erase, lookup-erase, NodupKeys}
use backup_tool.Base.Text.{Chars}
use backup_tool.Errors.{Errors}
use backup_tool.S3.Disk.{Node, Disk, Io, folder, is_dir, prune_walk, remove_extraneous_local_files}

-- Whether the walk removes the path.
abbrev doomed : List Chars → Chars → Dict Chars Node → Bool
doomed keep p [] = false
doomed keep p ((q, n) ∷ rest) =
    (list_beq p q && not (is_dir n || contains keep q)) || doomed keep p rest

-- What is left of a node.
abbrev pub pruned : List Chars → Chars → Option Node → Option Node
pruned keep p none = none
pruned keep p (some n) = if is_dir n || contains keep p then some n else none

module _ {E : Errors} (io : Io E) (keep : List Chars) where
  module _ (walks : (p : Chars) → io.walk_fault p ≡ none)
      (removes : (p : Chars) → io.remove_fault p ≡ none) where
    lookup-prune_walk :
        (snapshot : Dict Chars Node) (disk : Disk) (p : Chars)
        → ((prune_walk io keep snapshot disk).0 ≡ none)
          × ((prune_walk io keep snapshot disk).1.root ≡ disk.root)
          × (lookup p (prune_walk io keep snapshot disk).1.nodes
              ≡ (if doomed keep p snapshot then none else lookup p disk.nodes))
    unfolding prune_walk
    lookup-prune_walk [] disk p = (refl, refl, refl)
    lookup-prune_walk ((q, n) ∷ rest) disk p = ground (
      arith,
      walks q,
      removes q,
      list_beq_iff p q,
      lookup-erase p q disk.nodes,
      lookup-prune_walk rest disk p,
      lookup-prune_walk rest (record disk { nodes = erase q disk.nodes }) p,
    )

  doomed-absent :
      (p : Chars) (nodes : Dict Chars Node) → lookup p nodes ≡ none → doomed keep p nodes ≡ false
  unfolding lookup
  doomed-absent p [] h = refl
  doomed-absent p ((q, n) ∷ nodes) h = ground (arith, doomed-absent p nodes, list_beq_iff p q)

  doomed-pruned :
      (p : Chars) (nodes : Dict Chars Node)
      → NodupKeys nodes
      → (if doomed keep p nodes then none else lookup p nodes) ≡ pruned keep p (lookup p nodes)
  unfolding lookup
  doomed-pruned p [] h = refl
  doomed-pruned p ((q, n) ∷ nodes) h =
      ground (arith, list_beq_iff p q, h.0, doomed-absent p nodes, doomed-pruned p nodes h.1)

  -- On a directory, with no call failing, pruning returns nil, and for each path keeps what is a
  -- directory or is listed, and removes the rest.
  pub lookup-remove_extraneous :
      (disk : Disk)
      → io.root_fault ≡ none
      → ((p : Chars) → io.walk_fault p ≡ none)
      → ((p : Chars) → io.remove_fault p ≡ none)
      → disk.root ≡ folder
      → NodupKeys disk.nodes
      → (p : Chars)
      → ((remove_extraneous_local_files io keep disk).0 ≡ none)
        × (lookup p (remove_extraneous_local_files io keep disk).1.nodes
            ≡ pruned keep p (lookup p disk.nodes))
  unfolding remove_extraneous_local_files
  lookup-remove_extraneous disk root walks removes is_folder unique p =
      let walk = lookup-prune_walk walks removes disk.nodes disk p in
      ground (arith, root, is_folder, walk, doomed-pruned p disk.nodes unique)
