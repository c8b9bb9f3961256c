-- ===== src/Tests/Restored.antt =====
-- The capture of Tests/Files, restored into a directory that holds another.
use backup_tool.Base.{
  ◌≡◌, refl, ap, ℕ, true, if◌then◌else◌, ◌||◌, Option-cases, Bool, false, Bool-cases, subst, Option,
  none, some, List, [], ◌∷◌, ◌==◌, list_eq, list_beq, inl, inr, arith,
}
use backup_tool.Base.Text.{Chars, codes}
use backup_tool.Tests.{numbered}
use backup_tool.Tests.Files.{
  equals, without_b, faultless, two_files, old_files, synced, skip_b, faultless-Merges, same_kinds,
  old_files-IsTree, chosen,
}
use backup_tool.Filters.{no_filter, filter_is_zero, should_transfer}
use backup_tool.Files.{
  Node, Entries, file, dir, end, entry, is_dir, at, find, System, relative, lstat,
  validate_src_dest, skips, sync_files,
}
use backup_tool.Files.Trees.{view, IsTree}
use backup_tool.Files.Agreement.{reaches, SameKinds}
use backup_tool.Files.Mirror.{Merges, filtered, over}
use backup_tool.Files.Success.{IsFaultless, sync_files-succeeds}
use backup_tool.Files.RoundTrip.{sync_files-restores}

abbrev captured_files : Entries
captured_files = entry (codes "a") (file (codes "1")) end

abbrev emptied : Node
emptied = dir (entry (codes "c") (dir end) end)

restored :
    sync_files numbered faultless equals no_filter
      (some (dir captured_files))
      (codes "/dest")
      (codes "/data")
      (some emptied)
    ≡ (none, some (dir captured_files))
unfolding sync_files list_beq validate_src_dest lstat should_transfer relative filter_is_zero
restored = refl

abbrev skip_nothing : List Chars → Bool → Bool
skip_nothing = skips numbered faultless equals no_filter (some (dir captured_files))

abbrev Merged : List Chars → Type 0
Merged names =
    view (some (dir (chosen skip_nothing captured_files))) names
    ≡ over (filtered skip_nothing (dir captured_files) names) (view (some (dir end)) names)

a-Merged : (names : List Chars) → Merged (codes "a" ∷ names)
unfolding skips reaches at find list_beq filter_is_zero
a-Merged [] = refl
a-Merged (x ∷ names) = refl

other-Merged : (x : Chars) (names : List Chars) → (codes "a" == x) ≡ false → Merged (x ∷ names)
unfolding skips reaches at find list_beq filter_is_zero
other-Merged x names a = rw a refl

every-Merged : (names : List Chars) → Merged names
unfolding skips reaches at filter_is_zero
every-Merged [] = refl
every-Merged (x ∷ names) = elim (Bool-cases (codes "a" == x)) [
  | inl a ↦ subst (λ z. Merged (z ∷ names)) ((list_eq.beq_iff (codes "a") x).0 a) (a-Merged names)
  | inr a ↦ other-Merged x names a
]

captured-Merges : Merges faultless skip_nothing (dir captured_files)
captured-Merges none h names = absurd (ground (arith, h))
captured-Merges (some (file c)) h names = absurd (ground (arith, h))
captured-Merges (some (dir end)) h names = every-Merged names
captured-Merges (some (dir (entry n m es))) h names = absurd (ground (arith, h))

-- No path but the root is in both trees.
abbrev Agree : List Chars → Type 0
Agree names =
    (m n : Node)
    → at (some (dir captured_files)) names ≡ some m
    → at (some emptied) names ≡ some n
    → is_dir m ≡ is_dir n

a-Agree : (names : List Chars) → Agree (codes "a" ∷ names)
unfolding at find list_beq
a-Agree names m n p q = ground (arith, q)

captured-at_other :
    (x : Chars) (names : List Chars)
    → (codes "a" == x) ≡ false
    → at (some (dir captured_files)) (x ∷ names) ≡ none
unfolding at find list_beq
captured-at_other x names a = rw a refl

restored_kinds : SameKinds (some (dir captured_files)) (some emptied)
unfolding at
restored_kinds [] m n p q = ground (arith, p, q)
restored_kinds (x ∷ names) m n p q = elim (Bool-cases (codes "a" == x)) [
  | inl a ↦
      subst (λ z. Agree (z ∷ names)) ((list_eq.beq_iff (codes "a") x).0 a) (a-Agree names) m n p q
  | inr a ↦ absurd (ground (arith, p, captured-at_other x names a))
]

emptied-IsTree : IsTree emptied
unfolding IsTree find
emptied-IsTree = (refl, tt, tt)

abbrev restored_files : Option ℕ × Option Node
restored_files =
    sync_files numbered faultless equals no_filter (some (dir captured_files)) (codes "/dest")
      (codes "/data") (some emptied)

sync_files-restores_example :
    view restored_files.1 (codes "a" ∷ []) ≡ filtered skip_b (dir two_files) (codes "a" ∷ [])
sync_files-restores_example =
    sync_files-restores numbered faultless equals without_b two_files captured_files (codes "/src")
      (codes "/dest") (codes "/data") (some old_files) (some emptied) faultless-Merges
      captured-Merges old_files-IsTree emptied-IsTree same_kinds restored_kinds synced
      (ap (λ r. r.0) restored) (codes "a" ∷ [])

-- Whether a file is to be copied to where a directory stands; a directory is never copied.
abbrev blocked : Entries → Entries → Bool
blocked end fs = false
blocked (entry name (dir below) es) fs = true
blocked (entry name (file c) es) fs =
    (elim (find fs name) as (λ _. Bool) [ none ↦ false | some m ↦ is_dir m ]) || blocked es fs

abbrev without : Chars → Entries → Entries
without name end = end
without name (entry n m es) = if n == name then without name es else entry n m (without name es)

abbrev merge_into : Entries → Entries → Entries
merge_into end fs = fs
merge_into (entry name n es) fs = entry name n (without name (merge_into es fs))

-- A copy of files into a directory, which fails where a directory is in the way.
abbrev merge_files : Entries → Entries → Option Node → Option ℕ × Option Node
merge_files es fs dest =
    if blocked es fs then (some 2, dest) else (none, some (dir (merge_into es fs)))

abbrev merge_copy :
    (List Chars → Bool → Bool) → Option Node → List Chars → Option Node → Option ℕ × Option Node
merge_copy skip none target dest = (some 2, dest)
merge_copy skip (some (file c)) target dest = (some 2, dest)
merge_copy skip (some (dir es)) target none = merge_files (chosen skip es) end none
merge_copy skip (some (dir es)) target (some (file c)) = (some 2, some (file c))
merge_copy skip (some (dir es)) target (some (dir fs)) =
    merge_files (chosen skip es) fs (some (dir fs))

abbrev merging : System ℕ
merging = record faultless { copy = merge_copy }

abbrev merging_skip : List Chars → Bool → Bool
merging_skip = skips numbered merging equals without_b (some (dir two_files))

merging-copies :
    (dest : Option Node)
    → SameKinds (some (dir two_files)) dest
    → (merge_copy merging_skip (some (dir two_files)) [] dest).0 ≡ none
unfolding skips at find list_beq should_transfer relative filter_is_zero
merging-copies none same = refl
merging-copies (some (file c)) same =
    absurd (ground (arith, same [] (dir two_files) (file c) refl refl))
merging-copies (some (dir fs)) same = elim (Option-cases (find fs (codes "a"))) [
  | inl absent ↦ rw absent refl
  | inr (m, there) ↦
      let kind : false ≡ is_dir m =
        same (codes "a" ∷ []) (file (codes "1")) m refl (ap (λ o. at o []) there) in
      rw (there, ← kind) refl
]

merging-IsFaultless : IsFaultless merging merging_skip (some (dir two_files))
merging-IsFaultless = record {
  source_read = λ names. refl;
  dest_read = refl;
  entries_read = λ names. refl;
  removed = λ names n. refl;
  copied = merging-copies;
}

sync_files-succeeds_example :
    (sync_files numbered merging equals without_b
      (some (dir two_files))
      (codes "/src")
      (codes "/dest")
      (some old_files)).0
    ≡ none
unfolding validate_src_dest list_beq
sync_files-succeeds_example =
    sync_files-succeeds numbered merging equals without_b two_files merging-IsFaultless
      (codes "/src") (codes "/dest") (some old_files) refl old_files-IsTree same_kinds
