-- ===== src/Tests/Files.antt =====
-- A sync of a directory of two files, of which the filter leaves one out.
use backup_tool.Base.{
  ◌≡◌, refl, ap, ℕ, Bool, true, false, Bool-cases, subst, Option, none, some, List, [], ◌∷◌,
  if◌then◌else◌, ◌==◌, list_eq, list_beq, inl, inr, arith,
}
use backup_tool.Base.Text.{Chars, codes}
use backup_tool.Tests.{numbered}
use backup_tool.Filters.{FileFilter, Globs, should_transfer, filter_is_zero, no_filter}
use backup_tool.Files.{
  Node, Entries, file, dir, end, entry, is_dir, at, find, System, relative, lstat,
  validate_src_dest, skips, sync_files,
}
use backup_tool.Files.Trees.{view, IsTree}
use backup_tool.Files.Agreement.{reaches, SameKinds}
use backup_tool.Files.Mirror.{Merges, filtered, over, sync_files-filtered}

abbrev pub equals : Globs
equals = record {
  validate_pattern = λ p. true;
  glob_match = λ p path. path == p;
  to_slash = λ path. path;
}

abbrev pub without_b : FileFilter
without_b = record { include = []; exclude = record { glob = codes "b" } ∷ [] }

-- The entries at the top that are not skipped.
abbrev pub chosen : (List Chars → Bool → Bool) → Entries → Entries
chosen skip end = end
chosen skip (entry name n es) =
    if skip (name ∷ []) (is_dir n) then chosen skip es else entry name n (chosen skip es)

-- A copy into an empty directory, which fails on any other destination.
abbrev copy_into_empty :
    (List Chars → Bool → Bool) → Option Node → List Chars → Option Node → Option ℕ × Option Node
copy_into_empty skip (some (dir es)) target (some (dir end)) = (none, some (dir (chosen skip es)))
copy_into_empty skip none target dest = (some 2, dest)
copy_into_empty skip (some (file c)) target dest = (some 2, dest)
copy_into_empty skip (some (dir es)) target none = (some 2, none)
copy_into_empty skip (some (dir es)) target (some (file c)) = (some 2, some (file c))
copy_into_empty skip (some (dir es)) target (some (dir (entry name n fs))) =
    (some 2, some (dir (entry name n fs)))

abbrev pub faultless : System ℕ
faultless = record {
  not_exist = 3;
  not_directory = 4;
  source_fault = λ names. none;
  dest_fault = none;
  read_fault = λ names. none;
  remove_all = λ names n. (none, none);
  copy = copy_into_empty;
  base = λ path. path;
}

abbrev pub two_files : Entries
two_files = entry (codes "a") (file (codes "1")) (entry (codes "b") (file (codes "2")) end)

abbrev pub old_files : Node
old_files = dir (entry (codes "b") (file (codes "3")) (entry (codes "c") (dir end) end))

-- The missing directory and the file that is left out are removed.
pub synced :
    sync_files numbered faultless equals without_b
      (some (dir two_files))
      (codes "/src")
      (codes "/dest")
      (some old_files)
    ≡ (none, some (dir (entry (codes "a") (file (codes "1")) end)))
unfolding sync_files list_beq validate_src_dest lstat should_transfer relative filter_is_zero
synced = refl

-- A directory of the destination that is a file in the source makes the sync fail.
not_replaced :
    sync_files numbered faultless equals no_filter
      (some (dir two_files))
      (codes "/src")
      (codes "/dest")
      (some (dir (entry (codes "a") (dir (entry (codes "x") (file []) end)) end)))
    ≡ (some 4, some (dir (entry (codes "a") (dir (entry (codes "x") (file []) end)) end)))
unfolding sync_files list_beq validate_src_dest lstat should_transfer relative filter_is_zero
not_replaced = refl

abbrev pub skip_b : List Chars → Bool → Bool
skip_b = skips numbered faultless equals without_b (some (dir two_files))

-- What a path shows after the copy into the empty directory.
abbrev Merged : List Chars → Type 0
Merged names =
    view (some (dir (chosen skip_b two_files))) names
    ≡ over (filtered skip_b (dir two_files) names) (view (some (dir end)) names)

root-Merged : Merged []
unfolding skips reaches at
root-Merged = refl

a-Merged : (names : List Chars) → Merged (codes "a" ∷ names)
unfolding skips reaches at find list_beq should_transfer relative filter_is_zero
a-Merged [] = refl
a-Merged (x ∷ names) = refl

b-Merged : (names : List Chars) → Merged (codes "b" ∷ names)
unfolding skips reaches at find list_beq should_transfer relative filter_is_zero
b-Merged [] = refl
b-Merged (x ∷ names) = refl

other-Merged :
    (x : Chars) (names : List Chars)
    → (codes "a" == x) ≡ false
    → (codes "b" == x) ≡ false
    → Merged (x ∷ names)
unfolding skips reaches at find list_beq should_transfer relative filter_is_zero
other-Merged x names a b = rw (a, b) refl

merged : (names : List Chars) → Merged names
merged [] = root-Merged
merged (x ∷ names) = elim (Bool-cases (codes "a" == x)) [
  | inl a ↦ subst (λ z. Merged (z ∷ names)) ((list_eq.beq_iff (codes "a") x).0 a) (a-Merged names)
  | inr a ↦ elim (Bool-cases (codes "b" == x)) [
    | inl b ↦ subst (λ z. Merged (z ∷ names)) ((list_eq.beq_iff (codes "b") x).0 b) (b-Merged names)
    | inr b ↦ other-Merged x names a b
  ]
]

pub faultless-Merges : Merges faultless skip_b (dir two_files)
faultless-Merges none h names = absurd (ground (arith, h))
faultless-Merges (some (file c)) h names = absurd (ground (arith, h))
faultless-Merges (some (dir end)) h names = merged names
faultless-Merges (some (dir (entry n m es))) h names = absurd (ground (arith, h))

-- Only "b" is in both trees, and it is a file.
abbrev Agree : List Chars → Type 0
Agree names =
    (m n : Node)
    → at (some (dir two_files)) names ≡ some m
    → at (some old_files) names ≡ some n
    → is_dir m ≡ is_dir n

a-Agree : (names : List Chars) → Agree (codes "a" ∷ names)
unfolding at find list_beq
a-Agree names m n p q = ground (arith, q)

b-Agree : (names : List Chars) → Agree (codes "b" ∷ names)
unfolding at find list_beq
b-Agree [] m n p q = ground (arith, p, q)
b-Agree (x ∷ names) m n p q = ground (arith, p)

two_files-at_other :
    (x : Chars) (names : List Chars)
    → (codes "a" == x) ≡ false
    → (codes "b" == x) ≡ false
    → at (some (dir two_files)) (x ∷ names) ≡ none
unfolding at find list_beq
two_files-at_other x names a b = rw (a, b) refl

other-Agree :
    (x : Chars) (names : List Chars)
    → (codes "a" == x) ≡ false
    → (codes "b" == x) ≡ false
    → Agree (x ∷ names)
unfolding at find list_beq
other-Agree x names a b m n p q = absurd (ground (arith, p, two_files-at_other x names a b))

pub same_kinds : SameKinds (some (dir two_files)) (some old_files)
unfolding at
same_kinds [] m n p q = ground (arith, p, q)
same_kinds (x ∷ names) m n p q = elim (Bool-cases (codes "a" == x)) [
  | inl a ↦
      subst (λ z. Agree (z ∷ names)) ((list_eq.beq_iff (codes "a") x).0 a) (a-Agree names) m n p q
  | inr a ↦ elim (Bool-cases (codes "b" == x)) [
    | inl b ↦
        subst (λ z. Agree (z ∷ names)) ((list_eq.beq_iff (codes "b") x).0 b) (b-Agree names) m n p q
    | inr b ↦ other-Agree x names a b m n p q
  ]
]

pub old_files-IsTree : IsTree old_files
unfolding IsTree find list_beq
old_files-IsTree = (refl, tt, (refl, tt, tt))

abbrev synced_files : Option ℕ × Option Node
synced_files =
    sync_files numbered faultless equals without_b (some (dir two_files)) (codes "/src")
      (codes "/dest") (some old_files)

sync_files-filtered_example :
    view synced_files.1 (codes "a" ∷ []) ≡ filtered skip_b (dir two_files) (codes "a" ∷ [])
sync_files-filtered_example =
    sync_files-filtered numbered faultless equals without_b two_files faultless-Merges
      (codes "/src") (codes "/dest") (some old_files) old_files-IsTree same_kinds
      (ap (λ r. r.0) synced) (codes "a" ∷ [])
