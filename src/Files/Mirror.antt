-- ===== src/Files/Mirror.antt =====
-- SyncFiles (pkg/files/transfer.go) of a directory: the destination afterwards.
use backup_tool.Base.{
  ◌≡◌, refl, ◌∙◌, ap, String, Bool, true, false, Bool-cases, Option, none, some, Option-cases, List,
  [], if◌then◌else◌, inl, inr, arith,
}
use backup_tool.Base.Text.{Chars}
use backup_tool.Errors.{Errors, wrap}
use backup_tool.Filters.{FileFilter, Globs}
use backup_tool.Files.{
  Node, Entries, dir, at, Stat, present, absent, broken, System, resolve, lstat, validate_src_dest,
  prune, walk_destination, delete_missing_files, skips, run_copy, copy_file, copy_valid, copy_files,
  sync_valid, sync_files,
}
use backup_tool.Files.Trees.{View, view, IsTree}
use backup_tool.Files.Pruning.{stays, left_of}
use backup_tool.Files.Survivors.{prune-view}
use backup_tool.Files.Agreement.{reaches, reached, SameKinds}

-- What the copy reaches in a tree, as it stands there.
abbrev pub filtered : (List Chars → Bool → Bool) → Node → List Chars → Option View
filtered skip n names = if reaches skip [] n names then view (some n) names else none

abbrev pub over : Option View → Option View → Option View
over none v = v
over (some u) v = some u

-- The destination is a tree, if there is one.
abbrev pub IsTreeIfAny : Option Node → Type 0
IsTreeIfAny none = Unit
IsTreeIfAny (some n) = IsTree n

-- Copy with directories merged: a copy that ends without an error leaves each path that it reaches
-- as it is in the source, and any other as it was.
abbrev pub Merges : {X : Type 0} → System X → (List Chars → Bool → Bool) → Node → Type 0
Merges y skip n =
    (dest : Option Node)
    → (y.copy skip (some n) [] dest).0 ≡ none
    → (names : List Chars)
    → view (y.copy skip (some n) [] dest).1 names ≡ over (filtered skip n names) (view dest names)

wrap-none : (E : Errors) (e : Option E.Error) (s : String) → wrap E e s ≡ none → e ≡ none
wrap-none E none s h = refl
wrap-none E (some x) s h = absurd (ground (arith, h))

module _ {X : Type 0} where
  -- A step that goes on where an earlier one ended without an error.
  abbrev pub unless :
      Option X → (X → X) → Option Node → Option X × Option Node → Option X × Option Node
  unless e fault stuck go = elim e as (λ _. Option X × Option Node) [
    | some x ↦ (some (fault x), stuck)
    | none ↦ go
  ]

  unless-none :
      (e : Option X) (fault : X → X) (stuck : Option Node) (go : Option X × Option Node)
      → (unless e fault stuck go).0 ≡ none
      → (e ≡ none) × (go.0 ≡ none) × ((unless e fault stuck go).1 ≡ go.1)
  unless-none none fault stuck go h = (refl, h, refl)
  unless-none (some x) fault stuck go h = absurd (ground (arith, h))

  -- A step for each kind of what stands at the source, of which that for a directory is taken.
  abbrev pub if_directory :
      Stat X
      → (X → X)
      → Option Node
      → Option X × Option Node
      → Option X × Option Node
      → Option X × Option Node
  if_directory s fault stuck other go = elim s as (λ _. Option X × Option Node) [
    | broken x ↦ (some (fault x), stuck)
    | absent x ↦ (some (fault x), stuck)
    | present false ↦ other
    | present true ↦ go
  ]

  if_directory-none :
      (y : System X) (o : Option X) (es : Entries) (fault : X → X) (stuck : Option Node)
      (other go : Option X × Option Node)
      → (if_directory (lstat y o (some (dir es)) []) fault stuck other go).0 ≡ none
      → (go.0 ≡ none)
        × ((if_directory (lstat y o (some (dir es)) []) fault stuck other go).1 ≡ go.1)
  unfolding lstat resolve
  if_directory-none y none es fault stuck other go h = (h, refl)
  if_directory-none y (some x) es fault stuck other go h = absurd (ground (arith, h))

over-same : (u v : Option View) → (u ≡ none → v ≡ none) → over u v ≡ u
over-same none v h = h refl
over-same (some x) v h = refl

module _ (E : Errors) (y : System E.Error) (g : Globs) (f : FileFilter) (es : Entries) where
  abbrev source : Option Node
  source = some (dir es)

  -- The walk of an existing or missing destination.
  walk-left :
      (o : Option E.Error) (dest : Option Node)
      → IsTreeIfAny dest
      → (walk_destination E y g f source (lstat y o dest []) dest).0 ≡ none
      → (names : List Chars)
      → view (walk_destination E y g f source (lstat y o dest []) dest).1 names
        ≡ left_of E y g f source [] dest names
  unfolding walk_destination lstat resolve at
  walk-left (some x) dest tree h names = absurd (ground (arith, h))
  walk-left none none tree h names = refl
  walk-left none (some n) tree h names =
      prune-view E y g f source [] n tree (wrap-none E (prune E y g f source [] n).0 _ h) names

  pub delete-left :
      (dest : Option Node)
      → IsTreeIfAny dest
      → (delete_missing_files E y g f source dest).0 ≡ none
      → (names : List Chars)
      → view (delete_missing_files E y g f source dest).1 names
        ≡ left_of E y g f source [] dest names
  unfolding delete_missing_files lstat resolve
  delete-left dest tree h names =
      let (done, same) =
        if_directory-none y (y.source_fault []) es (λ x. E.wrap_error x "failed to get file info")
          dest (none, dest) (walk_destination E y g f source (lstat y y.dest_fault dest []) dest)
          h in
      ap (λ n. view n names) same ∙ walk-left y.dest_fault dest tree done names

  copy-merged :
      Merges y (skips E y g f source) (dir es)
      → (src dest_path : Chars) (dest : Option Node)
      → (copy_files E y g f source src dest_path dest).0 ≡ none
      → (names : List Chars)
      → view (copy_files E y g f source src dest_path dest).1 names
        ≡ over (filtered (skips E y g f source) (dir es) names) (view dest names)
  unfolding copy_files copy_valid run_copy lstat resolve
  copy-merged merges src dest_path dest h names =
      let (valid, done, same) =
        unless-none (validate_src_dest E src dest_path) (λ x. x) dest
          (copy_valid E y g f source src dest_path dest) h in
      let (copied, same_copy) =
        if_directory-none y (y.source_fault []) es
          (λ x. E.wrap_error x "failed to get file info for source path") dest
          (copy_file E y g f source src dest_path (lstat y y.dest_fault dest []) dest)
          (run_copy E y g f source [] dest) done in
      ap (λ n. view n names) (same ∙ same_copy)
      ∙ merges dest (wrap-none E (y.copy (skips E y g f source) source [] dest).0 _ copied) names

  -- A path that stays in the destination is shown by the source as well.
  shown-filtered :
      (n : Node) (names : List Chars)
      → SameKinds source (some n)
      → filtered (skips E y g f source) (dir es) names ≡ none
      → left_of E y g f source [] (some n) names ≡ none
  unfolding at
  shown-filtered n names same h = elim (Bool-cases (stays E y g f source [] n names)) [
    | inr gone ↦ rw gone refl
    | inl stay ↦ elim (Option-cases (at (some n) names)) [
      | inl nothing ↦ rw (stay, nothing) refl
      | inr (k, found) ↦
          let (r, (l, there)) =
            reached E y g f source (some n) same [] n (dir es) names k refl refl stay found in
          absurd (ground (arith, h, r, there))
    ]
  ]

  filtered-left :
      (dest : Option Node) (names : List Chars)
      → SameKinds source dest
      → over (filtered (skips E y g f source) (dir es) names) (left_of E y g f source [] dest names)
        ≡ filtered (skips E y g f source) (dir es) names
  filtered-left none names same = over-same _ none (λ _. refl)
  filtered-left (some n) names same = over-same _ _ (shown-filtered n names same)

  -- Where the copy library merges directories, the destination has one entry of a name at most in a
  -- directory, and no path is a directory on one side and a file on the other: after a sync of a
  -- directory that ends without an error, each path of the destination shows what the filtered source
  -- shows, whatever stood there.
  pub sync_files-filtered :
      Merges y (skips E y g f source) (dir es)
      → (src dest_path : Chars) (dest : Option Node) → IsTreeIfAny dest
      → SameKinds source dest
      → (sync_files E y g f source src dest_path dest).0 ≡ none
      → (names : List Chars)
      → view (sync_files E y g f source src dest_path dest).1 names
        ≡ filtered (skips E y g f source) (dir es) names
  unfolding sync_files sync_valid
  sync_files-filtered merges src dest_path dest tree same h names =
      let (valid, done, same_sync) =
        unless-none (validate_src_dest E src dest_path) (λ x. x) dest
          (sync_valid E y g f source src dest_path dest) h in
      let left = delete_missing_files E y g f source dest in
      let (deleted, copied, same_copy) =
        unless-none left.0 (λ x. E.wrap_error x "failed to delete missing files") left.1
          (copy_files E y g f source src dest_path left.1) done in
      ap (λ n. view n names) (same_sync ∙ same_copy)
      ∙ copy-merged merges src dest_path left.1 copied names
      ∙ ap (over (filtered (skips E y g f source) (dir es) names))
          (delete-left dest tree deleted names)
      ∙ filtered-left dest names same
