-- ===== src/Files/Pruning.antt =====
-- What the walk of deleteMissingFiles (pkg/files/transfer.go) leaves where it ends without an error.
use backup_tool.Base.{
  ◌≡◌, refl, sym, ◌∙◌, Bool, true, false, ◌&&◌, Option, none, some, Option-cases, List, [], ◌∷◌,
  ◌++◌, if◌then◌else◌, list_eq, inl, inr, arith,
}
use backup_tool.Base.Text.{Chars}
use backup_tool.Errors.{Errors}
use backup_tool.Filters.{FileFilter, Globs, should_transfer}
use backup_tool.Files.{
  Node, Entries, file, dir, is_dir, relative, find, Stat, present, absent, broken, System,
  lstat_source, remove, read_entries, prune, prune_entries,
}
use backup_tool.Files.Trees.{View, view}

module _ (E : Errors) (y : System E.Error) (g : Globs) (f : FileFilter) (source : Option Node) where
  -- A path of the destination that the walk keeps: it is in the source, and the filter lets it through.
  unfoldable pub kept : List Chars → Node → Bool
  kept here n = elim (lstat_source y source here) as (λ _. Bool) [
    | present _ ↦ should_transfer g f (relative here) (is_dir n)
    | absent _ ↦ false
    | broken _ ↦ false
  ]

  -- The path and all above it are kept, from `here` on.
  unfoldable pub stays : List Chars → Node → List Chars → Bool
  unfolding kept find
  stays here n [] = kept here n
  stays here (file c) (name ∷ names) = kept here (file c)
  stays here (dir es) (name ∷ names) = kept here (dir es) && (elim (find es name) as (λ _. Bool) [
    | none ↦ true
    | some m ↦ stays (here ++ name ∷ []) m names
  ])

  -- What is left of what may be there.
  abbrev pub left_of : List Chars → Option Node → List Chars → Option View
  left_of here none names = none
  left_of here (some n) names = if stays here n names then view (some n) names else none

  remove-none :
      (here : List Chars) (n : Node)
      → (remove E y g f source here n).0 ≡ none
      → (remove E y g f source here n).1 ≡ none
  remove-none here n h = elim (Option-cases (y.remove_all here n).0) [
    | inl done ↦ rw (done, remove) refl
    | inr (x, failed) ↦ absurd (ground (arith, failed, h))
  ]

  -- What the walk does with a path, from what becomes of it where it is kept and where it is not.
  abbrev pub decided :
      Stat E.Error
      → Bool
      → Option E.Error × Option Node
      → Option E.Error × Option Node
      → (E.Error → E.Error)
      → Option Node
      → Option E.Error × Option Node
  decided s t keep gone fault stuck = elim s as (λ _. Option E.Error × Option Node) [
    | present _ ↦ if t then keep else gone
    | absent _ ↦ gone
    | broken x ↦ (some (fault x), stuck)
  ]

  decided-none :
      (s : Stat E.Error) (t : Bool) (keep gone : Option E.Error × Option Node)
      (fault : E.Error → E.Error) (stuck : Option Node)
      → (gone.0 ≡ none → gone.1 ≡ none)
      → (decided s t keep gone fault stuck).0 ≡ none
      → (decided s t keep gone fault stuck).1 ≡ (
          if (elim s as (λ _. Bool) [ present _ ↦ t | absent _ ↦ false | broken _ ↦ false ])
          then keep.1
          else none)
  decided-none (present b) true keep gone fault stuck left h = refl
  decided-none (present b) false keep gone fault stuck left h = left h
  decided-none (absent x) t keep gone fault stuck left h = left h
  decided-none (broken x) t keep gone fault stuck left h = absurd (ground (arith, h))

  decided-kept :
      (s : Stat E.Error) (t : Bool) (keep gone : Option E.Error × Option Node)
      (fault : E.Error → E.Error) (stuck : Option Node)
      → (decided s t keep gone fault stuck).0 ≡ none
      → (elim s as (λ _. Bool) [ present _ ↦ t | absent _ ↦ false | broken _ ↦ false ]) ≡ true
      → keep.0 ≡ none
  decided-kept (present b) true keep gone fault stuck h k = h
  decided-kept (present b) false keep gone fault stuck h k = absurd (ground (arith, k))
  decided-kept (absent x) t keep gone fault stuck h k = absurd (ground (arith, k))
  decided-kept (broken x) t keep gone fault stuck h k = absurd (ground (arith, k))

  -- A node that is not kept is removed, and one that is kept is left with what is left below it.
  pub prune-file :
      (here : List Chars) (c : Chars)
      → (prune E y g f source here (file c)).0 ≡ none
      → (prune E y g f source here (file c)).1
        ≡ (if kept here (file c) then some (file c) else none)
  unfolding prune kept
  prune-file here c =
      decided-none (lstat_source y source here) (should_transfer g f (relative here) false)
        (none, some (file c)) (remove E y g f source here (file c))
        (λ x. E.wrap_error x "failed to lstat") (some (file c)) (remove-none here (file c))

  -- The walk of a directory that is kept.
  abbrev pub walked : List Chars → Entries → Option E.Error × Entries
  walked here es = read_entries E y g f source here es (prune_entries E y g f source here es)

  read_entries-none :
      (here : List Chars) (es : Entries) (w : Option E.Error × Entries)
      → (read_entries E y g f source here es w).0 ≡ none
      → (w.0 ≡ none) × ((read_entries E y g f source here es w).1 ≡ w.1)
  read_entries-none here es w h = elim (Option-cases (y.read_fault here)) [
    | inl fine ↦ (sym (rw (fine, read_entries) refl) ∙ h, rw (fine, read_entries) refl)
    | inr (x, failed) ↦ absurd (ground (arith, failed, h))
  ]

  pub prune-dir :
      (here : List Chars) (es : Entries)
      → (prune E y g f source here (dir es)).0 ≡ none
      → (prune E y g f source here (dir es)).1
        ≡ (if kept here (dir es) then some (dir (walked here es).1) else none)
  unfolding prune kept
  prune-dir here es =
      decided-none (lstat_source y source here) (should_transfer g f (relative here) true)
        ((walked here es).0, some (dir (walked here es).1)) (remove E y g f source here (dir es))
        (λ x. E.wrap_error x "failed to lstat") (some (dir es)) (remove-none here (dir es))

  -- A directory whose walk ends without an error and that is kept has been walked without one.
  pub prune-entries :
      (here : List Chars) (es : Entries)
      → (prune E y g f source here (dir es)).0 ≡ none
      → kept here (dir es) ≡ true
      → ((prune_entries E y g f source here es).0 ≡ none)
        × ((walked here es).1 ≡ (prune_entries E y g f source here es).1)
  unfolding prune kept
  prune-entries here es h k = read_entries-none here es (prune_entries E y g f source here es) (
      decided-kept (lstat_source y source here) (should_transfer g f (relative here) true)
        ((walked here es).0, some (dir (walked here es).1)) (remove E y g f source here (dir es))
        (λ x. E.wrap_error x "failed to lstat") (some (dir es)) h k)
