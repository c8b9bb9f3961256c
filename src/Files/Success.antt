-- ===== src/Files/Success.antt =====
-- When SyncFiles (pkg/files/transfer.go) of a directory ends without an error.
use backup_tool.Base.{
  ◌≡◌, ◌≢◌, refl, ◌∙◌, ap, String, Bool, true, false, Bool-cases, Option, none, some, Option-cases,
  List, [], ◌∷◌, ◌++◌, ◌==◌, list_eq, beq_refl, inl, inr, arith,
}
use backup_tool.Base.Text.{Chars}
use backup_tool.Errors.{Errors, wrap}
use backup_tool.Filters.{FileFilter, Globs, should_transfer}
use backup_tool.Files.{
  is_dir, Node, Entries, file, dir, end, entry, relative, find, at, Stat, present, absent, broken,
  System, with_entry, resolve, lstat, lstat_source, validate_src_dest, remove, read_entries, prune,
  prune_entries, walk_destination, delete_missing_files, skips, run_copy, copy_file, copy_valid,
  copy_files, sync_valid, sync_files,
}
use backup_tool.Files.Trees.{view_of, view, shown, IsTree, AreTrees}
use backup_tool.Files.Pruning.{decided, walked, stays, left_of}
use backup_tool.Files.Survivors.{then_rest}
use backup_tool.Files.Agreement.{SameKinds, at-++}
use backup_tool.Files.Mirror.{delete-left, IsTreeIfAny, unless, if_directory}

-- The operating system reports no fault, and the copy library none for one source.
pub record IsFaultless {X : Type 0} (y : System X) (skip : List Chars → Bool → Bool)
    (source : Option Node) : Type 0 where
  pub source_read : (names : List Chars) → y.source_fault names ≡ none
  pub dest_read : y.dest_fault ≡ none
  pub entries_read : (names : List Chars) → y.read_fault names ≡ none
  pub removed : (names : List Chars) (n : Node) → (y.remove_all names n).0 ≡ none
  pub copied : (dest : Option Node) → SameKinds source dest → (y.copy skip source [] dest).0 ≡ none

-- A path of the destination is not below a file of the source.
resolve-found :
    {X : Type 0} (y : System X) (o dest : Option Node) (names : List Chars) (n : Node) (x : X)
    → SameKinds o dest
    → at dest names ≡ some n
    → resolve y o names ≢ broken x
unfolding resolve at
resolve-found y none dest names n x same e = λ h. absurd (ground (arith, h))
resolve-found y (some m) dest [] n x same e = λ h. absurd (ground (arith, h))
resolve-found y (some (file c)) none (name ∷ names) n x same e = absurd (ground (arith, e))
resolve-found y (some (file c)) (some (file d)) (name ∷ names) n x same e =
    absurd (ground (arith, e))
resolve-found y (some (file c)) (some (dir fs)) (name ∷ names) n x same e =
    absurd (ground (arith, same [] (file c) (dir fs) refl refl))
resolve-found y (some (dir es)) none (name ∷ names) n x same e = absurd (ground (arith, e))
resolve-found y (some (dir es)) (some (file d)) (name ∷ names) n x same e =
    absurd (ground (arith, e))
resolve-found y (some (dir es)) (some (dir fs)) (name ∷ names) n x same e =
    resolve-found y (find es name) (find fs name) names n x (λ path. same (name ∷ path)) e

-- The first of the entries, and the others where it is not among them.
find-first : (name : Chars) (n : Node) (es : Entries) → find (entry name n es) name ≡ some n
unfolding find
find-first name n es = rw (beq_refl name) refl

find-other :
    (name x : Chars) (n m : Node) (es : Entries)
    → find es name ≡ none
    → find es x ≡ some m
    → find (entry name n es) x ≡ some m
unfolding find
find-other name x n m es fresh e = elim (Bool-cases (name == x)) [
  | inr other ↦ rw other e
  | inl same ↦ absurd (ground (arith, fresh, e, list_eq.beq_iff name x, same))
]

module _ (E : Errors) (y : System E.Error) (g : Globs) (f : FileFilter) (source : Option Node)
    (fine : IsFaultless y (skips E y g f source) source) (dest : Option Node)
    (same : SameKinds source dest) where
  decided-ends :
      (s : Stat E.Error) (t : Bool) (keep gone : Option E.Error × Option Node)
      (fault : E.Error → E.Error) (stuck : Option Node)
      → ((x : E.Error) → s ≢ broken x)
      → keep.0 ≡ none
      → gone.0 ≡ none
      → (decided E y g f source s t keep gone fault stuck).0 ≡ none
  decided-ends (present b) true keep gone fault stuck sound k r = k
  decided-ends (present b) false keep gone fault stuck sound k r = r
  decided-ends (absent x) t keep gone fault stuck sound k r = r
  decided-ends (broken x) t keep gone fault stuck sound k r = absurd (sound x refl)

  found_sound :
      (here : List Chars) (n : Node)
      → at dest here ≡ some n
      → (x : E.Error) → lstat_source y source here ≢ broken x
  unfolding lstat
  found_sound here n e x =
      rw (fine.source_read here, lstat) (resolve-found y source dest here n x same e)

  remove-ends : (here : List Chars) (n : Node) → (remove E y g f source here n).0 ≡ none
  remove-ends here n = rw (fine.removed here n, remove) refl

  walked-ends :
      (here : List Chars) (es : Entries)
      → (prune_entries E y g f source here es).0 ≡ none
      → (walked E y g f source here es).0 ≡ none
  walked-ends here es h = rw (fine.entries_read here, read_entries, walked) h

  entries-found :
      (here : List Chars) (es : Entries)
      → at dest here ≡ some (dir es)
      → (name : Chars) (n : Node) → find es name ≡ some n
      → at dest (here ++ name ∷ []) ≡ some n
  unfolding at
  entries-found here es e name n there =
      at-++ dest here (dir es) (name ∷ []) e ∙ ap (λ o. at o []) there

  then_rest-ends :
      (e : Option E.Error) (stopped : Entries) (rest : Option E.Error) (left : Entries)
      → e ≡ none
      → rest ≡ none
      → (then_rest E y g f source e stopped rest left).0 ≡ none
  then_rest-ends none stopped rest left h r = r
  then_rest-ends (some x) stopped rest left h r = absurd (ground (arith, h))

  mutual
    unfolding prune IsTree

    prune-ends :
        (here : List Chars) (n : Node)
        → IsTree n
        → at dest here ≡ some n
        → (prune E y g f source here n).0 ≡ none
    prune-ends here (file c) tree e =
        decided-ends (lstat_source y source here) (should_transfer g f (relative here) false)
          (none, some (file c)) (remove E y g f source here (file c))
          (λ x. E.wrap_error x "failed to lstat") (some (file c)) (found_sound here (file c) e) refl
          (remove-ends here (file c))
    prune-ends here (dir es) tree e =
        decided-ends (lstat_source y source here) (should_transfer g f (relative here) true)
          ((walked E y g f source here es).0, some (dir (walked E y g f source here es).1))
          (remove E y g f source here (dir es)) (λ x. E.wrap_error x "failed to lstat")
          (some (dir es)) (found_sound here (dir es) e)
          (walked-ends here es (prune_entries-ends here es tree (entries-found here es e)))
          (remove-ends here (dir es))

    prune_entries-ends :
        (here : List Chars) (es : Entries)
        → AreTrees es
        → ((name : Chars) (n : Node) → find es name ≡ some n → at dest (here ++ name ∷ []) ≡ some n)
        → (prune_entries E y g f source here es).0 ≡ none
    prune_entries-ends here end trees e = refl
    prune_entries-ends here (entry name n es) (fresh, tree, trees) e =
        then_rest-ends (prune E y g f source (here ++ name ∷ []) n).0
          (with_entry name (prune E y g f source (here ++ name ∷ []) n).1 es)
          (prune_entries E y g f source here es).0
          (with_entry name (prune E y g f source (here ++ name ∷ []) n).1
            (prune_entries E y g f source here es).1)
          (prune-ends (here ++ name ∷ []) n tree (e name n (find-first name n es)))
          (prune_entries-ends here es trees
            (λ x m there. e x m (find-other name x n m es fresh there)))

unless-ends :
    {X : Type 0} (e : Option X) (fault : X → X) (stuck : Option Node) (go : Option X × Option Node)
    → e ≡ none
    → go.0 ≡ none
    → (unless e fault stuck go).0 ≡ none
unless-ends none fault stuck go h r = r
unless-ends (some x) fault stuck go h r = absurd (ground (arith, h))

wrapped-none : (E : Errors) (e : Option E.Error) (s : String) → e ≡ none → wrap E e s ≡ none
wrapped-none E none s h = refl
wrapped-none E (some x) s h = absurd (ground (arith, h))

kind_of : (m n : Node) → view_of m ≡ view_of n → is_dir m ≡ is_dir n
kind_of (file c) (file d) h = refl
kind_of (file c) (dir es) h = absurd (ground (arith, h))
kind_of (dir es) (file d) h = absurd (ground (arith, h))
kind_of (dir es) (dir fs) h = refl

module _ (E : Errors) (y : System E.Error) (g : Globs) (f : FileFilter) (es : Entries) where
  abbrev source_dir : Option Node
  source_dir = some (dir es)

  module _ (fine : IsFaultless y (skips E y g f source_dir) source_dir) where
    if_directory-ends :
        (o : Option E.Error) (fault : E.Error → E.Error) (stuck : Option Node)
        (other go : Option E.Error × Option Node)
        → o ≡ none
        → go.0 ≡ none
        → (if_directory (lstat y o source_dir []) fault stuck other go).0 ≡ none
    unfolding lstat
    if_directory-ends none fault stuck other go h r = r
    if_directory-ends (some x) fault stuck other go h r = absurd (ground (arith, h))

    walk-ends :
        (dest : Option Node)
        → IsTreeIfAny dest
        → SameKinds source_dir dest
        → (o : Option E.Error) → o ≡ none
        → (walk_destination E y g f source_dir (lstat y o dest []) dest).0 ≡ none
    unfolding walk_destination lstat at
    walk-ends dest tree same (some x) h = absurd (ground (arith, h))
    walk-ends none tree same none h = refl
    walk-ends (some n) tree same none h =
        wrapped-none E (prune E y g f source_dir [] n).0 _
          (prune-ends E y g f source_dir fine (some n) same [] n tree refl)

    -- What the walk leaves has the kinds that it had.
    SameKinds-left :
        (dest left : Option Node)
        → SameKinds source_dir dest
        → ((names : List Chars) → view left names ≡ left_of E y g f source_dir [] dest names)
        → SameKinds source_dir left
    SameKinds-left none left same shows names m n p q =
        absurd (ground (arith, shows names, ap shown q))
    SameKinds-left (some d) left same shows names m n p q =
        elim (Bool-cases (stays E y g f source_dir [] d names)) [
          | inr gone ↦ absurd (ground (arith, shows names, ap shown q, gone))
          | inl stay ↦ elim (Option-cases (at (some d) names)) [
            | inl nothing ↦ absurd (ground (arith, shows names, ap shown q, stay, nothing))
            | inr (l, there) ↦
                same names m l p there
                ∙ kind_of l n (ground (arith, shows names, ap shown q, stay, there))
          ]
        ]

    copy-ends :
        (src dest_path : Chars) (dest : Option Node)
        → SameKinds source_dir dest
        → validate_src_dest E src dest_path ≡ none
        → (copy_files E y g f source_dir src dest_path dest).0 ≡ none
    unfolding copy_files copy_valid run_copy
    copy-ends src dest_path dest same valid =
        unless-ends (validate_src_dest E src dest_path) (λ x. x) dest
          (copy_valid E y g f source_dir src dest_path dest) valid
          (if_directory-ends (y.source_fault [])
            (λ x. E.wrap_error x "failed to get file info for source path") dest
            (copy_file E y g f source_dir src dest_path (lstat y y.dest_fault dest []) dest)
            (run_copy E y g f source_dir [] dest) (fine.source_read [])
            (wrapped-none E (y.copy (skips E y g f source_dir) source_dir [] dest).0 _
              (fine.copied dest same)))

    -- Where neither path is blank, the operating system reports no fault, the copy library reports none
    -- for a destination in which no path of the source is of the other kind, the destination has one
    -- entry of a name at most in a directory, and no path is a directory on one side and a file on the
    -- other, a sync of a directory ends without an error.
    pub sync_files-succeeds :
        (src dest_path : Chars) (dest : Option Node)
        → validate_src_dest E src dest_path ≡ none
        → IsTreeIfAny dest
        → SameKinds source_dir dest
        → (sync_files E y g f source_dir src dest_path dest).0 ≡ none
    unfolding sync_files sync_valid delete_missing_files
    sync_files-succeeds src dest_path dest valid tree same =
        let left = delete_missing_files E y g f source_dir dest in
        let deleted : left.0 ≡ none =
          if_directory-ends (y.source_fault []) (λ x. E.wrap_error x "failed to get file info") dest
            (none, dest) (walk_destination E y g f source_dir (lstat y y.dest_fault dest []) dest)
            (fine.source_read []) (walk-ends dest tree same y.dest_fault fine.dest_read) in
        unless-ends (validate_src_dest E src dest_path) (λ x. x) dest
          (sync_valid E y g f source_dir src dest_path dest) valid
          (unless-ends left.0 (λ x. E.wrap_error x "failed to delete missing files") left.1
            (copy_files E y g f source_dir src dest_path left.1) deleted
            (copy-ends src dest_path left.1
              (SameKinds-left dest left.1 same (delete-left E y g f es dest tree deleted)) valid))
