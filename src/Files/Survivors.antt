-- ===== src/Files/Survivors.antt =====
-- What each path shows after the walk of deleteMissingFiles (pkg/files/transfer.go).
use backup_tool.Base.{
  ◌≡◌, refl, subst, ◌∙◌, ap, Bool, true, false, Bool-cases, Option, none, some, List, [], ◌∷◌, ◌++◌,
  if◌then◌else◌, ◌==◌, list_eq, beq_refl, inl, inr, arith,
}
use backup_tool.Base.Text.{Chars}
use backup_tool.Errors.{Errors}
use backup_tool.Filters.{FileFilter, Globs}
use backup_tool.Files.{
  Node, Entries, file, dir, end, entry, with_entry, find, at, System, prune, prune_entries,
}
use backup_tool.Files.Trees.{view, IsTree, AreTrees}
use backup_tool.Files.Pruning.{kept, stays, left_of, walked, prune-file, prune-dir, prune-entries}

find-with_entry :
    (name x : Chars) (o : Option Node) (es : Entries)
    → (name == x) ≡ false
    → find (with_entry name o es) x ≡ find es x
unfolding find
find-with_entry name x none es h = refl
find-with_entry name x (some n) es h = rw h refl

view-with_entry :
    (name : Chars) (o : Option Node) (es : Entries) (names : List Chars)
    → view (find es name) names ≡ none
    → view (find (with_entry name o es) name) names ≡ view o names
unfolding find at
view-with_entry name none es names h = h
view-with_entry name (some n) es names h = rw (beq_refl name) refl

module _ (E : Errors) (y : System E.Error) (g : Globs) (f : FileFilter) (source : Option Node) where
  -- What the walk of entries makes of the walk of the first and of the others.
  abbrev pub then_rest :
      Option E.Error → Entries → Option E.Error → Entries → Option E.Error × Entries
  then_rest e stopped rest left = elim e as (λ _. Option E.Error × Entries) [
    | some x ↦ (some x, stopped)
    | none ↦ (rest, left)
  ]

  then_rest-none :
      (e : Option E.Error) (stopped : Entries) (rest : Option E.Error) (left : Entries)
      → (then_rest e stopped rest left).0 ≡ none
      → (e ≡ none) × (rest ≡ none) × ((then_rest e stopped rest left).1 ≡ left)
  then_rest-none none stopped rest left h = (refl, h, refl)
  then_rest-none (some x) stopped rest left h = absurd (ground (arith, h))

  -- An entry that is walked without an error, and those after it.
  prune_entries-entry :
      (here : List Chars) (name : Chars) (n : Node) (es : Entries)
      → (prune_entries E y g f source here (entry name n es)).0 ≡ none
      → ((prune E y g f source (here ++ name ∷ []) n).0 ≡ none)
        × ((prune_entries E y g f source here es).0 ≡ none)
        × ((prune_entries E y g f source here (entry name n es)).1
            ≡ with_entry name
                (prune E y g f source (here ++ name ∷ []) n).1
                (prune_entries E y g f source here es).1)
  unfolding prune
  prune_entries-entry here name n es =
      then_rest-none (prune E y g f source (here ++ name ∷ []) n).0
        (with_entry name (prune E y g f source (here ++ name ∷ []) n).1 es)
        (prune_entries E y g f source here es).0
        (with_entry name (prune E y g f source (here ++ name ∷ []) n).1
          (prune_entries E y g f source here es).1)

  left_of_lem :
      (here : List Chars) (o : Option Node) (names : List Chars)
      → left_of E y g f source here o names ≡ (
          if (elim o as (λ _. Bool) [ none ↦ true | some m ↦ stays E y g f source here m names ])
          then view o names
          else none)
  unfolding at
  left_of_lem here none names = refl
  left_of_lem here (some n) names = refl

  -- What is left below a directory shows.
  below :
      (here : List Chars) (es left : Entries) (name : Chars) (names : List Chars)
      → (kept E y g f source here (dir es) ≡ true
          → view (find left name) names
            ≡ left_of E y g f source (here ++ name ∷ []) (find es name) names)
      → view (if kept E y g f source here (dir es) then some (dir left) else none) (name ∷ names)
        ≡ left_of E y g f source here (some (dir es)) (name ∷ names)
  unfolding stays at
  below here es left name names h = elim (Bool-cases (kept E y g f source here (dir es))) [
    | inl k ↦ rw k (h k ∙ left_of_lem (here ++ name ∷ []) (find es name) names)
    | inr k ↦ rw k refl
  ]

  file-view :
      (here : List Chars) (c : Chars) (names : List Chars)
      → view (if kept E y g f source here (file c) then some (file c) else none) names
        ≡ left_of E y g f source here (some (file c)) names
  unfolding stays at
  file-view here c [] = elim (Bool-cases (kept E y g f source here (file c))) [
    | inl k ↦ rw k refl
    | inr k ↦ rw k refl
  ]
  file-view here c (name ∷ names) = elim (Bool-cases (kept E y g f source here (file c))) [
    | inl k ↦ rw k refl
    | inr k ↦ rw k refl
  ]

  dir-view :
      (here : List Chars) (es left : Entries)
      → view (if kept E y g f source here (dir es) then some (dir left) else none) []
        ≡ left_of E y g f source here (some (dir es)) []
  unfolding stays at
  dir-view here es left = elim (Bool-cases (kept E y g f source here (dir es))) [
    | inl k ↦ rw k refl
    | inr k ↦ rw k refl
  ]

  first-view :
      (here : List Chars) (m : Chars) (n : Node) (o : Option Node) (es left : Entries)
      (names : List Chars)
      → find es m ≡ none
      → view o names ≡ left_of E y g f source (here ++ m ∷ []) (some n) names
      → view (find left m) names ≡ left_of E y g f source (here ++ m ∷ []) (find es m) names
      → view (find (with_entry m o left) m) names
        ≡ left_of E y g f source (here ++ m ∷ []) (find (entry m n es) m) names
  unfolding find
  first-view here m n o es left names fresh first other = rw (beq_refl m) (
      view-with_entry m o left names
        (other ∙ ap (λ t. left_of E y g f source (here ++ m ∷ []) t names) fresh)
      ∙ first)

  -- What the entries show, from what the first and the others show.
  entries-view :
      (here : List Chars) (m : Chars) (n : Node) (o : Option Node) (es left : Entries)
      (name : Chars) (names : List Chars)
      → find es m ≡ none
      → view o names ≡ left_of E y g f source (here ++ m ∷ []) (some n) names
      → ((x : Chars)
          → view (find left x) names ≡ left_of E y g f source (here ++ x ∷ []) (find es x) names)
      → view (find (with_entry m o left) name) names
        ≡ left_of E y g f source (here ++ name ∷ []) (find (entry m n es) name) names
  unfolding find
  entries-view here m n o es left name names fresh first others = elim (Bool-cases (m == name)) [
    | inl e ↦
        subst
          (λ x.
            view (find (with_entry m o left) x) names
            ≡ left_of E y g f source (here ++ x ∷ []) (find (entry m n es) x) names)
          ((list_eq.beq_iff m name).0 e)
          (first-view here m n o es left names fresh first (others m))
    | inr e ↦ rw e (ap (λ t. view t names) (find-with_entry m name o left e) ∙ others name)
  ]

  mutual
    unfolding prune IsTree find at stays

    pub prune-view :
        (here : List Chars) (n : Node)
        → IsTree n
        → (prune E y g f source here n).0 ≡ none
        → (names : List Chars)
        → view (prune E y g f source here n).1 names ≡ left_of E y g f source here (some n) names
    prune-view here (file c) tree h names =
        ap (λ t. view t names) (prune-file E y g f source here c h) ∙ file-view here c names
    prune-view here (dir es) tree h [] =
        ap (λ t. view t []) (prune-dir E y g f source here es h)
        ∙ dir-view here es (walked E y g f source here es).1
    prune-view here (dir es) tree h (name ∷ names) =
        ap (λ t. view t (name ∷ names)) (prune-dir E y g f source here es h)
        ∙ below here es (walked E y g f source here es).1 name names (λ k.
          let (done, same) = prune-entries E y g f source here es h k in
          ap (λ t. view (find t name) names) same ∙ prune_entries-view here es tree done name names)

    prune_entries-view :
        (here : List Chars) (es : Entries)
        → AreTrees es
        → (prune_entries E y g f source here es).0 ≡ none
        → (name : Chars) (names : List Chars)
        → view (find (prune_entries E y g f source here es).1 name) names
          ≡ left_of E y g f source (here ++ name ∷ []) (find es name) names
    prune_entries-view here end trees h name names = refl
    prune_entries-view here (entry m n es) (fresh, tree, trees) h name names =
        let (done, rest, left) = prune_entries-entry here m n es h in
        ap (λ t. view (find t name) names) left
        ∙ entries-view here m n (prune E y g f source (here ++ m ∷ []) n).1 es
            (prune_entries E y g f source here es).1 name names fresh
            (prune-view (here ++ m ∷ []) n tree done names)
            (λ x. prune_entries-view here es trees rest x names)
