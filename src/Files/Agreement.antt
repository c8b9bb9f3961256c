-- ===== src/Files/Agreement.antt =====
-- A path that the walk leaves in the destination is one that the copy reaches in the source: the
-- callback Skip of copyFiles and the test of deleteMissingFiles (pkg/files/transfer.go) agree.
use backup_tool.Base.{
  ◌≡◌, refl, sym, ◌∙◌, ap, subst, Bool, true, false, not, ◌&&◌, Bool-cases, Option, none, some,
  Option-cases, List, [], ◌∷◌, ◌++◌, list_eq, inl, inr, arith,
}
use backup_tool.Base.Text.{Chars}
use backup_tool.Errors.{Errors}
use backup_tool.Filters.{FileFilter, Globs, should_transfer, filter_is_zero}
use backup_tool.Files.{
  Node, Entries, file, dir, is_dir, relative, find, at, Stat, present, absent, broken, System,
  resolve, lstat, lstat_source, skips,
}
use backup_tool.Files.Pruning.{kept, stays}

-- Whether the copy comes to a path below a node: no directory above it is skipped, nor is it.
unfoldable pub reaches : (List Chars → Bool → Bool) → List Chars → Node → List Chars → Bool
unfolding find
reaches skip here n [] = not (skip here (is_dir n))
reaches skip here (file c) (name ∷ names) = not (skip here false)
reaches skip here (dir es) (name ∷ names) =
    not (skip here true) && (elim (find es name) as (λ _. Bool) [
      | none ↦ true
      | some m ↦ reaches skip (here ++ name ∷ []) m names
    ])

-- A path in both trees is a directory in both or in neither.
abbrev pub SameKinds : Option Node → Option Node → Type 0
SameKinds a b =
    (names : List Chars) (m n : Node)
    → at a names ≡ some m
    → at b names ≡ some n
    → is_dir m ≡ is_dir n

pub at-++ :
    (o : Option Node) (here : List Chars) (n : Node) (names : List Chars)
    → at o here ≡ some n
    → at o (here ++ names) ≡ at (some n) names
unfolding at
at-++ none here n names h = absurd (ground (arith, h))
at-++ (some m) [] n names h = rw h refl
at-++ (some (file c)) (x ∷ here) n names h = absurd (ground (arith, h))
at-++ (some (dir es)) (x ∷ here) n names h = at-++ (find es x) here n names h

resolve-at :
    {X : Type 0} (y : System X) (o : Option Node) (names : List Chars) (b : Bool)
    → resolve y o names ≡ present b
    → (m : Node) × (at o names ≡ some m)
unfolding resolve at
resolve-at y none names b h = absurd (ground (arith, h))
resolve-at y (some m) [] b h = (m, refl)
resolve-at y (some (file c)) (x ∷ names) b h = absurd (ground (arith, h))
resolve-at y (some (dir es)) (x ∷ names) b h = resolve-at y (find es x) names b h

module _ (E : Errors) (y : System E.Error) (g : Globs) (f : FileFilter) (source : Option Node) where
  kept-found_stat :
      (s : Stat E.Error) (t : Bool)
      → (elim s as (λ _. Bool) [ present _ ↦ t | absent _ ↦ false | broken _ ↦ false ]) ≡ true
      → ((b : Bool) × (s ≡ present b)) × (t ≡ true)
  kept-found_stat (present b) t h = ((b, refl), h)
  kept-found_stat (absent x) t h = absurd (ground (arith, h))
  kept-found_stat (broken x) t h = absurd (ground (arith, h))

  lstat-at :
      (o : Option E.Error) (names : List Chars) (b : Bool)
      → lstat y o source names ≡ present b
      → (m : Node) × (at source names ≡ some m)
  unfolding lstat
  lstat-at none names b h = resolve-at y source names b h
  lstat-at (some x) names b h = absurd (ground (arith, h))

  -- What is kept is in the source and passes the filter.
  kept-found :
      (here : List Chars) (n : Node)
      → kept E y g f source here n ≡ true
      → ((m : Node) × (at source here ≡ some m))
        × (should_transfer g f (relative here) (is_dir n) ≡ true)
  unfolding kept
  kept-found here n h =
      let ((b, e), t) =
        kept-found_stat (lstat_source y source here)
          (should_transfer g f (relative here) (is_dir n)) h in
      (lstat-at (y.source_fault here) here b e, t)

  -- Then the copy does not skip it.
  skips-transferred :
      (here : List Chars) (d : Bool)
      → should_transfer g f (relative here) d ≡ true
      → skips E y g f source here d ≡ false
  unfolding skips
  skips-transferred [] d h = refl
  skips-transferred (x ∷ here) d h = elim (Bool-cases (filter_is_zero f)) [
    | inl z ↦ rw z refl
    | inr z ↦ rw z (rw h refl)
  ]

  both : (a b : Bool) → (a && b) ≡ true → (a ≡ true) × (b ≡ true)
  both a b h = ground (arith, h)

  find-at : (o : Option Node) (n : Node) → at o [] ≡ some n → o ≡ some n
  unfolding at
  find-at none n h = absurd (ground (arith, h))
  find-at (some m) n h = h

  stays-kept :
      (here : List Chars) (n : Node) (names : List Chars)
      → stays E y g f source here n names ≡ true
      → kept E y g f source here n ≡ true
  unfolding stays
  stays-kept here n [] h = h
  stays-kept here (file c) (x ∷ names) h = h
  stays-kept here (dir es) (x ∷ names) h =
      (both (kept E y g f source here (dir es))
        (elim (find es x) as (λ _. Bool) [
          | none ↦ true
          | some m ↦ stays E y g f source (here ++ x ∷ []) m names
        ])
        h).0

  -- The entry of a directory that stays.
  stays-entry :
      (here : List Chars) (es : Entries) (x : Chars) (n : Node) (names : List Chars)
      → find es x ≡ some n
      → stays E y g f source here (dir es) (x ∷ names) ≡ true
      → stays E y g f source (here ++ x ∷ []) n names ≡ true
  unfolding stays
  stays-entry here es x n names e h =
      (both (kept E y g f source here (dir es)) (stays E y g f source (here ++ x ∷ []) n names) (
        subst
          (λ o.
            (kept E y g f source here (dir es) && (elim o as (λ _. Bool) [
              | none ↦ true
              | some m ↦ stays E y g f source (here ++ x ∷ []) m names
            ]))
            ≡ true)
          e h)).1

  reaches-entry :
      (here : List Chars) (es : Entries) (x : Chars) (m : Node) (names : List Chars)
      → find es x ≡ some m
      → skips E y g f source here true ≡ false
      → reaches (skips E y g f source) (here ++ x ∷ []) m names ≡ true
      → reaches (skips E y g f source) here (dir es) (x ∷ names) ≡ true
  unfolding reaches
  reaches-entry here es x m names e s h = rw (s, e) h

  -- What stays in the destination and still stands there is reached in the source and stands there.
  pub reached :
      (dest : Option Node)
      → SameKinds source dest
      → (here : List Chars) (n m : Node) (names : List Chars) (k : Node) → at source here ≡ some m
      → at dest here ≡ some n
      → stays E y g f source here n names ≡ true
      → at (some n) names ≡ some k
      → (reaches (skips E y g f source) here m names ≡ true)
        × ((l : Node) × (at (some m) names ≡ some l))
  unfolding reaches at
  reached dest same here n m [] k in_source in_dest stay found =
      let (_, transferred) = kept-found here n (stays-kept here n [] stay) in
      let kinds = same here m n in_source in_dest in
      (rw (kinds, skips-transferred here (is_dir n) transferred) refl, (m, refl))
  reached dest same here (file c) m (x ∷ names) k in_source in_dest stay found =
      absurd (ground (arith, found))
  reached dest same here (dir es) (file c) (x ∷ names) k in_source in_dest stay found =
      absurd (ground (arith, same here (file c) (dir es) in_source in_dest))
  reached dest same here (dir es) (dir fs) (x ∷ names) k in_source in_dest stay found =
      elim (Option-cases (find es x)) [
        | inl gone ↦ absurd (ground (arith, found, gone))
        | inr (n, there) ↦
            let stay_n = stays-entry here es x n names there stay in
            let ((m, at_m), _) =
              kept-found (here ++ x ∷ []) n (stays-kept (here ++ x ∷ []) n names stay_n) in
            let (_, transferred) =
              kept-found here (dir es) (stays-kept here (dir es) (x ∷ names) stay) in
            let found_m =
              find-at (find fs x) m (sym (at-++ source here (dir fs) (x ∷ []) in_source) ∙ at_m) in
            let (r, (l, at_l)) =
              reached dest same (here ++ x ∷ []) n m names k at_m
                (at-++ dest here (dir es) (x ∷ []) in_dest ∙ ap (λ o. at o []) there) stay_n
                (sym (ap (λ o. at o names) there) ∙ found) in
            (
              reaches-entry here fs x m names found_m (skips-transferred here true transferred) r,
              (l, ap (λ o. at o names) found_m ∙ at_l),
            )
      ]
