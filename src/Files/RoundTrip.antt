-- ===== src/Files/RoundTrip.antt =====
-- A directory that is captured by a sync with a filter and restored by one without (SyncFiles of
-- pkg/files/transfer.go, as the actions on directories call it).
use backup_tool.Base.{
  ◌≡◌, refl, sym, ◌∙◌, ap, Bool, true, false, Option, none, some, Option-cases, List, [], ◌∷◌, ◌++◌,
  inl, inr,
}
use backup_tool.Base.Text.{Chars}
use backup_tool.Errors.{Errors}
use backup_tool.Filters.{FileFilter, Globs, filter_is_zero, no_filter}
use backup_tool.Files.{Node, Entries, file, dir, find, System, skips, sync_files}
use backup_tool.Files.Trees.{view}
use backup_tool.Files.Agreement.{reaches, SameKinds}
use backup_tool.Files.Mirror.{Merges, IsTreeIfAny, filtered, sync_files-filtered}

-- A copy that skips nothing comes to every path.
reaches-all :
    (skip : List Chars → Bool → Bool)
    → ((here : List Chars) (d : Bool) → skip here d ≡ false)
    → (here : List Chars) (n : Node) (names : List Chars) → reaches skip here n names ≡ true
unfolding reaches
reaches-all skip all here n [] = rw (all here _) refl
reaches-all skip all here (file c) (x ∷ names) = rw (all here false) refl
reaches-all skip all here (dir es) (x ∷ names) = elim (Option-cases (find es x)) [
  | inl gone ↦ rw (all here true, gone) refl
  | inr (m, there) ↦ rw (all here true, there) (reaches-all skip all (here ++ x ∷ []) m names)
]

module _ (E : Errors) (y : System E.Error) (g : Globs) where
  skips-no_filter :
      (source : Option Node) (here : List Chars) (d : Bool)
      → skips E y g no_filter source here d ≡ false
  unfolding skips filter_is_zero
  skips-no_filter source [] d = refl
  skips-no_filter source (x ∷ here) d = refl

  unfiltered :
      (source : Option Node) (n : Node) (names : List Chars)
      → filtered (skips E y g no_filter source) n names ≡ view (some n) names
  unfiltered source n names =
      rw (reaches-all (skips E y g no_filter source) (skips-no_filter source) [] n names) refl

  -- Under the conditions of a sync for the capture of a directory into another, and for its restore
  -- into a third: if both end without an error, then each path of the third shows what the filtered
  -- source shows, whatever stood in the other two.
  pub sync_files-restores :
      (f : FileFilter) (es left : Entries) (src captured data_path : Chars)
      (dest target : Option Node)
      → Merges y (skips E y g f (some (dir es))) (dir es)
      → Merges y (skips E y g no_filter (some (dir left))) (dir left)
      → IsTreeIfAny dest
      → IsTreeIfAny target
      → SameKinds (some (dir es)) dest
      → SameKinds (some (dir left)) target
      → sync_files E y g f (some (dir es)) src captured dest ≡ (none, some (dir left))
      → (sync_files E y g no_filter (some (dir left)) captured data_path target).0 ≡ none
      → (names : List Chars)
      → view (sync_files E y g no_filter (some (dir left)) captured data_path target).1 names
        ≡ filtered (skips E y g f (some (dir es))) (dir es) names
  sync_files-restores f es left src captured data_path dest target m₁ m₂ t₁ t₂ k₁ k₂ done restored
        names =
      sync_files-filtered E y g no_filter left m₂ captured data_path target t₂ k₂ restored names
      ∙ unfiltered (some (dir left)) (dir left) names
      ∙ sym (ap (λ r. view r.1 names) done)
      ∙ sync_files-filtered E y g f es m₁ src captured dest t₁ k₁ (ap (λ r. r.0) done) names
