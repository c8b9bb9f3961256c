-- ===== src/Filters.antt =====
-- pkg/files/filter.go: which files of a sync are transferred. The glob library
-- (github.com/bmatcuk/doublestar) and `filepath.ToSlash` are parameters; a path is relative to the
-- root of the sync.
pub mod Laws
use backup_tool.Base.{
  String, Bool, true, false, not, ◌&&◌, ◌||◌, Option, none, some, List, [], ◌∷◌, ◌++◌, map,
  if◌then◌else◌, any, is_empty, ◌==◌, list_eq,
}
use backup_tool.Base.Text.{Chars}
use backup_tool.Errors.{Errors, wrap, new_aggregate}

-- FilePattern
pub record FilePattern : Type 0 where
  pub glob : Chars

-- FileFilter
pub record FileFilter : Type 0 where
  pub include : List FilePattern
  pub exclude : List FilePattern

-- doublestar.ValidatePattern, doublestar.Match without its error, and filepath.ToSlash
pub record Globs : Type 0 where
  pub validate_pattern : Chars → Bool
  pub glob_match : Chars → Chars → Bool
  pub to_slash : Chars → Chars

module _ (E : Errors) (g : Globs) where
  -- FilePattern.Validate
  unfoldable pub validate_file_pattern : FilePattern → Option E.Error
  validate_file_pattern p =
      if p.glob == []
      then some (E.errorf "a file filter pattern must specify a glob")
      else if not (g.validate_pattern p.glob)
      then some (E.errorf "invalid glob pattern")
      else none

  -- FileFilter.Validate. Errors that are nil are left out of an aggregate in any case.
  unfoldable pub validate_file_filter : FileFilter → Option E.Error
  unfolding validate_file_pattern
  validate_file_filter f =
      wrap E
        (new_aggregate E (map (λ p. wrap E (validate_file_pattern p) "") (f.include ++ f.exclude)))
        "failed to validate file filter patterns"

module _ (g : Globs) where
  -- FilePattern.matches
  unfoldable pub pattern_matches : FilePattern → Chars → Bool
  pattern_matches p slash_path = if p.glob == [] then false else g.glob_match p.glob slash_path

  -- matchesAnyPattern
  unfoldable pub matches_any_pattern : List FilePattern → Chars → Bool
  unfolding pattern_matches
  matches_any_pattern patterns slash_path = any (λ p. pattern_matches p slash_path) patterns

  -- FileFilter.shouldTransfer
  unfoldable pub should_transfer : FileFilter → Chars → Bool → Bool
  unfolding matches_any_pattern
  should_transfer f rel_path is_dir =
      let slash_path = g.to_slash rel_path in
      if matches_any_pattern f.exclude slash_path
      then false
      else if is_empty f.include || is_dir
      then true
      else matches_any_pattern f.include slash_path

-- FileFilter.IsZero
unfoldable pub filter_is_zero : FileFilter → Bool
filter_is_zero f = is_empty f.include && is_empty f.exclude

-- FileFilter{}
abbrev pub no_filter : FileFilter
no_filter = record { include = []; exclude = [] }
