-- ===== src/Tests/Filters.antt =====
-- A filter at concrete paths.
use backup_tool.Base.{◌≡◌, refl, Bool, true, [], ◌∷◌, list_eq, list_beq}
use backup_tool.Base.Text.{codes, has_suffix}
use backup_tool.Filters.{FileFilter, Globs, should_transfer}

-- A glob that stands for the paths that end in it.
abbrev pub suffixes : Globs
suffixes = record {
  validate_pattern = λ p. true;
  glob_match = λ p path. has_suffix path p;
  to_slash = λ path. path;
}

abbrev pub databases_only : FileFilter
databases_only = record {
  include = record { glob = codes ".db" } ∷ [];
  exclude = record { glob = codes "tmp.db" } ∷ [];
}

kept : should_transfer suffixes databases_only (codes "a/main.db") Bool.false ≡ true
unfolding should_transfer list_beq
kept = refl

left_out : should_transfer suffixes databases_only (codes "a/tmp.db") Bool.false ≡ Bool.false
unfolding should_transfer list_beq
left_out = refl
