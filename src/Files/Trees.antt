-- ===== src/Files/Trees.antt =====
-- Trees of which each directory has one entry at most of a name.
use backup_tool.Base.{◌≡◌, Option, none, some, List}
use backup_tool.Base.Text.{Chars}
use backup_tool.Files.{Node, Entries, file, dir, end, entry, find, at}

-- What a path shows: a file with what it holds, or a directory.
pub data View : Type 0 where
  a_file : Chars → View
  a_directory : View

abbrev pub view_of : Node → View
view_of (file c) = a_file c
view_of (dir es) = a_directory

abbrev pub shown : Option Node → Option View
shown none = none
shown (some n) = some (view_of n)

-- What stands at a path below the root.
abbrev pub view : Option Node → List Chars → Option View
view n names = shown (at n names)

-- No directory has two entries of one name.
unfoldable mutual
  pub IsTree : Node → Type 0
  IsTree (file c) = Unit
  IsTree (dir es) = AreTrees es

  pub AreTrees : Entries → Type 0
  AreTrees end = Unit
  AreTrees (entry name n es) = (find es name ≡ none) × IsTree n × AreTrees es
