-- ===== src/Disaster/Slots.antt =====
-- The names of slots (generic.go), and where a slot lies on the DR volume (generic.go and
-- pkg/disasterrecovery/actions/remote/files/layout/layout.go).
pub mod Names
use backup_tool.Base.{
  ℕ, String, Bool, true, false, not, ◌&&◌, ◌||◌, Option, none, some, List, [], ◌∷◌, ◌++◌,
  if◌then◌else◌, leb, ◌==◌, nat_eq, list_eq,
}
use backup_tool.Base.Text.{Chars, codes}
use backup_tool.Errors.{Errors}

-- layout.FileGroupsDirName
abbrev pub file_groups_dir_name : Chars
file_groups_dir_name = codes "fileGroups"

-- [a-z0-9]
abbrev pub is_alphanumeric : ℕ → Bool
is_alphanumeric c = (leb b'a' c && leb c b'z') || (leb b'0' c && leb c b'9')

-- ([-a-z0-9]*[a-z0-9])?$
unfoldable pub matches_slot_end : Chars → Bool
matches_slot_end [] = true
matches_slot_end (c ∷ []) = is_alphanumeric c
matches_slot_end (c ∷ d ∷ s) = (is_alphanumeric c || c == b'-') && matches_slot_end (d ∷ s)

-- genericSlotNameRegex
unfoldable pub matches_slot_name : Chars → Bool
unfolding matches_slot_end
matches_slot_name [] = false
matches_slot_name (c ∷ s) = is_alphanumeric c && matches_slot_end s

-- dumpFileName
unfoldable pub dump_file_name : Chars → Chars
dump_file_name slot_name = slot_name ++ codes ".sql"

module _ (E : Errors) where
  -- validateSlotName
  unfoldable pub validate_slot_name : Chars → Option E.Error
  unfolding matches_slot_name
  validate_slot_name name =
      if name == []
      then some (E.errorf "source has an empty name")
      else if not (matches_slot_name name)
      then some (E.errorf "source name is not DNS/path-safe")
      else if name == file_groups_dir_name
      then some (E.errorf "source name is reserved for the file-groups directory")
      else none
