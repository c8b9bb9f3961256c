-- ===== src/Helpers.antt =====
-- pkg/kubecluster/helpers/helpers.go: waiting times and the names of resources. A name is a list of
-- character codes; the names that the program passes are ASCII, where bytes and runes agree.
pub mod Names
use backup_tool.Base.{
  ℕ, ◌*◌, ◌+◌, ◌-◌, Bool, ◌&&◌, ◌||◌, List, [], ◌∷◌, ◌++◌, map, if◌then◌else◌, ltb, leb, length,
  take, ◌==◌, nat_eq,
}
use mathlib.Core.List.{reverse}
use backup_tool.Base.Text.{Chars, codes}

-- time.Minute, in nanoseconds
abbrev pub minute : ℕ
minute = 60 * 1000000000

-- MaxWaitTime.MaxWait
unfoldable pub max_wait : ℕ → ℕ → ℕ
max_wait default mwt = if mwt == 0 then default else mwt

-- FullNameStr
unfoldable pub full_name_str : Chars → Chars → Chars
full_name_str namespace name = namespace ++ codes "/" ++ name

-- TruncateString
unfoldable pub truncate_string : Chars → ℕ → Chars → Chars
truncate_string s max_length suffix =
    if leb (length s) max_length
    then s
    else if ltb max_length (length suffix)
    then take max_length suffix
    else take (max_length - length suffix) s ++ suffix

-- TruncateStringEllipsis
unfoldable pub truncate_string_ellipsis : Chars → ℕ → Chars
unfolding truncate_string
truncate_string_ellipsis s max_length = truncate_string s max_length (codes "...")

-- One character under strings.ToLower and the replacer of CleanName: `_`, `:` and `.` become `-`.
unfoldable pub clean_char : ℕ → ℕ
clean_char c =
    if c == b'_' || c == b':' || c == b'.'
    then b'-'
    else if leb b'A' c && leb c b'Z'
    then c + 32
    else c

-- The loop of CleanName over the end of the name, on the name backwards.
unfoldable pub drop_dashes : Chars → Chars
drop_dashes [] = []
drop_dashes (c ∷ s) = let rest = drop_dashes s in if c == b'-' then rest else c ∷ s

-- CleanName
unfoldable pub clean_name : Chars → Chars
unfolding clean_char drop_dashes
clean_name s = reverse (drop_dashes (reverse (map clean_char s)))
