-- ===== src/Base/Text.antt =====
-- Names, paths and keys as lists of character codes, with the functions of Go's `strings` that the
-- program calls on them.
use Prim.Native.Nat.{ℕ}
use Prim.Native.Char.{code}
use Prim.Native.String.{String}
use mathlib.Core.Bool.{Bool, true, false, ◌&&◌, ◌||◌}
use mathlib.Core.List.{List, [], ◌∷◌, reverse}
use backup_tool.Base.Tests.{if◌then◌else◌, nat_beq, leb}

abbrev pub Chars : Type 0
Chars = List ℕ

abbrev pub codes : String → Chars
codes String.[] = []
codes (String.◌∷◌ c s) = code c ∷ codes s

-- `strings.HasPrefix`
abbrev pub has_prefix : Chars → Chars → Bool
has_prefix s [] = true
has_prefix [] (p ∷ ps) = false
has_prefix (c ∷ s) (p ∷ ps) = nat_beq c p && has_prefix s ps

-- `strings.HasSuffix`
abbrev pub has_suffix : Chars → Chars → Bool
has_suffix s p = has_prefix (reverse s) (reverse p)

abbrev pub drop_prefix : Chars → Chars → Chars
drop_prefix s [] = s
drop_prefix [] (p ∷ ps) = []
drop_prefix (c ∷ s) (p ∷ ps) = drop_prefix s ps

-- `strings.TrimPrefix`
abbrev pub trim_prefix : Chars → Chars → Chars
trim_prefix s p = if has_prefix s p then drop_prefix s p else s

-- `strings.CutSuffix`, without the flag that `has_suffix` gives
abbrev pub drop_suffix : Chars → Chars → Chars
drop_suffix s p = reverse (drop_prefix (reverse s) (reverse p))

-- What unicode.IsSpace accepts of ASCII.
abbrev pub is_space : ℕ → Bool
is_space c = nat_beq c 32 || (leb 9 c && leb c 13)

abbrev pub drop_spaces : Chars → Chars
drop_spaces [] = []
drop_spaces (c ∷ s) = let rest = drop_spaces s in if is_space c then rest else c ∷ s

-- strings.TrimSpace
abbrev pub trim_space : Chars → Chars
trim_space s = reverse (drop_spaces (reverse (drop_spaces s)))

abbrev onto_first : ℕ → List Chars → List Chars
onto_first c [] = (c ∷ []) ∷ []
onto_first c (piece ∷ pieces) = (c ∷ piece) ∷ pieces

-- strings.Split at one character
abbrev pub split_at : ℕ → Chars → List Chars
split_at separator [] = [] ∷ []
split_at separator (c ∷ s) =
    let pieces = split_at separator s in
    if nat_beq c separator then [] ∷ pieces else onto_first c pieces
