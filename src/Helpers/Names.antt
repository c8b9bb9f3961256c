-- ===== src/Helpers/Names.antt =====
-- The names that CleanName and TruncateString make (pkg/kubecluster/helpers/helpers.go).
use mathlib.Core.List.{reverse, reverse-reverse, reverse-cons}
use backup_tool.Base.{
  ℕ, ◌≤◌, ◌≡◌, ◌≢◌, refl, ◌∙◌, ap, ap₂, subst, Bool-cases, inl, inr, ◌-◌, sym, Bool, false, ◌&&◌,
  [], ◌∷◌, map, All, All-append, leb, length, length-append, length-take-le, take, ◌==◌, nat_eq,
  arith,
}
use backup_tool.Base.Text.{Chars}
use backup_tool.Helpers.{truncate_string, clean_char, drop_dashes, clean_name}

-- A truncated string has at most the given number of characters, also if the suffix alone is
-- longer than that.
pub length-truncate : (s : Chars) (n : ℕ) (suffix : Chars) → length (truncate_string s n suffix) ≤ n
unfolding truncate_string
length-truncate s n suffix = ground (
  arith,
  length-take-le n suffix,
  length-take-le (n - length suffix) s,
  length-append (take (n - length suffix) s) suffix,
)

length-reverse : (s : Chars) → length (reverse s) ≡ length s
length-reverse [] = refl
length-reverse (c ∷ s) =
    ap length (reverse-cons c s)
    ∙ omega (arith, length-append (reverse s) (c ∷ []), length-reverse s)

length-map : (f : ℕ → ℕ) (s : Chars) → length (map f s) ≡ length s
length-map f [] = refl
length-map f (c ∷ s) = omega (arith, length-map f s)

length-drop_dashes : (s : Chars) → length (drop_dashes s) ≤ length s
unfolding drop_dashes
length-drop_dashes [] = omega arith
length-drop_dashes (c ∷ s) = ground (arith, length-drop_dashes s)

-- Cleaning a name does not make it longer.
pub length-clean_name : (s : Chars) → length (clean_name s) ≤ length s
unfolding clean_name
length-clean_name s = omega (
  arith,
  length-reverse (drop_dashes (reverse (map clean_char s))),
  length-drop_dashes (reverse (map clean_char s)),
  length-reverse (map clean_char s),
  length-map clean_char s,
)

-- Neither a capital letter nor one of the characters that are replaced.
abbrev pub IsCleanChar : ℕ → Type 0
IsCleanChar c = (c ≢ b'_') × (c ≢ b':') × (c ≢ b'.') × ((leb b'A' c && leb c b'Z') ≡ false)

abbrev pub starts_with_dash : Chars → Bool
starts_with_dash [] = false
starts_with_dash (c ∷ s) = c == b'-'

clean_char-IsCleanChar : (c : ℕ) → IsCleanChar (clean_char c)
unfolding clean_char
clean_char-IsCleanChar c = ground arith

clean_char-clean : (c : ℕ) → IsCleanChar c → clean_char c ≡ c
unfolding clean_char
clean_char-clean c h = ground arith

All-reverse : (P : ℕ → Type 0) (s : Chars) → All P s → All P (reverse s)
All-reverse P [] h = tt
All-reverse P (c ∷ s) h =
    subst (All P) (sym (reverse-cons c s))
      (All-append P (reverse s) (c ∷ []) (All-reverse P s h.1) (h.0, tt))

map-IsCleanChar : (s : Chars) → All IsCleanChar (map clean_char s)
map-IsCleanChar [] = tt
map-IsCleanChar (c ∷ s) = (clean_char-IsCleanChar c, map-IsCleanChar s)

drop_dashes-All : (P : ℕ → Type 0) (s : Chars) → All P s → All P (drop_dashes s)
unfolding drop_dashes
drop_dashes-All P [] h = tt
drop_dashes-All P (c ∷ s) h = elim (Bool-cases (c == b'-')) [
  | inl e ↦ rw e (drop_dashes-All P s h.1)
  | inr e ↦ rw e h
]

starts_with_dash-drop : (s : Chars) → starts_with_dash (drop_dashes s) ≡ false
unfolding drop_dashes
starts_with_dash-drop [] = refl
starts_with_dash-drop (c ∷ s) = ground (arith, starts_with_dash-drop s)

-- A cleaned name has no character that CleanName replaces, and it does not end in a dash.
pub clean_name-IsClean :
    (s : Chars)
    → All IsCleanChar (clean_name s) × (starts_with_dash (reverse (clean_name s)) ≡ false)
unfolding clean_name
clean_name-IsClean s = (
  All-reverse IsCleanChar _
      (drop_dashes-All IsCleanChar _ (All-reverse IsCleanChar _ (map-IsCleanChar s))),
  ap starts_with_dash (reverse-reverse (drop_dashes (reverse (map clean_char s))))
      ∙ starts_with_dash-drop (reverse (map clean_char s)),
)

map-clean : (s : Chars) → All IsCleanChar s → map clean_char s ≡ s
map-clean [] h = refl
map-clean (c ∷ s) h = ap₂ ◌∷◌ (clean_char-clean c h.0) (map-clean s h.1)

drop_dashes-none : (s : Chars) → starts_with_dash s ≡ false → drop_dashes s ≡ s
unfolding drop_dashes
drop_dashes-none [] h = refl
drop_dashes-none (c ∷ s) h = ground arith

-- Cleaning a name that is clean changes nothing.
pub clean_name-clean_name : (s : Chars) → clean_name (clean_name s) ≡ clean_name s
clean_name-clean_name s =
    let (clean, ends) = clean_name-IsClean s in
    unfold clean_name in
    (ap (λ t. reverse (drop_dashes (reverse t))) (map-clean (clean_name s) clean)
      ∙ ap reverse (drop_dashes-none (reverse (clean_name s)) ends)
      ∙ reverse-reverse (clean_name s))
