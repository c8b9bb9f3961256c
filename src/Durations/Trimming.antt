-- ===== src/Durations/Trimming.antt =====
-- Where no space is, none is trimmed; where digits stand, no letters do.
use mathlib.Core.List.{reverse, reverse-cons, reverse-append, reverse-reverse}
use backup_tool.Base.{ℕ, ◌≡◌, refl, ◌∙◌, ap, false, [], ◌∷◌, ◌++◌, All, All-append, arith}
use backup_tool.Base.Text.{
  Chars, is_space, drop_spaces, trim_space, has_prefix, drop_prefix, drop_suffix,
}
use backup_tool.Durations.{is_digit}
use backup_tool.Durations.Digits.{IsDigit}

abbrev pub IsSolid : ℕ → Type 0
IsSolid c = is_space c ≡ false

pub All-reverse : (P : ℕ → Type 0) (s : Chars) → All P s → All P (reverse s)
All-reverse P [] h = tt
All-reverse P (c ∷ s) h =
    rw (reverse-cons c s) (All-append P (reverse s) (c ∷ []) (All-reverse P s h.1) (h.0, tt))

drop_spaces-solid : (s : Chars) → All IsSolid s → drop_spaces s ≡ s
drop_spaces-solid [] h = refl
drop_spaces-solid (c ∷ s) h = rw (h.0)

pub trim_space-solid : (s : Chars) → All IsSolid s → trim_space s ≡ s
trim_space-solid s h =
    rw (drop_spaces-solid s h)
      (rw (drop_spaces-solid (reverse s) (All-reverse IsSolid s h)) (reverse-reverse s))

drop_prefix-append : (p s : Chars) → drop_prefix (p ++ s) p ≡ s
drop_prefix-append [] [] = refl
drop_prefix-append [] (c ∷ s) = refl
drop_prefix-append (c ∷ p) s = drop_prefix-append p s

pub drop_suffix-append : (s p : Chars) → drop_suffix (s ++ p) p ≡ s
drop_suffix-append s p =
    rw (reverse-append s p)
      (ap reverse (drop_prefix-append (reverse p) (reverse s)) ∙ reverse-reverse s)

-- Digits do not end in another character.
pub digits-no_prefix :
    (s p : Chars) (c : ℕ) → All IsDigit s → is_digit c ≡ false → has_prefix s (c ∷ p) ≡ false
digits-no_prefix [] p c h n = refl
digits-no_prefix (d ∷ s) p c h n = ground (arith, h.0, n)
