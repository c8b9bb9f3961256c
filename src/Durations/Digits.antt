-- ===== src/Durations/Digits.antt =====
-- Decimal digits, written and read.
use backup_tool.Base.{
  ℕ, zero, suc, ◌+◌, ◌-◌, ◌*◌, ◌/◌, ◌%◌, ◌<◌, ◌≡◌, ◌≢◌, ap, ◌∙◌, Bool-cases, inl, inr, true, some,
  [], ◌∷◌, ◌++◌, All, All-append, arith, ltb, if◌then◌else◌,
}
use backup_tool.Base.Text.{Chars}
use backup_tool.Durations.{is_digit, digits_value}

abbrev pub IsDigit : ℕ → Type 0
IsDigit c = is_digit c ≡ true

-- The decimal digits of a number, which is below the fuel.
unfoldable pub digits_below : ℕ → ℕ → Chars
digits_below zero n = []
digits_below (suc fuel) n =
    let more = digits_below fuel (n / 10) ++ ((48 + n % 10) ∷ []) in
    if ltb n 10 then (48 + n) ∷ [] else more

abbrev pub decimal : ℕ → Chars
decimal n = digits_below (suc n) n

digits_value-append :
    (s : Chars) (m n c : ℕ)
    → digits_value m s ≡ some n
    → IsDigit c
    → digits_value m (s ++ (c ∷ [])) ≡ some (n * 10 + (c - 48))
unfolding digits_value
digits_value-append [] m n c h d = ground (arith, h, d)
digits_value-append (b ∷ s) m n c h d =
    ground (arith, digits_value-append s (m * 10 + (b - 48)) n c)

IsDigit-mod : (n : ℕ) → IsDigit (48 + n % 10)
IsDigit-mod n = ground arith

pub digits_value-digits : (fuel n : ℕ) → n < fuel → digits_value 0 (digits_below fuel n) ≡ some n
unfolding digits_value digits_below
digits_value-digits zero n h = absurd (omega arith)
digits_value-digits (suc fuel) n h = elim (Bool-cases (ltb n 10)) [
  | inl small ↦ rw small (ground arith)
  | inr large ↦ rw large (
      digits_value-append (digits_below fuel (n / 10)) 0 (n / 10) (48 + n % 10)
        (digits_value-digits fuel (n / 10) (ground arith)) (IsDigit-mod n)
      ∙ ap some (omega arith))
]

pub digits-IsDigit : (fuel n : ℕ) → All IsDigit (digits_below fuel n)
unfolding digits_below
digits-IsDigit zero n = tt
digits-IsDigit (suc fuel) n = elim (Bool-cases (ltb n 10)) [
  | inl small ↦ rw small (ground arith, tt)
  | inr large ↦ rw large (
      All-append IsDigit (digits_below fuel (n / 10)) ((48 + n % 10) ∷ [])
        (digits-IsDigit fuel (n / 10)) (IsDigit-mod n, tt))
]

append_one-ne : (s : Chars) (c : ℕ) → s ++ (c ∷ []) ≢ []
append_one-ne [] c h = cc
append_one-ne (b ∷ s) c h = cc

pub digits-ne : (fuel n : ℕ) → digits_below (suc fuel) n ≢ []
unfolding digits_below
digits-ne fuel n h = elim (Bool-cases (ltb n 10)) [
  | inl small ↦ absurd (ground (arith, h, small))
  | inr large ↦ absurd (append_one-ne (digits_below fuel (n / 10)) (48 + n % 10) (rw large at h))
]
