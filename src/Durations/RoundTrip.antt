-- ===== src/Durations/RoundTrip.antt =====
-- What a printed duration parses to.
use mathlib.Core.List.{reverse, reverse-append, reverse-reverse}
use backup_tool.Base.{
  ℕ, suc, ◌*◌, ◌%◌, ◌^◌, ◌≤◌, ◌<◌, ◌≡◌, ◌≢◌, refl, ◌∙◌, sym, ap, true, false, Bool-cases, inl, inr,
  some, [], ◌∷◌, ◌++◌, All, All-append, All-map, In, All-In, arith, append-nil, ◌==◌, list_eq,
  list_beq, ltb,
}
use backup_tool.Base.Text.{Chars, codes, trim_space, has_prefix}
use backup_tool.Errors.{Errors, Result, ok, err}
use backup_tool.Durations.{
  ℤ, pos, signed64, times, is_digit, digits_value, duration_units, microsecond, millisecond, second,
  one_minute, hour, split_unit, parse_int, parse_magnitude, in_range, scaled, parse_duration,
}
use backup_tool.Durations.Digits.{IsDigit, decimal, digits_value-digits, digits-IsDigit, digits-ne}
use backup_tool.Durations.Trimming.{IsSolid, All-reverse, trim_space-solid, digits-no_prefix}

IsDigit-IsSolid : (c : ℕ) → IsDigit c → IsSolid c
IsDigit-IsSolid c d = ground arith

named :
    {s suffix name : Chars} {unit length : ℕ}
    → ◌≡◌ {A = Chars × ℕ} (suffix, unit) (name, length)
    → split_unit (s ++ name) duration_units ≡ (s, length)
    → split_unit (s ++ suffix) duration_units ≡ (s, unit)
named {s} {suffix} {name} {unit} {length} e h =
    rw (ap (λ (p : Chars × ℕ). p.0) e) (h ∙ ap (λ (p : Chars × ℕ). (s, p.1)) (sym e))

module _ (s : Chars) (d : All IsDigit s) where
  body : trim_space (reverse (reverse s)) ≡ s
  body = rw (reverse-reverse s) (trim_space-solid s (All-map IsDigit IsSolid s IsDigit-IsSolid d))

  missed : (p : Chars) (c : ℕ) → is_digit c ≡ false → has_prefix (reverse s) (c ∷ p) ≡ false
  missed p c = digits-no_prefix (reverse s) p c (All-reverse IsDigit s d)

  split_us : split_unit (s ++ codes "us") duration_units ≡ (s, microsecond)
  unfolding split_unit
  split_us = rw (reverse-append s (codes "us")) (ap (λ t. (t, microsecond)) body)

  split_ms : split_unit (s ++ codes "ms") duration_units ≡ (s, millisecond)
  unfolding split_unit
  split_ms = rw (reverse-append s (codes "ms")) (ap (λ t. (t, millisecond)) body)

  split_min : split_unit (s ++ codes "min") duration_units ≡ (s, one_minute)
  unfolding split_unit
  split_min = rw (reverse-append s (codes "min")) (ap (λ t. (t, one_minute)) body)

  split_s : split_unit (s ++ codes "s") duration_units ≡ (s, second)
  unfolding split_unit
  split_s =
      rw (reverse-append s (codes "s"))
        (rw (missed [] b'u' refl) (rw (missed [] b'm' refl) (ap (λ t. (t, second)) body)))

  split_h : split_unit (s ++ codes "h") duration_units ≡ (s, hour)
  unfolding split_unit
  split_h = rw (reverse-append s (codes "h")) (ap (λ t. (t, hour)) body)

  split_d : split_unit (s ++ codes "d") duration_units ≡ (s, 24 * hour)
  unfolding split_unit
  split_d = rw (reverse-append s (codes "d")) (ap (λ t. (t, 24 * hour)) body)

  split_bare : split_unit s duration_units ≡ (s, second)
  unfolding split_unit
  split_bare = rw (missed (codes "u") b's' refl) (
      rw (missed (codes "m") b's' refl) (
        rw (missed (codes "im") b'n' refl)
          (rw (missed [] b's' refl) (rw (missed [] b'h' refl) (rw (missed [] b'd' refl) refl)))))

  module _ (suffix : Chars) (unit : ℕ)
      (known : In (suffix, unit) (([], second) ∷ duration_units)) where
    split_known : split_unit (s ++ suffix) duration_units ≡ (s, unit)
    split_known = elim known [
      | inl e ↦ named e (rw (append-nil s) split_bare)
      | inr (inl e) ↦ named e split_us
      | inr (inr (inl e)) ↦ named e split_ms
      | inr (inr (inr (inl e))) ↦ named e split_min
      | inr (inr (inr (inr (inl e)))) ↦ named e split_s
      | inr (inr (inr (inr (inr (inl e))))) ↦ named e split_h
      | inr (inr (inr (inr (inr (inr (inl e)))))) ↦ named e split_d
      | inr (inr (inr (inr (inr (inr (inr none_left)))))) ↦ absurd none_left
    ]

-- The suffixes hold no space.
suffix-IsSolid :
    (suffix : Chars) (unit : ℕ)
    → In (suffix, unit) (([], second) ∷ duration_units)
    → All IsSolid suffix
suffix-IsSolid suffix unit known =
    All-In (λ (p : Chars × ℕ). All IsSolid p.0) (([], second) ∷ duration_units) (suffix, unit)
      (ground arith) known

parse_int-digits :
    (E : Errors) (s : Chars)
    → s ≢ []
    → All IsDigit s
    → parse_int E s ≡ in_range E false (digits_value 0 s)
unfolding parse_int parse_magnitude
parse_int-digits E [] h d = absurd (h refl)
parse_int-digits E (c ∷ s) h d = ground (arith, d.0)

append-ne : (s t : Chars) → s ≢ [] → ((s ++ t) == []) ≡ false
unfolding list_beq
append-ne [] t h = absurd (h refl)
append-ne (c ∷ s) t h = refl

module _ (E : Errors) where
  -- What the printed number and a unit's suffix give.
  pub data Parsed (n unit : ℕ) : Result E.Error ℤ → Type 0 where
    exact : n * unit < 2 ^ 63 → Parsed n unit (ok (pos (n * unit)))
    wrapped : n < 2 ^ 63 → 2 ^ 63 ≤ n * unit → Parsed n unit (ok (signed64 (n * unit % 2 ^ 64)))
    rejected : (e : E.Error) → 2 ^ 63 ≤ n → Parsed n unit (err e)

  low_bits : (n unit : ℕ) → ltb (n * unit) (2 ^ 63) ≡ true → n * unit % 2 ^ 64 ≡ n * unit
  low_bits n unit h = ground arith

  scaled-Parsed : (n unit : ℕ) → Parsed n unit (scaled E unit (in_range E false (some n)))
  unfolding in_range times
  scaled-Parsed n unit = elim (Bool-cases (ltb n (2 ^ 63))) [
    | inl fits ↦ rw fits (elim (Bool-cases (ltb (n * unit) (2 ^ 63))) [
      | inl whole ↦ rw (low_bits n unit whole) (rw whole (exact (ground arith)))
      | inr over ↦ wrapped (ground arith) (ground arith)
    ])
    | inr large ↦ rw large (rejected _ (ground arith))
  ]

  -- A number that is printed with the suffix of a unit, or without one for seconds, parses to that
  -- many nanoseconds if they fit in an int64; if only the number fits, it parses without an error to
  -- the low 64 bits of the product; if the number does not fit, it is rejected.
  pub parse_duration-Parsed :
      (n : ℕ) (suffix : Chars) (unit : ℕ)
      → In (suffix, unit) (([], second) ∷ duration_units)
      → Parsed n unit (parse_duration E (decimal n ++ suffix))
  unfolding parse_duration
  parse_duration-Parsed n suffix unit known =
      let s = decimal n in
      let d = digits-IsDigit (suc n) n in
      let solid =
        All-append IsSolid s suffix (All-map IsDigit IsSolid s IsDigit-IsSolid d)
          (suffix-IsSolid suffix unit known) in
      rw (trim_space-solid (s ++ suffix) solid) (
        rw (append-ne s suffix (digits-ne n n)) (
          rw (split_known s d suffix unit known) (
            rw (parse_int-digits E s (digits-ne n n) d)
              (rw (digits_value-digits (suc n) n (omega arith)) (scaled-Parsed n unit)))))
