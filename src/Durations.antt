-- ===== src/Durations.antt =====
-- pkg/postgres/duration.go: the durations of PostgreSQL's configuration, in nanoseconds. A Go
-- duration is an int64, and so is the product that makes it, which wraps around.
pub mod Digits
pub mod Trimming
pub mod RoundTrip
use backup_tool.Base.{
  ℕ, zero, suc, ◌+◌, ◌-◌, ◌*◌, ◌%◌, ◌^◌, Bool, true, false, ◌&&◌, Option, none, some, List, [], ◌∷◌,
  if◌then◌else◌, ltb, leb, ◌==◌, nat_eq, list_eq,
}
use backup_tool.Base.Text.{Chars, codes, trim_space, has_suffix, drop_suffix}
use backup_tool.Errors.{Errors, Result, ok, err}

-- `negsuc n` is -(n + 1).
pub data ℤ : Type 0 where
  pos : ℕ → ℤ
  negsuc : ℕ → ℤ

-- The int64 of a bit pattern.
abbrev pub signed64 : ℕ → ℤ
signed64 w = if ltb w (2 ^ 63) then pos w else negsuc (2 ^ 64 - w - 1)

-- An int64 times a positive one, which keeps the low 64 bits.
unfoldable pub times : ℤ → ℕ → ℤ
times (pos n) unit = signed64 (n * unit % 2 ^ 64)
times (negsuc n) unit = signed64 ((2 ^ 64 - suc n * unit % 2 ^ 64) % 2 ^ 64)

abbrev pub is_digit : ℕ → Bool
is_digit c = leb 48 c && leb c 57

-- The number that decimal digits stand for, after those that stand for `n`.
unfoldable pub digits_value : ℕ → Chars → Option ℕ
digits_value n [] = some n
digits_value n (c ∷ s) =
    let rest = digits_value (n * 10 + (c - 48)) s in if is_digit c then rest else none

-- time.Microsecond, and the longer units
abbrev pub microsecond : ℕ
microsecond = 1000

abbrev pub millisecond : ℕ
millisecond = 1000 * microsecond

abbrev pub second : ℕ
second = 1000 * millisecond

abbrev pub one_minute : ℕ
one_minute = 60 * second

abbrev pub hour : ℕ
hour = 60 * one_minute

-- postgresDurationUnits
abbrev pub duration_units : List (Chars × ℕ)
duration_units =
    (codes "us", microsecond)
    ∷ (codes "ms", millisecond)
    ∷ (codes "min", one_minute)
    ∷ (codes "s", second)
    ∷ (codes "h", hour)
    ∷ (codes "d", 24 * hour)
    ∷ []

-- The loop over the units: the number's part and the unit.
unfoldable pub split_unit : Chars → List (Chars × ℕ) → Chars × ℕ
split_unit trimmed [] = (trimmed, second)
split_unit trimmed ((suffix, unit) ∷ candidates) =
    let rest = split_unit trimmed candidates in
    if has_suffix trimmed suffix then (trim_space (drop_suffix trimmed suffix), unit) else rest

module _ (E : Errors) where
  -- The end of strconv.ParseInt at base 10 and 64 bits: the range of the magnitude.
  unfoldable pub in_range : Bool → Option ℕ → Result E.Error ℤ
  in_range negative none = err (E.errorf "invalid syntax")
  in_range false (some n) =
      if ltb n (2 ^ 63) then ok (pos n) else err (E.errorf "value out of range")
  in_range true (some zero) = ok (pos 0)
  in_range true (some (suc n)) =
      if ltb n (2 ^ 63) then ok (negsuc n) else err (E.errorf "value out of range")

  -- Its digits, of which there is one at least.
  unfoldable pub parse_magnitude : Bool → Chars → Result E.Error ℤ
  unfolding in_range
  parse_magnitude negative [] = err (E.errorf "invalid syntax")
  parse_magnitude negative (c ∷ s) = in_range negative (digits_value 0 (c ∷ s))

  -- strconv.ParseInt(s, 10, 64)
  unfoldable pub parse_int : Chars → Result E.Error ℤ
  unfolding parse_magnitude
  parse_int [] = err (E.errorf "invalid syntax")
  parse_int (c ∷ s) =
      if c == b'+'
      then parse_magnitude false s
      else if c == b'-'
      then parse_magnitude true s
      else parse_magnitude false (c ∷ s)

  abbrev pub scaled : ℕ → Result E.Error ℤ → Result E.Error ℤ
  scaled unit (ok magnitude) = ok (times magnitude unit)
  scaled unit (err e) = err (E.wrap_error e "failed to parse a PostgreSQL duration")

  -- ParseDuration
  unfoldable pub parse_duration : Chars → Result E.Error ℤ
  parse_duration value =
      let trimmed = trim_space value in
      if trimmed == []
      then err (E.errorf "empty duration value")
      else (let (number_part, unit) = split_unit trimmed duration_units in
          scaled unit (parse_int number_part))
