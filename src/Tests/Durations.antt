-- ===== src/Tests/Durations.antt =====
-- Durations that are read, among them one that wraps around.
use backup_tool.Base.{◌*◌, ◌≡◌, refl, inl, inr, ◌++◌, list_beq}
use backup_tool.Base.Text.{codes}
use backup_tool.Errors.{ok}
use backup_tool.Tests.{numbered}
use backup_tool.Durations.{
  pos, negsuc, parse_duration, split_unit, parse_int, digits_value, times, one_minute,
}
use backup_tool.Durations.Digits.{decimal}
use backup_tool.Durations.RoundTrip.{Parsed, parse_duration-Parsed}

five_minutes : parse_duration numbered (codes " 5 min") ≡ ok (pos (5 * one_minute))
unfolding parse_duration split_unit parse_int digits_value times list_beq
five_minutes = refl

wraps : parse_duration numbered (codes "9223372036854775807d") ≡ ok (negsuc 86399999999999)
unfolding parse_duration split_unit parse_int digits_value times list_beq
wraps = refl

parse_duration-Parsed_example :
    Parsed numbered 90 one_minute (parse_duration numbered (decimal 90 ++ codes "min"))
parse_duration-Parsed_example =
    parse_duration-Parsed numbered 90 (codes "min") one_minute (inr (inr (inr (inl refl))))
