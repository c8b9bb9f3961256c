-- ===== src/Tests/Wal.antt =====
-- An archiver that reports the segment of the fence at the second poll. The state of the server is
-- the number of statements that it has run.
use backup_tool.Base.{ℕ, suc, ◌≡◌, refl, ◌↔◌, String, [], if◌then◌else◌, ◌==◌, nat_eq, list_beq}
use backup_tool.Base.Text.{Chars, codes}
use backup_tool.Errors.{Result, ok}
use backup_tool.Tests.{numbered}
use backup_tool.Wal.{force_wal_archive, last_non_empty_line}
use backup_tool.Wal.Fence.{IsFenced, force_wal_archive_iff}

abbrev reply : ℕ → Chars
reply n =
    if n == 1
    then codes "\n000000010000000A\n"
    else if n == 3
    then codes "||f\n"
    else if n == 4
    then codes "000000010000000B||f\n"
    else []

abbrev server : String → ℕ → Result ℕ Chars × ℕ
server sql n = (ok (reply n), suc n)

last_line : last_non_empty_line (codes "SET\n 12 \n\n") ≡ codes "12"
unfolding last_non_empty_line list_beq
last_line = refl

archived_in_time : force_wal_archive numbered server 9 1 0 ≡ (ok tt, 5)
unfolding force_wal_archive list_beq
archived_in_time = refl

force_wal_archive-iff_example :
    (force_wal_archive numbered server 9 1 0 ≡ (ok tt, 5)) ↔ IsFenced numbered server 9 1 0 5
force_wal_archive-iff_example = force_wal_archive_iff numbered server 9 1 0 5
