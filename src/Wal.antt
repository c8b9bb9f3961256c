-- ===== src/Wal.antt =====
-- pkg/postgres/walarchive.go: the fence in the write-ahead log that a clone recovers up to. The
-- runner of statements is a parameter that acts on a world `W`. The deadline of the poll is the
-- number of rounds that it leaves time for: each round waits for the poll interval. The error of
-- the expired context is the parameter `expired`.
pub mod Waiting
pub mod Fence
use mathlib.Core.List.{reverse}
use backup_tool.Base.{
  ℕ, zero, suc, String, Bool, true, false, not, ◌&&◌, ◌||◌, List, [], ◌∷◌, if◌then◌else◌, ltb, ◌==◌,
  nat_eq, list_eq,
}
use backup_tool.Base.Text.{Chars, codes, trim_space, split_at}
use backup_tool.Errors.{Errors, Result, ok, err}
use backup_tool.Exec.{Exec, wrapping, pure, raise, lift, ◌>>=◌, ◌>>◌}

-- Go's `>=` on strings
unfoldable pub at_or_past : Chars → Chars → Bool
at_or_past s [] = true
at_or_past [] (d ∷ t) = false
at_or_past (c ∷ s) (d ∷ t) = ltb d c || (c == d && at_or_past s t)

-- The loop of lastNonEmptyLine, on the lines from the last one on.
unfoldable pub first_non_empty : List Chars → Chars
first_non_empty [] = []
first_non_empty (line ∷ lines) =
    let rest = first_non_empty lines in if trim_space line == [] then rest else trim_space line

-- lastNonEmptyLine
unfoldable pub last_non_empty_line : Chars → Chars
unfolding first_non_empty
last_non_empty_line output = first_non_empty (reverse (split_at 10 (trim_space output)))

-- What queryArchiverStatus returns.
pub record ArchiverStatus : Type 0 where
  pub archived : Chars
  pub failed : Chars
  pub failing : Bool

-- The tests of one round: the segment is archived, or archiving fails at or past it.
unfoldable pub has_archived : Chars → ArchiverStatus → Bool
unfolding at_or_past
has_archived target s = not (s.archived == []) && at_or_past s.archived target

unfoldable pub has_failed : Chars → ArchiverStatus → Bool
unfolding at_or_past
has_failed target s = s.failing && (not (s.failed == []) && at_or_past s.failed target)

module _ (E : Errors) where
  -- The fields of the status, of which there are three.
  unfoldable pub status_of : List Chars → Result E.Error ArchiverStatus
  status_of (archived ∷ failed ∷ failing ∷ []) =
      ok (record { archived = archived; failed = failed; failing = failing == codes "t" })
  status_of [] = err (E.errorf "unexpected pg_stat_archiver output")
  status_of (a ∷ []) = err (E.errorf "unexpected pg_stat_archiver output")
  status_of (a ∷ b ∷ []) = err (E.errorf "unexpected pg_stat_archiver output")
  status_of (a ∷ b ∷ c ∷ d ∷ more) = err (E.errorf "unexpected pg_stat_archiver output")

  module _ {W : Type 0} (run : String → Exec E.Error W Chars) (expired : E.Error) where
    -- queryArchiverStatus
    unfoldable pub query_archiver_status : Exec E.Error W ArchiverStatus
    unfolding last_non_empty_line status_of
    query_archiver_status = do
      output ←
          run
            "SELECT coalesce(last_archived_wal, ''), coalesce(last_failed_wal, ''), coalesce(last_failed_time > last_archived_time, false) FROM pg_stat_archiver"
      lift (status_of (split_at b'|' (last_non_empty_line output)))

    -- One round of waitForWALArchive, with what it does where nothing is settled yet.
    unfoldable pub poll_round :
        Chars → ArchiverStatus → Exec E.Error W (Unit {0}) → Exec E.Error W (Unit {0})
    unfolding has_archived has_failed
    poll_round target s next =
        if has_archived target s
        then pure tt
        else if has_failed target s
        then raise (E.errorf "WAL archiving is failing")
        else next

    -- waitForWALArchive, with the rounds that the deadline leaves after this one.
    unfoldable pub wait_for_wal_archive : ℕ → Chars → Exec E.Error W (Unit {0})
    unfolding poll_round query_archiver_status
    wait_for_wal_archive zero target = do
      s ← wrapping E "failed to query WAL archiver status" query_archiver_status
      poll_round target s
          (raise (E.wrap_error expired "timed out waiting for WAL segment to be archived"))
    wait_for_wal_archive (suc rounds) target = do
      s ← wrapping E "failed to query WAL archiver status" query_archiver_status
      poll_round target s (wait_for_wal_archive rounds target)

    -- The end of ForceWALArchive, from the segment of the fence on.
    unfoldable pub archive_segment : ℕ → Chars → Exec E.Error W (Unit {0})
    unfolding wait_for_wal_archive
    archive_segment rounds [] =
        raise (E.errorf "could not determine the WAL segment for the recovery fence")
    archive_segment rounds (c ∷ cs) = do
      wrapping E "failed to switch WAL after writing the recovery fence"
          (run "SELECT pg_switch_wal()")
      wait_for_wal_archive rounds (c ∷ cs)

    -- ForceWALArchive
    unfoldable pub force_wal_archive : ℕ → Exec E.Error W (Unit {0})
    unfolding last_non_empty_line archive_segment
    force_wal_archive rounds = do
      wrapping E "failed to write WAL recovery fence" (run "SELECT txid_current()")
      output ←
          wrapping E "failed to determine the WAL segment for the recovery fence"
            (run "SELECT pg_walfile_name(pg_current_wal_lsn())")
      archive_segment rounds (last_non_empty_line output)
