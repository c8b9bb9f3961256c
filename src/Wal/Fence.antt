-- ===== src/Wal/Fence.antt =====
-- What a successful ForceWALArchive has done.
use backup_tool.Base.{ℕ, ◌≡◌, ◌≢◌, refl, ◌↔◌, [], ◌∷◌, String, arith}
use backup_tool.Base.Text.{Chars}
use backup_tool.Errors.{Errors, ok}
use backup_tool.Exec.{Exec, wrapping}
use backup_tool.Exec.Inversion.{bind-ok, wrapping-ok}
use backup_tool.Wal.{last_non_empty_line, archive_segment, force_wal_archive}
use backup_tool.Wal.Waiting.{Archived, Archived-wait, wait-Archived}

module _ (E : Errors) {W : Type 0} (run : String → Exec E.Error W Chars) (expired : E.Error) where
  -- From the segment of the fence on: the log is switched, then the segment is reported.
  pub record IsSwitched (n : ℕ) (segment : Chars) (w w' : W) : Type 0 where
    pub named : segment ≢ []
    pub output : Chars
    pub after : W
    pub switched : run "SELECT pg_switch_wal()" w ≡ (ok output, after)
    pub archived : Archived E run expired segment n after w'

  -- A commit is written before the segment is asked for, and the segment is archived.
  pub record IsFenced (n : ℕ) (w w' : W) : Type 0 where
    pub output : Chars
    pub located : Chars
    pub after : W
    pub there : W
    pub committed : run "SELECT txid_current()" w ≡ (ok output, after)
    pub found : run "SELECT pg_walfile_name(pg_current_wal_lsn())" after ≡ (ok located, there)
    pub rest : IsSwitched n (last_non_empty_line located) there w'

  archive-IsSwitched :
      (n : ℕ) (segment : Chars) (w w' : W)
      → archive_segment E run expired n segment w ≡ (ok tt, w')
      → IsSwitched n segment w w'
  unfolding archive_segment
  archive-IsSwitched n [] w w' h = absurd (ground (arith, h))
  archive-IsSwitched n (c ∷ cs) w w' h =
      let (o, w₁, q, rest) = bind-ok (wrapping E _ (run "SELECT pg_switch_wal()")) _ w tt w' h in
      record {
        output = o;
        after = w₁;
        named = λ e. absurd (ground (arith, e));
        switched = wrapping-ok E _ (run "SELECT pg_switch_wal()") w o w₁ q;
        archived = wait-Archived E run expired (c ∷ cs) n w₁ w' rest;
      }

  IsSwitched-archive :
      (n : ℕ) (segment : Chars) (w w' : W)
      → IsSwitched n segment w w'
      → archive_segment E run expired n segment w ≡ (ok tt, w')
  unfolding archive_segment
  IsSwitched-archive n [] w w' h = absurd (h.named refl)
  IsSwitched-archive n (c ∷ cs) w w' h =
      rw (h.switched) (Archived-wait E run expired (c ∷ cs) h.archived)

  -- ForceWALArchive succeeds exactly where a transaction was committed, then the segment was asked
  -- for and its name is not empty, then the log was switched, and then a poll within the rounds
  -- reported that segment or a later one, each poll before it having reported neither that nor a
  -- failure at or past it.
  pub force_wal_archive_iff :
      (n : ℕ) (w w' : W) → (force_wal_archive E run expired n w ≡ (ok tt, w')) ↔ IsFenced n w w'
  unfolding force_wal_archive
  force_wal_archive_iff n w w' = (
    λ h.
        let (o, w₁, q, h₁) = bind-ok (wrapping E _ (run "SELECT txid_current()")) _ w tt w' h in
        let (l, w₂, q', h₂) =
          bind-ok (wrapping E _ (run "SELECT pg_walfile_name(pg_current_wal_lsn())")) _ w₁ tt w'
            h₁ in
        record {
          output = o;
          located = l;
          after = w₁;
          there = w₂;
          committed = wrapping-ok E _ (run "SELECT txid_current()") w o w₁ q;
          found = wrapping-ok E _ (run "SELECT pg_walfile_name(pg_current_wal_lsn())") w₁ l w₂ q';
          rest = archive-IsSwitched n (last_non_empty_line l) w₂ w' h₂;
        },
    λ f. rw f.committed (rw f.found (IsSwitched-archive n _ _ w' f.rest)),
  )
