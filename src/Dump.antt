-- ===== src/Dump.antt =====
-- pkg/postgres/dump.go: the logical dump of all databases, whose statements on the roles that CNPG
-- manages are commented out. The process and the output file are parameters that act on a world `W`.
-- What the process prints is its lines, each with its line feed, and how they end. Progress logs are
-- left out.
pub mod Spec
pub mod Prefixes
pub mod Refinement
use mathlib.Core.List.{reverse}
use backup_tool.Base.{
  ℕ, zero, suc, ◌+◌, ◌*◌, String, Bool, true, false, not, ◌&&◌, ◌||◌, Option, none, some, List, [],
  ◌∷◌, ◌++◌, map, length, if◌then◌else◌, ltb, ◌==◌, nat_eq,
}
use backup_tool.Base.Text.{Chars, codes, has_prefix}
use backup_tool.Errors.{Errors, Result, ok, err, wrap, new_aggregate}
use backup_tool.Exec.{Exec, wrapping, pure, raise, error_of, ◌>>=◌, ◌>>◌}
use backup_tool.Helpers.{max_wait}
use backup_tool.Cleanup.{to, with_original_err, with_timeout, run_error}

-- ignoreLines
abbrev pub ignore_lines : List Chars
ignore_lines =
    codes "DROP ROLE IF EXISTS postgres"
    ∷ codes "DROP ROLE IF EXISTS streaming_replica"
    ∷ codes "CREATE ROLE postgres"
    ∷ codes "ALTER ROLE postgres"
    ∷ codes "COMMENT ON ROLE postgres"
    ∷ codes "CREATE ROLE streaming_replica"
    ∷ codes "ALTER ROLE streaming_replica"
    ∷ codes "COMMENT ON ROLE streaming_replica"
    ∷ []

-- ignoreLineTracker and foundIgnoreLineCount
pub record Tracker : Type 0 where
  pub items : List (Chars × Bool)
  pub found_count : ℕ

abbrev pub fresh_tracker : List Chars → Tracker
fresh_tracker prefixes = record { items = map (λ p. (p, false)) prefixes; found_count = 0 }

-- The last character but one is a semicolon.
unfoldable pub ends_statement : Chars → Bool
ends_statement [] = false
ends_statement (c ∷ []) = false
ends_statement (c ∷ d ∷ []) = c == b';'
ends_statement (c ∷ d ∷ e ∷ s) = ends_statement (d ∷ e ∷ s)

-- Not blank, no comment, no psql command, and a statement.
unfoldable pub is_statement : Chars → Bool
unfolding ends_statement
is_statement [] = false
is_statement (c ∷ []) = false
is_statement (c ∷ d ∷ s) =
    (not (c == b'-') || not (d == b'-')) && not (c == b'\\') && ends_statement (c ∷ d ∷ s)

-- The loop over the prefixes: the first that was not found yet and fits is marked as found.
unfoldable pub flag : List (Chars × Bool) → Chars → Option (List (Chars × Bool))
flag [] line = none
flag ((p, found) ∷ items) line =
    let rest = elim (flag items line) as (λ _. Option (List (Chars × Bool))) [
      | none ↦ none
      | some items' ↦ some ((p, found) ∷ items')
    ] in
    if not found && has_prefix line p then some ((p, true) ∷ items) else rest

abbrev pub marked : Chars → Chars
marked line = codes "-- Ignored statement: " ++ line

-- One line of the loop: what is tracked, and the line that is written.
unfoldable pub comment_line : Tracker → Chars → Tracker × Chars
unfolding is_statement flag
comment_line t line =
    if ltb t.found_count (length t.items) && is_statement line
    then (elim (flag t.items line) as (λ _. Tracker × Chars) [
      | none ↦ (t, line)
      | some items ↦ (record { items = items; found_count = t.found_count + 1 }, marked line)
    ])
    else (t, line)

-- How the output of the process ends: with what follows the last line feed, or by an error.
pub data Ending (X : Type 0) : Type 0 where
  eof : Chars → Ending X
  broken : X → Ending X

-- The process and the output file.
pub record DumpProcess (X W : Type 0) : Type 0 where
  pub stdout_pipe : Exec X W (Unit {0})
  pub open_output : Chars → Exec X W (Unit {0})
  pub start : Exec X W (Unit {0})
  pub write_string : Chars → Exec X W (Unit {0})
  pub wait : Exec X W (Unit {0})
  pub flush : W → Option X × W
  pub close : W → Option X × W

module _ (E : Errors) {W : Type 0} (d : DumpProcess E.Error W) where
  abbrev pub write_line : Chars → Exec E.Error W (Unit {0})
  write_line line = wrapping E "failed to write SQL line to output file" (d.write_string line)

  -- The loop over the output.
  unfoldable pub dump_lines : Tracker → List Chars → Ending E.Error → Exec E.Error W (Unit {0})
  unfolding comment_line
  dump_lines t [] (eof last) = write_line (comment_line t last).1
  dump_lines t [] (broken e) = raise (E.wrap_error e "failed to read from stdout")
  dump_lines t (line ∷ lines) ending =
      write_line (comment_line t line).1 >> dump_lines (comment_line t line).0 lines ending

  -- DumpAll once the file is open, up to its closing
  unfoldable pub run_dump : List Chars → Ending E.Error → Exec E.Error W (Unit {0})
  unfolding dump_lines
  run_dump lines ending = do
    wrapping E "failed to start process" d.start
    dump_lines (fresh_tracker ignore_lines) lines ending
    wrapping E "process failed" d.wait

  -- The logic of the deferred closing.
  unfoldable pub close_file : W → Option E.Error × W
  close_file w =
      let (flush_err, w₁) = d.flush w in
      let (close_err, w₂) = d.close w₁ in
      (
        new_aggregate E (
            wrap E flush_err "failed to flush all output data to output file"
            ∷ wrap E close_err "failed to close output file"
            ∷ []),
        w₂,
      )

  -- The file is closed in any case, and the error is what `err` is by then.
  unfoldable pub settle_file : ℕ → Result E.Error (Unit {0}) × W → Option E.Error × W
  unfolding close_file run_error max_wait
  settle_file timeout (r, w) =
      let (_, stored, w') =
        run_error
          (with_timeout (max_wait (30 * 1000000000) timeout)
            (with_original_err (error_of r) (to {E = E} (λ _. close_file))))
          w in
      (elim stored as (λ _. Option E.Error) [ none ↦ error_of r | some e ↦ e ], w')

  -- DumpAll once the pipe and the file are there or not
  unfoldable pub with_file :
      List Chars → Ending E.Error → ℕ → Result E.Error (Unit {0}) × W → Option E.Error × W
  unfolding run_dump settle_file
  with_file lines ending timeout (err e, w) = (some e, w)
  with_file lines ending timeout (ok _, w) = settle_file timeout (run_dump lines ending w)

  -- DumpAll
  unfoldable pub dump_all : Chars → List Chars → Ending E.Error → ℕ → W → Option E.Error × W
  unfolding with_file
  dump_all output_file_path lines ending timeout w = with_file lines ending timeout (
      (wrapping E "failed to get stdout pipe" d.stdout_pipe
          >> wrapping E "failed to open SQL dump output file" (d.open_output output_file_path))
        w)
