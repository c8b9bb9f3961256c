-- ===== src/Dump/Spec.antt =====
-- Which statements of a dump are commented out, said of the lines before a line and without a
-- tracker.
use backup_tool.Base.{Bool, not, ◌&&◌, List, [], ◌∷◌, ◌++◌, any, if◌then◌else◌}
use backup_tool.Base.Text.{Chars, has_prefix}
use backup_tool.Errors.{Errors}
use backup_tool.Exec.{Exec, pure, raise, ◌>>◌}
use backup_tool.Dump.{is_statement, marked, Ending, eof, broken, DumpProcess, write_line}

-- A statement that starts with the prefix.
abbrev pub hits : Chars → Chars → Bool
hits p line = is_statement line && has_prefix line p

-- It is the first one with some prefix.
abbrev pub first_hit : List Chars → List Chars → Chars → Bool
first_hit prefixes before line = any (λ p. hits p line && not (any (hits p) before)) prefixes

-- The lines after those `before`, newest first: each first hit is commented out.
unfoldable pub commented : List Chars → List Chars → List Chars → List Chars
commented prefixes before [] = []
commented prefixes before (line ∷ lines) =
    (if first_hit prefixes before line then marked line else line)
    ∷ commented prefixes (line ∷ before) lines

module _ (E : Errors) {W : Type 0} (d : DumpProcess E.Error W) where
  -- The lines are written one by one, as long as none fails, and then the rest is done.
  abbrev pub write_lines : List Chars → Exec E.Error W (Unit {0}) → Exec E.Error W (Unit {0})
  write_lines [] rest = rest
  write_lines (line ∷ lines) rest = write_line E d line >> write_lines lines rest

  -- What a dump writes: its lines and what follows them; an error is one after its lines.
  unfoldable pub dump_spec :
      List Chars → List Chars → List Chars → Ending E.Error → Exec E.Error W (Unit {0})
  unfolding commented
  dump_spec prefixes before lines (eof last) =
      write_lines (commented prefixes before (lines ++ last ∷ [])) (pure tt)
  dump_spec prefixes before lines (broken e) =
      write_lines (commented prefixes before lines)
        (raise (E.wrap_error e "failed to read from stdout"))
