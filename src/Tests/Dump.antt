-- ===== src/Tests/Dump.antt =====
-- A dump whose file is the list of the lines that are written, newest first.
use backup_tool.Base.{◌≡◌, refl, none, List, [], ◌∷◌}
use backup_tool.Base.Text.{Chars, codes}
use backup_tool.Errors.{ok}
use backup_tool.Tests.{numbered}
use backup_tool.Dump.{
  eof, DumpProcess, fresh_tracker, ignore_lines, dump_lines, dump_all, is_statement, marked,
}
use backup_tool.Dump.Spec.{commented, dump_spec}
use backup_tool.Dump.Refinement.{dump_lines-dump_spec}
use backup_tool.Base.{ℕ}

abbrev recording : DumpProcess ℕ (List Chars)
recording = record {
  stdout_pipe = λ w. (ok tt, w);
  open_output = λ path w. (ok tt, w);
  start = λ w. (ok tt, w);
  write_string = λ line w. (ok tt, line ∷ w);
  wait = λ w. (ok tt, w);
  flush = λ w. (none, w);
  close = λ w. (none, w);
}

abbrev create_twice : List Chars
create_twice = codes "CREATE ROLE postgres;\n" ∷ codes "CREATE ROLE postgres;\n" ∷ []

-- Only the first is commented out.
dumped :
    dump_all numbered recording (codes "/dr/db.sql") create_twice (eof []) 0 []
    ≡ (none, [] ∷ codes "CREATE ROLE postgres;\n" ∷ marked (codes "CREATE ROLE postgres;\n") ∷ [])
unfolding dump_all
dumped = refl

-- The comment of another role, whose name starts with that of the ignored one.
abbrev exporter_comment : Chars
exporter_comment = codes "COMMENT ON ROLE postgres_exporter IS 'x';\n"

also_ignored : commented ignore_lines [] (exporter_comment ∷ []) ≡ marked exporter_comment ∷ []
unfolding commented is_statement
also_ignored = refl

dump_lines-dump_spec_example :
    dump_lines numbered recording (fresh_tracker ignore_lines) create_twice (eof []) []
    ≡ dump_spec numbered recording ignore_lines [] create_twice (eof []) []
dump_lines-dump_spec_example = dump_lines-dump_spec numbered recording create_twice (eof []) []
