-- ===== src/Cleanup.antt =====
-- pkg/cleanup/cleanup.go: deferred cleanup logic, its context and its error handling.
-- A world `W` stands for what the logic changes. The pointer `originalErr` is an optional value,
-- and running a cleanup returns what it points at afterwards. Times are nanoseconds.
pub mod Laws
use backup_tool.Base.{
  ℕ, ◌*◌, String, Bool, Option, none, some, List, [], ◌∷◌, ◌++◌, if◌then◌else◌, ◌==◌, nat_eq,
}
use backup_tool.Base.Text.{Chars, codes}
use backup_tool.Errors.{Errors, wrap, new_aggregate}

-- DefaultCleanupTimeout
abbrev pub default_cleanup_timeout : ℕ
default_cleanup_timeout = 600 * 1000000000

-- What the logic sees of the context that is built for it: never that of a cancelled parent.
pub record CleanupContext : Type 0 where
  pub log_prefix : Chars
  pub timeout : ℕ

module _ (E : Errors) (W : Type 0) where
  pub record Cleanup : Type 0 where
    pub cleanup_logic : Option (CleanupContext → W → Option E.Error × W)
    pub on_err_message : String
    pub original_err : Option (Option E.Error)
    pub parent_prefix : Option Chars
    pub timeout : ℕ

module _ {E : Errors} {W : Type 0} where
  -- To
  abbrev pub to : (CleanupContext → W → Option E.Error × W) → Cleanup E W
  to logic = record {
    cleanup_logic = some logic;
    on_err_message = "";
    original_err = none;
    parent_prefix = none;
    timeout = 0;
  }

  abbrev pub with_err_message : String → Cleanup E W → Cleanup E W
  with_err_message m c = record c { on_err_message = m }

  abbrev pub with_original_err : Option E.Error → Cleanup E W → Cleanup E W
  with_original_err e c = record c { original_err = some e }

  abbrev pub with_parent_ctx : Chars → Cleanup E W → Cleanup E W
  with_parent_ctx prefix c = record c { parent_prefix = some prefix }

  abbrev pub with_timeout : ℕ → Cleanup E W → Cleanup E W
  with_timeout t c = record c { timeout = t }

  unfoldable pub build_context : Cleanup E W → CleanupContext
  build_context c = record {
    log_prefix = elim c.parent_prefix [ none ↦ codes "***" | some p ↦ p ++ codes "***" ];
    timeout = if c.timeout == 0 then default_cleanup_timeout else c.timeout;
  }

module _ (E : Errors) {W : Type 0} where
  -- the returned error, what the pointer points at afterwards, and the world
  conclude :
      String
      → Option (Option E.Error)
      → Option E.Error × W
      → Option E.Error × Option (Option E.Error) × W
  conclude m none (e, w) = (wrap E e m, none, w)
  conclude m (some original) (e, w) =
      let aggregate = new_aggregate E (original ∷ wrap E e m ∷ []) in (aggregate, some aggregate, w)

module _ {E : Errors} {W : Type 0} where
  unfoldable pub run_error : Cleanup E W → W → Option E.Error × Option (Option E.Error) × W
  unfolding build_context conclude
  run_error c w = elim c.cleanup_logic [
    | none ↦ (none, c.original_err, w)
    | some logic ↦ conclude E c.on_err_message c.original_err (logic (build_context c) w)
  ]
