-- ===== src/Cleanup/Laws.antt =====
-- What a cleanup promises to the function that defers it (pkg/cleanup/cleanup.go).
use backup_tool.Base.{
  ◌<◌, ◌≡◌, ◌↔◌, ◌||◌, refl, ap, ◌∙◌, String, Option, none, some, [], ◌∷◌, arith,
}
use backup_tool.Errors.{Errors, wrap, new_aggregate, IsLawful, AggregatesAll, is_any}
use backup_tool.Cleanup.{Cleanup, CleanupContext, build_context, run_error}

-- What errors.Is finds in an aggregate of an original error and a wrapped one.
is_any-aggregate :
    {E : Errors}
    → IsLawful E
    → AggregatesAll E
    → (m : String) (original e : Option E.Error) (t : E.Error)
    → is_any E (new_aggregate E (original ∷ wrap E e m ∷ [])) t
      ≡ (is_any E original t || is_any E e t)
is_any-aggregate wraps all m none none t = refl
is_any-aggregate wraps all m (some o) none t = all o [] t
is_any-aggregate {E = E} wraps all m none (some x) t =
    ground (arith, all (E.wrap_error x m) [] t, wraps.is_wrap x t m)
is_any-aggregate {E = E} wraps all m (some o) (some x) t =
    ground (arith, all o (E.wrap_error x m ∷ []) t, wraps.is_wrap x t m)

module _ {E : Errors} {W : Type 0} (c : Cleanup E W) where
  -- A cleanup that has logic runs it once, in a context whose timeout is never zero; the world
  -- afterwards is the one that the logic leaves, whatever the original error is.
  run_error-runs_once :
      (logic : CleanupContext → W → Option E.Error × W) (w : W)
      → c.cleanup_logic ≡ some logic
      → ((run_error c w).2 ≡ (logic (build_context c) w).1) × (0 < (build_context c).timeout)
  unfolding run_error
  run_error-runs_once logic w h = ground arith

  -- Where errors.Is finds in a wrapped error what it finds in the error, and in an aggregate what it
  -- finds in one of the errors: with a pointer to an original error, the error that is returned is also
  -- stored there, it is nil exactly if both the original error and the error of the logic are nil, and
  -- errors.Is finds in it exactly what it finds in the original error or in that of the logic.
  pub run_error-keeps_original :
      IsLawful E
      → AggregatesAll E
      → (logic : CleanupContext → W → Option E.Error × W) (original : Option E.Error) (w : W)
      → c.cleanup_logic ≡ some logic
      → c.original_err ≡ some original
      → ((run_error c w).1 ≡ some (run_error c w).0)
        × (((run_error c w).0 ≡ none)
            ↔ ((original ≡ none) × ((logic (build_context c) w).0 ≡ none)))
        × ((t : E.Error)
            → is_any E (run_error c w).0 t
              ≡ (is_any E original t || is_any E (logic (build_context c) w).0 t))
  unfolding run_error
  run_error-keeps_original wraps all logic none w h k =
      let same : (run_error c w).0
          ≡ new_aggregate E (none ∷ wrap E (logic (build_context c) w).0 c.on_err_message ∷ []) =
        ground arith in
      (
        ground arith,
        ground arith,
        λ t.
            ap (λ e. is_any E e t) same
            ∙ is_any-aggregate wraps all c.on_err_message none (logic (build_context c) w).0 t,
      )
  run_error-keeps_original wraps all logic (some e) w h k =
      let same : (run_error c w).0
          ≡ new_aggregate E (some e ∷ wrap E (logic (build_context c) w).0 c.on_err_message ∷ []) =
        ground arith in
      (
        ground arith,
        ground arith,
        λ t.
            ap (λ e. is_any E e t) same
            ∙ is_any-aggregate wraps all c.on_err_message (some e) (logic (build_context c) w).0 t,
      )
