-- ===== src/Stage/Outcome.antt =====
-- What a stage returns, and that it releases what it holds on every path (remotestage.go).
use backup_tool.Base.{
  ◌≡◌, ◌↔◌, ◌++◌, Option, none, some, List, [], ◌∷◌, All, arith, Option-cases, inl, inr,
  if◌then◌else◌, ◌==◌, nat_eq, subst,
}
use backup_tool.Base.Text.{codes}
use backup_tool.Errors.{Errors}
use backup_tool.Helpers.{minute}
use backup_tool.Cleanup.{CleanupContext}
use backup_tool.Stage.Model.{
  Actions, Environment, State, Event, Method, execute_each, execute, run_cleanup, cleanup_all,
  run_body, run, cleaned, instance_created, instance_deleted, client_opened, client_closed,
}
use backup_tool.Stage.Trace.{in_order, on_cleanup, calls-cleanup_all}

module _ (E : Errors) {W Opts : Type 0} (env : Environment E W Opts) where
  -- The context in which an action's cleanup runs.
  abbrev pub stage_context : CleanupContext
  stage_context = record {
    log_prefix = env.log_prefix ++ codes "***";
    timeout = if env.cleanup_timeout == 0 then minute else env.cleanup_timeout;
  }

  -- The errors that the actions' cleanups return, each run in the world that the one before left.
  abbrev pub cleanup_errors : Actions E W Opts → W → List (Option E.Error)
  cleanup_errors [] w = []
  cleanup_errors (a ∷ actions) w = elim a.action.cleanup [
    | none ↦ cleanup_errors actions w
    | some m ↦ let (e, w') = m stage_context w in e ∷ cleanup_errors actions w'
  ]

  run_cleanup-world :
      (event : Event Opts) (m : CleanupContext → Method E W Opts) (original : Option E.Error)
      (s : State E W Opts)
      → (run_cleanup E env event m original s).1.world ≡ (m stage_context s.world).1
  unfolding run_cleanup
  run_cleanup-world event m original s = ground arith

  run_cleanup-error :
      (event : Event Opts) (m : CleanupContext → Method E W Opts) (original : Option E.Error)
      (s : State E W Opts)
      → ((run_cleanup E env event m original s).0 ≡ none)
        ↔ ((original ≡ none) × ((m stage_context s.world).0 ≡ none))
  unfolding run_cleanup
  run_cleanup-error event m none s = ground arith
  run_cleanup-error event m (some x) s = ground arith

  cleanup_all-error :
      (actions : Actions E W Opts) (outer : Option E.Error) (s : State E W Opts)
      → ((cleanup_all E env actions outer s).0 ≡ none)
        ↔ ((outer ≡ none) × All (λ e. e ≡ none) (cleanup_errors actions s.world))
  unfolding cleanup_all
  cleanup_all-error [] outer s = (λ h. (h, tt), λ h. h.0)
  cleanup_all-error (a ∷ actions) outer s = elim (Option-cases a.action.cleanup) [
    | inl absent ↦ rw absent (cleanup_all-error actions outer s)
    | inr (m, has) ↦
        let (outer', s') = run_cleanup E env (cleaned a.name) m outer s in
        let ends = run_cleanup-error (cleaned a.name) m outer s in
        let rest =
          subst
            (λ w.
              ((cleanup_all E env actions outer' s').0 ≡ none)
              ↔ ((outer' ≡ none) × All (λ e. e ≡ none) (cleanup_errors actions w)))
            (run_cleanup-world (cleaned a.name) m outer s) (cleanup_all-error actions outer' s') in
        simp has (
          λ h. let all = rest.0 h in let now = ends.0 all.0 in (now.0, (now.1, all.1)),
          λ h. rest.1 (ends.1 (h.0, h.1.0), h.1.1),
        )
  ]

  -- A run returns nil exactly if its body does and no cleanup of an action fails.
  pub run-reports :
      (actions : Actions E W Opts) (s : State E W Opts)
      → ((run E env actions s).0 ≡ none) ↔ (
          ((run_body E env actions s).0 ≡ none)
          × All (λ e. e ≡ none) (cleanup_errors actions (run_body E env actions s).1.world))
  unfolding run
  run-reports actions s =
      cleanup_all-error actions (run_body E env actions s).0 (run_body E env actions s).1

  -- However the body of a run ends, each action that has a cleanup is cleaned up once after it, in
  -- the order of the actions, also where a cleanup before it fails; and nothing else is called.
  pub run-cleans_up :
      (actions : Actions E W Opts) (s : State E W Opts)
      → (run E env actions s).1.calls
        ≡ in_order on_cleanup actions (run_body E env actions s).1.calls
  unfolding run
  run-cleans_up actions s =
      calls-cleanup_all E env actions (run_body E env actions s).0 (run_body E env actions s).1

  -- Once the tool instance exists it is deleted last, and once its client is open the client is
  -- closed right after the executions, whatever these return.
  pub execute-releases :
      (actions : Actions E W Opts) (opts : Opts) (s : State E W Opts)
      → let (created, w) = env.create_instance opts s.world in
        let (opened, w') = env.get_client w in
        let calls : List (Event Opts) = client_opened ∷ instance_created opts ∷ s.calls in
        (execute E env actions opts s).1.calls ≡ elim created [
          | some _ ↦ instance_created opts ∷ s.calls
          | none ↦ instance_deleted ∷ elim opened [
            | some _ ↦ calls
            | none ↦
                client_closed
                ∷ (execute_each E actions (record { world = w'; calls = calls })).1.calls
          ]
        ]
  unfolding execute
  execute-releases actions opts s = ground arith

-- What closing the client and deleting the tool instance return is lost: with any other errors
-- reported by the two, `execute` returns the same error and leaves the same state.
pub execute-ignores_reports :
    (E : Errors) {W Opts : Type 0} (env : Environment E W Opts) (close delete : W → Option E.Error)
    (actions : Actions E W Opts) (opts : Opts) (s : State E W Opts)
    → let env' : Environment E W Opts = record env {
      close_client = λ w. (close w, (env.close_client w).1);
      delete_instance = λ w. (delete w, (env.delete_instance w).1);
    } in
      execute E env' actions opts s ≡ execute E env actions opts s
unfolding execute
execute-ignores_reports E env close delete actions opts s = ground arith
