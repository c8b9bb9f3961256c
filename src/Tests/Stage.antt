-- ===== src/Tests/Stage.antt =====
-- A stage with a database action and a file action, at concrete inputs.
use backup_tool.Base.{ℕ, suc, ◌≡◌, ◌↔◌, refl, Option, none, some, [], ◌∷◌, All}
use backup_tool.Base.Text.{codes}
use backup_tool.Errors.{ok}
use backup_tool.Tests.{numbered}
use backup_tool.Stage.Model.{
  RemoteAction, Actions, Environment, State, before_points, execute_each, execute, run_body, run,
  instance_created, instance_deleted, client_opened, client_closed,
}
use backup_tool.Stage.Pins.{IsEarliest, pins, before_points-IsEarliest}
use backup_tool.Stage.Trace.{
  in_order, on_validate, on_before, on_point, on_setup, on_execute, on_cleanup, run-order,
}
use backup_tool.Stage.Outcome.{
  cleanup_errors, run-reports, run-cleans_up, execute-releases, execute-ignores_reports,
}

-- The world is a number that each call counts up.
abbrev count : ℕ → Option ℕ × ℕ
count w = (none, suc w)

abbrev database : RemoteAction numbered ℕ ℕ
database = record {
  validate = count;
  setup = λ opts w. (none, suc opts, suc w);
  execute = count;
  cleanup = some (λ _ w. (some 3, suc w));
  before_consistency_point = some (λ w. (ok 50, suc w));
  set_consistency_point = some (λ t w. w);
}

abbrev files : RemoteAction numbered ℕ ℕ
files = record {
  validate = count;
  setup = λ opts w. (none, suc opts, suc w);
  execute = count;
  cleanup = some (λ _. count);
  before_consistency_point = some (λ w. (ok 40, suc w));
  set_consistency_point = none;
}

abbrev both : Actions numbered ℕ ℕ
both =
    record { name = "database"; action = database } ∷ record { name = "files"; action = files } ∷ []

abbrev tools : Environment numbered ℕ ℕ
tools = record {
  now = λ w. 60;
  empty_opts = 0;
  create_instance = λ _. count;
  get_client = count;
  close_client = count;
  delete_instance = λ w. (some 9, suc w);
  log_prefix = codes "backup";
  cleanup_timeout = 0;
}

abbrev start : State numbered ℕ ℕ
start = record { world = 0; calls = [] }

body_succeeds : (run_body numbered tools both start).0 ≡ none
unfolding run_body
body_succeeds = refl

settles : (before_points numbered both 0 start).0 ≡ ok 40
unfolding before_points
settles = refl

run-order_example :
    (c : ℕ) × (opts : ℕ) × ((run numbered tools both start).1.calls
      ≡ in_order on_cleanup both (
          instance_deleted
          ∷ client_closed
          ∷ in_order on_execute both (
              client_opened
              ∷ instance_created opts
              ∷ in_order on_setup both (
                  in_order
                    (on_point c)
                    both
                    (in_order on_before both (in_order on_validate both []))))))
run-order_example = run-order numbered tools both start body_succeeds

run-reports_example : ((run numbered tools both start).0 ≡ none) ↔ (
    ((run_body numbered tools both start).0 ≡ none)
    × All
        (λ e. e ≡ none)
        (cleanup_errors numbered tools both (run_body numbered tools both start).1.world))
run-reports_example = run-reports numbered tools both start

run-cleans_up_example :
    (run numbered tools both start).1.calls
    ≡ in_order on_cleanup both (run_body numbered tools both start).1.calls
run-cleans_up_example = run-cleans_up numbered tools both start

execute-releases_example :
    (execute numbered tools both 2 start).1.calls
    ≡ instance_deleted
      ∷ client_closed
      ∷ (execute_each numbered both
          (record { world = 2; calls = client_opened ∷ instance_created 2 ∷ [] })).1.calls
execute-releases_example = execute-releases numbered tools both 2 start

execute-ignores_reports_example :
    execute numbered
      (record tools { close_client = λ w. (some 5, suc w); delete_instance = λ w. (none, suc w) })
      both
      2
      start
    ≡ execute numbered tools both 2 start
execute-ignores_reports_example =
    execute-ignores_reports numbered tools (λ w. some 5) (λ w. none) both 2 start

settled : before_points numbered both 0 start ≡ (ok 40, (before_points numbered both 0 start).1)
unfolding before_points
settled = refl

before_points-IsEarliest_example : IsEarliest (pins numbered both 0) 40
before_points-IsEarliest_example =
    before_points-IsEarliest numbered both start (before_points numbered both 0 start).1 40 settled
