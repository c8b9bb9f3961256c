-- ===== src/Stage/Model.antt =====
-- The definitions of pkg/disasterrecovery/actions/remote/remotestage.go. An action is a record of
-- its methods over a world `W`, which holds the actions' own states and all that they reach; the
-- interfaces that the stage finds by a type assertion are optional fields. The stage's calls are
-- recorded beside the world, newest first. Times are numbers, and 0 is Go's zero time.
use backup_tool.Base.{
  ℕ, String, not, ◌&&◌, ◌||◌, Option, none, some, List, [], ◌∷◌, if◌then◌else◌, ltb, ◌==◌, nat_eq,
}
use backup_tool.Base.Text.{Chars}
use backup_tool.Errors.{Errors, Result, ok, err}
use backup_tool.Cleanup.{
  CleanupContext, to, with_err_message, with_original_err, with_parent_ctx, with_timeout, run_error,
}
use backup_tool.Helpers.{minute, max_wait}

-- One call that the stage makes, with what it passes.
pub data Event (Opts : Type 0) : Type 0 where
  validated before_point executed cleaned : String → Event Opts
  point_set : String → ℕ → Event Opts
  set_up : String → Event Opts
  instance_created : Opts → Event Opts
  instance_deleted client_opened client_closed : Event Opts

-- The earliest non-zero instant so far.
unfoldable pub earlier : ℕ → ℕ → ℕ
earlier pinned point =
    if not (pinned == 0) && (point == 0 || ltb pinned point) then pinned else point

module _ (E : Errors) (W Opts : Type 0) where
  -- A method that may fail.
  abbrev pub Method : Type 0
  Method = W → Option E.Error × W

  -- RemoteAction, with CleanupAction, PreConsistencyPointAction and ConsistencyPointConsumer
  pub record RemoteAction : Type 0 where
    pub validate : Method
    pub setup : Opts → W → Option E.Error × Opts × W
    pub execute : Method
    pub cleanup : Option (CleanupContext → Method)
    pub before_consistency_point : Option (W → Result E.Error ℕ × W)
    pub set_consistency_point : Option (ℕ → W → W)

  -- namedRemoteAction
  pub record NamedRemoteAction : Type 0 where
    pub name : String
    pub action : RemoteAction

  abbrev pub Actions : Type 0
  Actions = List NamedRemoteAction

  -- What else the stage calls: the clock, the tool instance and its client; and the stage's own
  -- options. `empty_opts` are the options that `setup` starts from.
  pub record Environment : Type 0 where
    pub now : W → ℕ
    pub empty_opts : Opts
    pub create_instance : Opts → Method
    pub get_client : Method
    pub close_client : Method
    pub delete_instance : Method
    pub log_prefix : Chars
    pub cleanup_timeout : ℕ

  -- The world, and the calls made so far, newest first.
  pub record State : Type 0 where
    pub world : W
    pub calls : List (Event Opts)

module _ (E : Errors) {W Opts : Type 0} where
  -- One call of the stage.
  abbrev pub call : Event Opts → Method E W Opts → State E W Opts → Option E.Error × State E W Opts
  call event m s = let (e, w) = m s.world in (e, record { world = w; calls = event ∷ s.calls })

  -- RemoteStage.validate
  unfoldable pub validate : Actions E W Opts → State E W Opts → Option E.Error × State E W Opts
  validate [] s = (none, s)
  validate (a ∷ actions) s =
      let (e, s') = call (validated a.name) a.action.validate s in
      elim e [
        | none ↦ validate actions s'
        | some e ↦ (some (E.wrap_error e "failed to validate resources"), s')
      ]

  -- Phase 1 of RemoteStage.setup: the work that precedes the consistency point.
  unfoldable pub before_points :
      Actions E W Opts → ℕ → State E W Opts → Result E.Error ℕ × State E W Opts
  unfolding earlier
  before_points [] point s = (ok point, s)
  before_points (a ∷ actions) point s = elim a.action.before_consistency_point [
    | none ↦ before_points actions point s
    | some m ↦
        let (r, w) = m s.world in
        let s' : State E W Opts = record { world = w; calls = before_point a.name ∷ s.calls } in
        elim r [
          | ok pinned ↦ before_points actions (earlier pinned point) s'
          | err e ↦ (err (E.wrap_error e "failed to run pre-consistency-point step"), s')
        ]
  ]

  -- Phase 2: the point is handed to each action that aligns to it.
  unfoldable pub set_points : Actions E W Opts → ℕ → State E W Opts → State E W Opts
  set_points [] point s = s
  set_points (a ∷ actions) point s = elim a.action.set_consistency_point [
    | none ↦ set_points actions point s
    | some m ↦
        set_points actions point
          (record { world = m point s.world; calls = point_set a.name point ∷ s.calls })
  ]

  -- Phase 3
  unfoldable pub setup_each :
      Actions E W Opts → Opts → State E W Opts → Result E.Error Opts × State E W Opts
  setup_each [] opts s = (ok opts, s)
  setup_each (a ∷ actions) opts s =
      let (e, opts', w) = a.action.setup opts s.world in
      let s' : State E W Opts = record { world = w; calls = set_up a.name ∷ s.calls } in
      elim e [
        | none ↦ setup_each actions opts' s'
        | some e ↦ (err (E.wrap_error e "failed to setup resources"), s')
      ]

  -- The instant that is handed out once phase 1 has returned `point`.
  unfoldable pub consistency_point : Environment E W Opts → ℕ → State E W Opts → ℕ
  consistency_point env point s = if point == 0 then env.now s.world else point

  -- RemoteStage.setup
  unfoldable pub setup :
      Environment E W Opts
      → Actions E W Opts
      → State E W Opts
      → Result E.Error Opts × State E W Opts
  unfolding before_points consistency_point set_points setup_each
  setup env actions s =
      let (r, s') = before_points actions 0 s in
      elim r [
        | ok point ↦
            setup_each actions env.empty_opts
              (set_points actions (consistency_point env point s') s')
        | err e ↦ (err e, s')
      ]

  -- A deferred `cleanup.To(...)...Run()`: what the pointer to the original error points at
  -- afterwards, and the state.
  unfoldable pub run_cleanup :
      Environment E W Opts
      → Event Opts
      → (CleanupContext → Method E W Opts)
      → Option E.Error
      → State E W Opts
      → Option E.Error × State E W Opts
  unfolding run_error max_wait
  run_cleanup env event m original s =
      let (_, stored, w) =
        run_error
          (with_timeout (max_wait minute env.cleanup_timeout) (
            with_parent_ctx env.log_prefix
              (with_original_err original (with_err_message "failed to cleanup" (to {E = E} m)))))
          s.world in
      (elim stored [ none ↦ original | some e ↦ e ], record { world = w; calls = event ∷ s.calls })

  unfoldable pub execute_each : Actions E W Opts → State E W Opts → Option E.Error × State E W Opts
  execute_each [] s = (none, s)
  execute_each (a ∷ actions) s =
      let (e, s') = call (executed a.name) a.action.execute s in
      elim e [
        | none ↦ execute_each actions s'
        | some e ↦ (some (E.wrap_error e "failed to execute resources"), s')
      ]

  -- RemoteStage.execute from the client on: the error that it returns, the local variable `err`
  -- that the deferred cleanups point at, and the state.
  unfoldable pub use_client :
      Environment E W Opts
      → Actions E W Opts
      → State E W Opts
      → Option E.Error × Option E.Error × State E W Opts
  unfolding run_cleanup execute_each
  use_client env actions s =
      let (e, s') = call client_opened env.get_client s in
      elim e [
        | none ↦
            let (result, s₂) = execute_each actions s' in
            let (local, s₃) = run_cleanup env client_closed (λ _. env.close_client) none s₂ in
            (result, local, s₃)
        | some e ↦ (
          some (E.wrap_error e "failed to create client for backup tool GRPC server"),
          some e,
          s',
        )
      ]

  -- RemoteStage.execute. Its result is not named, so what the deferred cleanups store in the local
  -- variable `err` does not reach the caller.
  unfoldable pub execute :
      Environment E W Opts
      → Actions E W Opts
      → Opts
      → State E W Opts
      → Option E.Error × State E W Opts
  unfolding use_client run_cleanup
  execute env actions opts s =
      let (e, s') = call (instance_created opts) (env.create_instance opts) s in
      elim e [
        | none ↦
            let (result, local, s₂) = use_client env actions s' in
            let (_, s₃) = run_cleanup env instance_deleted (λ _. env.delete_instance) local s₂ in
            (result, s₃)
        | some e ↦ (some (E.wrap_error e "failed to create instance"), s')
      ]

  -- The function that RemoteStage.cleanupFunc returns, on what `outerErr` points at.
  unfoldable pub cleanup_all :
      Environment E W Opts
      → Actions E W Opts
      → Option E.Error
      → State E W Opts
      → Option E.Error × State E W Opts
  unfolding run_cleanup
  cleanup_all env [] outer s = (outer, s)
  cleanup_all env (a ∷ actions) outer s = elim a.action.cleanup [
    | none ↦ cleanup_all env actions outer s
    | some m ↦
        let (outer', s') = run_cleanup env (cleaned a.name) m outer s in
        cleanup_all env actions outer' s'
  ]

  -- The body of RemoteStage.Run, before its deferred cleanups.
  unfoldable pub run_body :
      Environment E W Opts → Actions E W Opts → State E W Opts → Option E.Error × State E W Opts
  unfolding validate setup execute
  run_body env actions s =
      let (e, s') = validate actions s in
      elim e [
        | some e ↦ (some e, s')
        | none ↦
            let (r, s₂) = setup env actions s' in
            elim r [ err e ↦ (some e, s₂) | ok opts ↦ execute env actions opts s₂ ]
      ]

  -- RemoteStage.Run
  unfoldable pub run :
      Environment E W Opts → Actions E W Opts → State E W Opts → Option E.Error × State E W Opts
  unfolding run_body cleanup_all
  run env actions s = let (e, s') = run_body env actions s in cleanup_all env actions e s'
