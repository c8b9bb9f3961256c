-- ===== src/Stage/Trace.antt =====
-- The order of the calls that a stage makes (remotestage.go), read off its record of calls.
use backup_tool.Base.{
  ℕ, ◌≡◌, refl, ◌∙◌, ap, Option, none, some, List, [], ◌∷◌, arith, Option-cases, inl, inr,
}
use backup_tool.Errors.{Errors, ok, Result-cases}
use backup_tool.Stage.Model.{
  Actions, Environment, Event, NamedRemoteAction, State, validate, before_points, set_points,
  setup_each, setup, execute_each, execute, run_cleanup, cleanup_all, run_body, run,
  consistency_point, validated, before_point, point_set, set_up, executed, cleaned,
  instance_created, instance_deleted, client_opened, client_closed, earlier,
}

module _ {E : Errors} {W Opts : Type 0} where
  -- `f a` for each action that has it, in the order of the actions, on top of earlier calls.
  abbrev pub in_order :
      (NamedRemoteAction E W Opts → Option (Event Opts))
      → Actions E W Opts
      → List (Event Opts)
      → List (Event Opts)
  in_order f [] calls = calls
  in_order f (a ∷ actions) calls = elim (f a) [
    | none ↦ in_order f actions calls
    | some e ↦ in_order f actions (e ∷ calls)
  ]

  abbrev pub on_validate : NamedRemoteAction E W Opts → Option (Event Opts)
  on_validate a = some (validated a.name)

  abbrev pub on_before : NamedRemoteAction E W Opts → Option (Event Opts)
  on_before a = elim a.action.before_consistency_point [
    | none ↦ none
    | some _ ↦ some (before_point a.name)
  ]

  abbrev pub on_point : ℕ → NamedRemoteAction E W Opts → Option (Event Opts)
  on_point point a = elim a.action.set_consistency_point [
    | none ↦ none
    | some _ ↦ some (point_set a.name point)
  ]

  abbrev pub on_setup : NamedRemoteAction E W Opts → Option (Event Opts)
  on_setup a = some (set_up a.name)

  abbrev pub on_execute : NamedRemoteAction E W Opts → Option (Event Opts)
  on_execute a = some (executed a.name)

  abbrev pub on_cleanup : NamedRemoteAction E W Opts → Option (Event Opts)
  on_cleanup a = elim a.action.cleanup [ none ↦ none | some _ ↦ some (cleaned a.name) ]

module _ (E : Errors) {W Opts : Type 0} where
  calls-validate :
      (actions : Actions E W Opts) (s : State E W Opts)
      → (validate E actions s).0 ≡ none
      → (validate E actions s).1.calls ≡ in_order on_validate actions s.calls
  unfolding validate
  calls-validate [] s h = refl
  calls-validate (a ∷ actions) s h = elim (Option-cases (a.action.validate s.world).0) [
    | inl e ↦ ground (
      arith,
      calls-validate actions
          (record { world = (a.action.validate s.world).1; calls = validated a.name ∷ s.calls }),
    )
    | inr (x, e) ↦ ground arith
  ]

  calls-before_points :
      (actions : Actions E W Opts) (p c : ℕ) (s : State E W Opts)
      → (before_points E actions p s).0 ≡ ok c
      → (before_points E actions p s).1.calls ≡ in_order on_before actions s.calls
  unfolding before_points
  calls-before_points [] p c s h = refl
  calls-before_points (a ∷ actions) p c s h =
      elim (Option-cases a.action.before_consistency_point) [
        | inl absent ↦ ground (arith, calls-before_points actions p c s)
        | inr (m, has) ↦ elim (Result-cases (m s.world).0) [
          | inl (t, pinned) ↦ ground (
            arith,
            calls-before_points actions (earlier t p) c
                (record { world = (m s.world).1; calls = before_point a.name ∷ s.calls }),
          )
          | inr (x, failed) ↦ ground arith
        ]
      ]

  calls-set_points :
      (actions : Actions E W Opts) (c : ℕ) (s : State E W Opts)
      → (set_points E actions c s).calls ≡ in_order (on_point c) actions s.calls
  unfolding set_points
  calls-set_points [] c s = refl
  calls-set_points (a ∷ actions) c s = elim (Option-cases a.action.set_consistency_point) [
    | inl absent ↦ ground (arith, calls-set_points actions c s)
    | inr (m, has) ↦ ground (
      arith,
      calls-set_points actions c
          (record { world = m c s.world; calls = point_set a.name c ∷ s.calls }),
    )
  ]

  calls-setup_each :
      (actions : Actions E W Opts) (opts opts' : Opts) (s : State E W Opts)
      → (setup_each E actions opts s).0 ≡ ok opts'
      → (setup_each E actions opts s).1.calls ≡ in_order on_setup actions s.calls
  unfolding setup_each
  calls-setup_each [] opts opts' s h = refl
  calls-setup_each (a ∷ actions) opts opts' s h =
      elim (Option-cases (a.action.setup opts s.world).0) [
        | inl e ↦ ground (
          arith,
          calls-setup_each actions (a.action.setup opts s.world).1 opts'
              (record { world = (a.action.setup opts s.world).2; calls = set_up a.name ∷ s.calls }),
        )
        | inr (x, e) ↦ ground arith
      ]

  calls-execute_each :
      (actions : Actions E W Opts) (s : State E W Opts)
      → (execute_each E actions s).0 ≡ none
      → (execute_each E actions s).1.calls ≡ in_order on_execute actions s.calls
  unfolding execute_each
  calls-execute_each [] s h = refl
  calls-execute_each (a ∷ actions) s h = elim (Option-cases (a.action.execute s.world).0) [
    | inl e ↦ ground (
      arith,
      calls-execute_each actions
          (record { world = (a.action.execute s.world).1; calls = executed a.name ∷ s.calls }),
    )
    | inr (x, e) ↦ ground arith
  ]

  module _ (env : Environment E W Opts) where
    pub calls-cleanup_all :
        (actions : Actions E W Opts) (outer : Option E.Error) (s : State E W Opts)
        → (cleanup_all E env actions outer s).1.calls ≡ in_order on_cleanup actions s.calls
    unfolding cleanup_all
    calls-cleanup_all [] outer s = refl
    calls-cleanup_all (a ∷ actions) outer s = elim (Option-cases a.action.cleanup) [
      | inl absent ↦ ground (arith, calls-cleanup_all actions outer s)
      | inr (m, has) ↦ ground (
        arith,
        calls-cleanup_all actions (run_cleanup E env (cleaned a.name) m outer s).0
            (run_cleanup E env (cleaned a.name) m outer s).1,
      )
    ]

    calls-setup :
        (actions : Actions E W Opts) (opts : Opts) (s : State E W Opts)
        → (setup E env actions s).0 ≡ ok opts
        → (c : ℕ) × ((setup E env actions s).1.calls
            ≡ in_order on_setup actions
                (in_order (on_point c) actions (in_order on_before actions s.calls)))
    unfolding setup
    calls-setup actions opts s h = elim (Result-cases (before_points E actions 0 s).0) [
      | inl (p, e) ↦
          let s' : State E W Opts = (before_points E actions 0 s).1 in
          let c : ℕ = consistency_point E env p s' in
          (
            c,
            ground (
              arith,
              calls-before_points actions 0 p s e,
              calls-set_points actions c s',
              calls-setup_each actions env.empty_opts opts (set_points E actions c s'),
            ),
          )
      | inr (x, e) ↦ absurd (ground arith)
    ]

    -- The calls of a successful `execute`, on top of those before it.
    calls-execute :
        (actions : Actions E W Opts) (opts : Opts) (s : State E W Opts)
        → (execute E env actions opts s).0 ≡ none
        → (execute E env actions opts s).1.calls
          ≡ instance_deleted
            ∷ client_closed
            ∷ in_order on_execute actions (client_opened ∷ instance_created opts ∷ s.calls)
    unfolding execute
    calls-execute actions opts s h = elim (Option-cases (env.create_instance opts s.world).0) [
      | inl created ↦
          let w : W = (env.create_instance opts s.world).1 in
          elim (Option-cases (env.get_client w).0) [
            | inl opened ↦ ground (
              arith,
              calls-execute_each actions (record {
                world = (env.get_client w).1;
                calls = client_opened ∷ instance_created opts ∷ s.calls;
              }),
            )
            | inr (x, e) ↦ ground arith
          ]
      | inr (x, e) ↦ ground arith
    ]

    calls-run_body :
        (actions : Actions E W Opts) (s : State E W Opts)
        → (run_body E env actions s).0 ≡ none
        → (c : ℕ) × (opts : Opts) × ((run_body E env actions s).1.calls
            ≡ instance_deleted
              ∷ client_closed
              ∷ in_order on_execute actions (
                  client_opened
                  ∷ instance_created opts
                  ∷ in_order on_setup actions (
                      in_order
                        (on_point c)
                        actions
                        (in_order on_before actions (in_order on_validate actions s.calls)))))
    unfolding run_body
    calls-run_body actions s h = elim (Option-cases (validate E actions s).0) [
      | inl v ↦
          let s' : State E W Opts = (validate E actions s).1 in
          elim (Result-cases (setup E env actions s').0) [
            | inl (opts, e) ↦
                let s₂ : State E W Opts = (setup E env actions s').1 in
                let points = calls-setup actions opts s' e in
                (
                  points.0,
                  opts,
                  ground (
                    arith,
                    calls-validate actions s v,
                    points.1,
                    calls-execute actions opts s₂ (ground arith),
                  ),
                )
            | inr (x, e) ↦ absurd (ground arith)
          ]
      | inr (x, e) ↦ absurd (ground arith)
    ]

    -- If no step of the body of a run fails, then the calls are, in this order: every action's
    -- validation, the work before the consistency point of those that have it, one common point
    -- handed to those that take it, every set-up, the creation of the tool instance, its client,
    -- every execution, the end of the client and of the instance, and the clean-ups.
    pub run-order :
        (actions : Actions E W Opts) (s : State E W Opts)
        → (run_body E env actions s).0 ≡ none
        → (c : ℕ) × (opts : Opts) × ((run E env actions s).1.calls
            ≡ in_order on_cleanup actions (
                instance_deleted
                ∷ client_closed
                ∷ in_order on_execute actions (
                    client_opened
                    ∷ instance_created opts
                    ∷ in_order on_setup actions (
                        in_order
                          (on_point c)
                          actions
                          (in_order on_before actions (in_order on_validate actions s.calls))))))
    unfolding run
    run-order actions s h =
        let body = calls-run_body actions s h in
        (
          body.0,
          body.1,
          calls-cleanup_all actions (run_body E env actions s).0 (run_body E env actions s).1
              ∙ ap (in_order on_cleanup actions) body.2,
        )
