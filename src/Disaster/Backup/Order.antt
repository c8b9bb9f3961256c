-- ===== src/Disaster/Backup/Order.antt =====
-- The order in which a backup freezes its sources (GenericApp.Backup in generic.go, with
-- pkg/disasterrecovery/actions/remote/remotestage.go).
use backup_tool.Base.{ℕ, ◌≡◌, sym, subst, ap, ◌∙◌, none, List, [], ◌∷◌, ◌++◌}
use backup_tool.Errors.{Errors}
use backup_tool.Stage.Model.{
  Actions, Environment, Event, State, run, instance_created, instance_deleted, client_opened,
  client_closed,
}
use backup_tool.Stage.Trace.{
  in_order, on_validate, on_before, on_point, on_setup, on_execute, on_cleanup, run-order,
}
use backup_tool.Stage.Outcome.{run-reports}
use backup_tool.Disaster.Config.{GenericBackupConfig}
use backup_tool.Disaster.Apps.{GenericApp}
use backup_tool.Disaster.Backup.{Finished, backup}
use backup_tool.Disaster.Backup.Captured.{IsRegistered, in_order-append}
use backup_tool.Disaster.Backup.Outcome.{backup-IsCaptured, stage_of}

module _ (E : Errors) {W Opts : Type 0} (app : GenericApp E W Opts) (c : GenericBackupConfig) where
  -- The calls of a stage, newest first, on the actions of the four kinds: before the point is handed
  -- out the databases' work is done, then that of the files, the file groups and the buckets.
  pub record IsFrozen (actions postgres files file_groups s3 : Actions E W Opts)
      (calls : List (Event Opts)) : Type 0 where
    pub point : ℕ
    pub opts : Opts
    pub in_kinds : actions ≡ postgres ++ (files ++ (file_groups ++ s3))
    pub in_phases :
        calls
        ≡ in_order on_cleanup actions (
            instance_deleted
            ∷ client_closed
            ∷ in_order on_execute actions (
                client_opened
                ∷ instance_created opts
                ∷ in_order on_setup actions (
                    in_order (on_point point) actions (
                      in_order on_before s3 (
                        in_order on_before file_groups (
                          in_order on_before files
                            (in_order on_before postgres (in_order on_validate actions []))))))))

  before-kinds :
      (actions postgres files file_groups s3 : Actions E W Opts) (calls : List (Event Opts))
      → actions ≡ postgres ++ (files ++ (file_groups ++ s3))
      → in_order on_before actions calls
        ≡ in_order on_before s3 (
            in_order on_before file_groups
              (in_order on_before files (in_order on_before postgres calls)))
  before-kinds actions postgres files file_groups s3 calls e =
      ap (λ as_. in_order on_before as_ calls) e
      ∙ in_order-append on_before postgres (files ++ (file_groups ++ s3)) calls
      ∙ in_order-append on_before files (file_groups ++ s3) (in_order on_before postgres calls)
      ∙ in_order-append on_before file_groups s3
          (in_order on_before files (in_order on_before postgres calls))

  run-IsFrozen :
      (env : Environment E W Opts) (actions postgres files file_groups s3 : Actions E W Opts)
      (w : W) (ran : State E W Opts)
      → actions ≡ postgres ++ (files ++ (file_groups ++ s3))
      → run E env actions (record { world = w; calls = [] }) ≡ (none, ran)
      → IsFrozen actions postgres files file_groups s3 ran.calls
  run-IsFrozen env actions postgres files file_groups s3 w ran e h =
      let start : State E W Opts = record { world = w; calls = [] } in
      let body = ((run-reports E env actions start).0 (ap (λ p. p.0) h)).0 in
      let (point, opts, calls) = run-order E env actions start body in
      record {
        point = point;
        opts = opts;
        in_kinds = e;
        in_phases =
            ap (λ p. p.1.calls) (sym h)
            ∙ calls
            ∙ ap
                (λ frozen. in_order on_cleanup actions (
                  instance_deleted
                  ∷ client_closed
                  ∷ in_order on_execute actions (
                      client_opened
                      ∷ instance_created opts
                      ∷ in_order on_setup actions (in_order (on_point point) actions frozen))))
                (before-kinds actions postgres files file_groups s3
                  (in_order on_validate actions []) e);
      }

  -- In a backup that returns no error, the work that precedes the consistency point is done first by
  -- the actions of the postgres sources, then by those of the files, then by those of the file
  -- groups, whatever their order in the configuration; after it all take the same point.
  pub backup-IsFrozen :
      (w w' : W) (result : Finished E.Error Opts)
      → backup E app c w ≡ (result, w')
      → result.error ≡ none
      → (actions : Actions E W Opts) × (made : W) × (ready : W) × (r : IsRegistered E app c made
          actions ready)
        × IsFrozen actions r.postgres r.files r.file_groups r.s3 result.calls
  backup-IsFrozen w w' result h succeeded =
      let captured = (backup-IsCaptured E app c w w' result h succeeded).1 in
      let r = captured.of_actions in
      (
        captured.actions,
        captured.made,
        captured.ready,
        r,
        subst (IsFrozen captured.actions r.postgres r.files r.file_groups r.s3)
            (sym captured.of_calls)
            (run-IsFrozen (stage_of E app c w) captured.actions r.postgres r.files r.file_groups
              r.s3 captured.ready captured.ran r.in_kinds captured.of_run),
      )
