-- ===== src/Disaster/Restore.antt =====
-- GenericApp.Restore of generic.go.
use backup_tool.Base.{Option, none, some, List, [], ◌++◌}
use backup_tool.Errors.{Errors, ok, err, wrap}
use backup_tool.Exec.{Exec, pure, ◌>>=◌}
use backup_tool.Stage.Model.{Actions, Event, run}
use backup_tool.Disaster.Slots.{dump_file_name}
use backup_tool.Disaster.Config.{
  GenericFilesSource, GenericFileGroupSource, GenericS3Source, GenericPostgresRestoreSource,
  GenericRestoreConfig,
}
use backup_tool.Disaster.Validation.{validate_restore_config}
use backup_tool.Disaster.Events.{DrEvent, new_dr_event_now, get_full_name, stop}
use backup_tool.Disaster.Apps.{GenericApp, direction_upload, resolve_s3_credentials}
use backup_tool.Disaster.Backup.{Finished, register}

module _ (E : Errors) {W Opts : Type 0} (app : GenericApp E W Opts) (c : GenericRestoreConfig) where
  -- The actions that Restore registers, kind by kind.
  unfoldable pub postgres_restores : Exec E.Error W (Actions E W Opts)
  unfolding register
  postgres_restores =
      register E (λ (src : GenericPostgresRestoreSource). app.named "postgres" src.name "restore")
        "failed to configure postgres source restoration"
        (λ (src : GenericPostgresRestoreSource).
          app.new_cnpg_restore c.namespace src.cluster src.serving_cert src.client_ca_issuer
            c.backup_name (dump_file_name src.name)
            (record {
              postgres_user_cert = src.postgres_user_cert;
              cleanup_timeout = c.cleanup_timeout;
            }))
        c.postgres

  unfoldable pub files_restores : Exec E.Error W (Actions E W Opts)
  unfolding register
  files_restores =
      register E (λ (src : GenericFilesSource). app.named "files" src.name "restore")
        "failed to configure files source restoration"
        (λ (src : GenericFilesSource).
          app.new_files_restore c.namespace src.pvc c.backup_name src.name)
        c.files

  unfoldable pub file_group_restores : Exec E.Error W (Actions E W Opts)
  unfolding register
  file_group_restores =
      register E (λ (src : GenericFileGroupSource). app.named "fileGroup" src.name "restore")
        "failed to configure fileGroup source restoration"
        (λ (src : GenericFileGroupSource).
          app.new_files_group_restore c.namespace src.selector c.backup_name src.name)
        c.file_groups

  unfoldable pub s3_restores : Exec E.Error W (Actions E W Opts)
  unfolding register
  s3_restores =
      register E (λ (src : GenericS3Source). app.named "s3" src.name "sync")
        "failed to configure s3 source restoration"
        (λ (src : GenericS3Source).
          app.new_s3_sync c.namespace c.backup_name src.name src.path
            (resolve_s3_credentials app.credentials_from_env src.credentials) direction_upload)
        c.s3

  -- All of them, in the order of the registration.
  unfoldable pub restore_actions : Exec E.Error W (Actions E W Opts)
  unfolding postgres_restores files_restores file_group_restores s3_restores
  restore_actions = do
    postgres ← postgres_restores
    files ← files_restores
    file_groups ← file_group_restores
    s3 ← s3_restores
    pure (postgres ++ (files ++ (file_groups ++ s3)))

  -- Restore from the creation of the event on, but for its end.
  unfoldable pub restore_body : DrEvent → W → Option E.Error × List (Event Opts) × W
  unfolding restore_actions
  restore_body event w =
      let (r, w') = restore_actions w in
      elim r [
        | err e ↦ (some e, [], w')
        | ok actions ↦
            let (e, s) =
              run E
                (app.new_remote_stage c.namespace (get_full_name app.rfc3339 event)
                  c.cleanup_timeout)
                actions (record { world = w'; calls = [] }) in
            (wrap E e "failed to run restoration actions", s.calls, s.world)
      ]

  -- GenericApp.Restore
  unfoldable pub restore : W → Finished E.Error Opts × W
  restore w = elim (validate_restore_config E c) [
    | some e ↦ (
      record {
        event = none;
        error = some (E.wrap_error e "invalid restore configuration");
        calls = [];
      },
      w,
    )
    | none ↦
        let event = new_dr_event_now c.backup_name (app.now w) in
        let (e, calls, w') = restore_body event w in
        (record { event = some (stop (app.now w') event); error = e; calls = calls }, w')
  ]
