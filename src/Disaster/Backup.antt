-- ===== src/Disaster/Backup.antt =====
-- GenericApp.Backup of generic.go.
pub mod Order
pub mod Outcome
pub mod Captured
use backup_tool.Base.{
  ℕ, ◌+◌, ◌*◌, String, Option, none, some, List, [], ◌∷◌, ◌++◌, map, if◌then◌else◌, ◌==◌, nat_eq,
}
use backup_tool.Base.Text.{Chars}
use backup_tool.Errors.{Errors, Result, ok, err}
use backup_tool.Exec.{Exec, wrapping, pure, raise, lift, gets, error_of, from_error, ◌>>=◌, ◌>>◌}
use backup_tool.Stage.Model.{Actions, NamedRemoteAction, RemoteAction, Event, run}
use backup_tool.DrVolumes.{DrVolume, new_dr_volume, snapshot_and_wait_ready}
use backup_tool.Disaster.Slots.{dump_file_name}
use backup_tool.Disaster.Config.{
  GenericFilesSource, GenericFilesBackupSource, GenericFileGroupBackupSource, GenericS3Source,
  GenericPostgresBackupSource, GenericBackupConfig,
}
use backup_tool.Disaster.Validation.{validate_backup_config}
use backup_tool.Disaster.Events.{DrEvent, new_dr_event_now, get_full_name, stop}
use backup_tool.Disaster.Apps.{GenericApp, direction_download, resolve_s3_credentials}

-- What Backup and Restore return, the event being nil where the configuration is not accepted, and
-- the calls of their stage, newest first, if there is one.
pub record Finished (X Opts : Type 0) : Type 0 where
  pub event : Option DrEvent
  pub error : Option X
  pub calls : List (Event Opts)

module _ (E : Errors) {W Opts : Type 0} where
  -- The loop that registers the actions of one kind: an action is made and configured for each
  -- source, and the first failure ends the loop.
  unfoldable pub register :
      {A : Type 0}
      → (A → String)
      → String
      → (A → Exec E.Error W (RemoteAction E W Opts))
      → List A
      → Exec E.Error W (Actions E W Opts)
  register name m make [] = pure []
  register name m make (src ∷ sources) = do
    action ← wrapping E m (make src)
    actions ← register name m make sources
    pure (record { name = name src; action = action } ∷ actions)

module _ (E : Errors) {W Opts : Type 0} (app : GenericApp E W Opts) where
  -- The loop of GenericApp.backupVolumeSize, on the sum so far.
  unfoldable pub sum_pvcs : Chars → List GenericFilesBackupSource → ℕ → Exec E.Error W ℕ
  sum_pvcs namespace [] total = pure total
  sum_pvcs namespace (src ∷ sources) total = do
    pvc ←
        wrapping E "failed to get files source PVC to size the DR volume"
          (app.clients.get_pvc namespace src.source.pvc)
    size ← lift (elim pvc.storage_request [
      | none ↦ err (E.errorf "files source PVC has no storage request")
      | some size ↦ ok size
    ])
    sum_pvcs namespace sources (total + size)

  -- GenericApp.backupVolumeSize
  unfoldable pub backup_volume_size : GenericBackupConfig → Exec E.Error W ℕ
  unfolding sum_pvcs
  backup_volume_size c =
      if c.backup_volume.size == 0
      then (do total ← sum_pvcs c.namespace c.files 0; pure (total * 2))
      else pure c.backup_volume.size

  module _ (c : GenericBackupConfig) where
    -- The actions that Backup registers, kind by kind.
    unfoldable pub postgres_backups : Exec E.Error W (Actions E W Opts)
    unfolding register
    postgres_backups =
        register E (λ (src : GenericPostgresBackupSource). app.named "postgres" src.name "backup")
          "failed to configure postgres source backup"
          (λ (src : GenericPostgresBackupSource).
            app.new_cnpg_backup c.namespace src.cluster c.backup_name (dump_file_name src.name)
              (record { cloning_opts = src.cluster_cloning; cleanup_timeout = c.cleanup_timeout }))
          c.postgres

    unfoldable pub files_backups : Exec E.Error W (Actions E W Opts)
    unfolding register
    files_backups =
        register E (λ (src : GenericFilesBackupSource). app.named "files" src.source.name "backup")
          "failed to configure files source backup"
          (λ (src : GenericFilesBackupSource).
            app.new_files_backup c.namespace src.source.pvc c.backup_name src.source.name (record {
              snapshot_class = src.snapshot_class;
              filter = src.filter;
              cleanup_timeout = c.cleanup_timeout;
            }))
          c.files

    unfoldable pub file_group_backups : Exec E.Error W (Actions E W Opts)
    unfolding register
    file_group_backups =
        register E
          (λ (src : GenericFileGroupBackupSource). app.named "fileGroup" src.source.name "backup")
          "failed to configure fileGroup source backup"
          (λ (src : GenericFileGroupBackupSource).
            app.new_files_group_backup c.namespace src.source.selector c.backup_name src.source.name
              (record {
                snapshot_class = src.snapshot_class;
                filter = src.filter;
                cleanup_timeout = c.cleanup_timeout;
              }))
          c.file_groups

    unfoldable pub s3_backups : Exec E.Error W (Actions E W Opts)
    unfolding register
    s3_backups =
        register E (λ (src : GenericS3Source). app.named "s3" src.name "sync")
          "failed to configure s3 source backup"
          (λ (src : GenericS3Source).
            app.new_s3_sync c.namespace c.backup_name src.name src.path
              (resolve_s3_credentials app.credentials_from_env src.credentials) direction_download)
          c.s3

    -- All of them, in the order of the registration.
    unfoldable pub backup_actions : Exec E.Error W (Actions E W Opts)
    unfolding postgres_backups files_backups file_group_backups s3_backups
    backup_actions = do
      postgres ← postgres_backups
      files ← files_backups
      file_groups ← file_group_backups
      s3 ← s3_backups
      pure (postgres ++ (files ++ (file_groups ++ s3)))

    -- The DR volume and the actions.
    unfoldable pub prepare_backup : Chars → Exec E.Error W (DrVolume × Actions E W Opts)
    unfolding backup_volume_size backup_actions
    prepare_backup name = do
      size ← wrapping E "failed to determine the DR volume size" (backup_volume_size c)
      drv ← wrapping E "failed to create the DR volume" (
          new_dr_volume E app.clients c.namespace name size (record {
            volume_storage_class = c.backup_volume.storage_class;
            cnpg_cluster_names = map (λ src. src.cluster) c.postgres;
          }))
      actions ← backup_actions
      pure (drv, actions)

    -- Runs the stage, and takes the snapshot of the DR volume if that succeeds.
    unfoldable pub run_backup :
        Chars → DrVolume → Actions E W Opts → W → Option E.Error × List (Event Opts) × W
    run_backup full_name drv actions w =
        let (e, s) =
          run E (app.new_remote_stage c.namespace full_name c.cleanup_timeout) actions
            (record { world = w; calls = [] }) in
        elim e [
          | some e ↦ (some (E.wrap_error e "failed to run backup actions"), s.calls, s.world)
          | none ↦
              let (r, w') =
                wrapping E "failed to snapshot the backup volume"
                  (snapshot_and_wait_ready E app.clients drv full_name (record {
                    ready_timeout = c.backup_volume.snapshot_ready_timeout;
                    snapshot_class = c.backup_volume.snapshot_class;
                  }))
                  s.world in
              (error_of r, s.calls, w')
        ]

    -- Backup from the creation of the event on, but for its end.
    unfoldable pub backup_body : DrEvent → W → Option E.Error × List (Event Opts) × W
    unfolding prepare_backup run_backup
    backup_body event w =
        let (r, w') = prepare_backup event.name w in
        elim r [
          | err e ↦ (some e, [], w')
          | ok (drv, actions) ↦ run_backup (get_full_name app.rfc3339 event) drv actions w'
        ]

    -- GenericApp.Backup
    unfoldable pub backup : W → Finished E.Error Opts × W
    backup w = elim (validate_backup_config E app.globs c) [
      | some e ↦ (
        record {
          event = none;
          error = some (E.wrap_error e "invalid backup configuration");
          calls = [];
        },
        w,
      )
      | none ↦
          let event = new_dr_event_now c.backup_name (app.now w) in
          let (e, calls, w') = backup_body event w in
          (record { event = some (stop (app.now w') event); error = e; calls = calls }, w')
    ]
