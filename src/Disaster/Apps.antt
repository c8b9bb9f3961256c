-- ===== src/Disaster/Apps.antt =====
-- What a procedure of generic.go is given: the constructors of its actions, each with the Configure
-- call that follows it, the stage, the cluster's clients, the clock and the environment.
use backup_tool.Base.{ℕ, String, if◌then◌else◌}
use backup_tool.Base.Text.{Chars}
use backup_tool.Errors.{Errors}
use backup_tool.Exec.{Exec}
use backup_tool.Filters.{FileFilter, Globs}
use backup_tool.Kube.Certs.{IssuerReference}
use backup_tool.Kube.Clone.{CloneClusterOptions}
use backup_tool.DrVolumes.{VolumeClients}
use backup_tool.Stage.Model.{RemoteAction, Environment}
use backup_tool.Disaster.Config.{
  LabelSelector, Credentials, CnpgRestoreOptionsCert, credentials_unset,
}

-- s3sync.Direction
pub data Direction : Type 0 where
  direction_download direction_upload : Direction

-- filesbackup.FilesBackupOptions and filesgroupbackup.FilesGroupBackupOptions
pub record FilesBackupOptions : Type 0 where
  pub snapshot_class : Chars
  pub filter : FileFilter
  pub cleanup_timeout : ℕ

-- cnpgbackup.CNPGBackupOptions
pub record CnpgBackupOptions : Type 0 where
  pub cloning_opts : CloneClusterOptions
  pub cleanup_timeout : ℕ

-- cnpgrestore.CNPGRestoreOptions
pub record CnpgRestoreOptions : Type 0 where
  pub postgres_user_cert : CnpgRestoreOptionsCert
  pub cleanup_timeout : ℕ

-- resolveS3Credentials
unfoldable pub resolve_s3_credentials : Credentials → Credentials → Credentials
resolve_s3_credentials from_env creds = if credentials_unset creds then from_env else creds

module _ (E : Errors) (W Opts : Type 0) where
  -- A new action, configured: namespace, what it is about, the DR volume, the path on it, options.
  abbrev pub New : Type 0
  New = Exec E.Error W (RemoteAction E W Opts)

  -- GenericApp
  pub record GenericApp : Type 0 where
    pub clients : VolumeClients E.Error W
    pub globs : Globs
    pub now : W → ℕ
    pub rfc3339 : ℕ → Chars
    -- fmt.Sprintf of a kind, a quoted name and a direction
    pub named : String → Chars → String → String
    -- s3.NewCredentialsFromEnv
    pub credentials_from_env : Credentials
    pub new_cnpg_backup : Chars → Chars → Chars → Chars → CnpgBackupOptions → New
    -- namespace, cluster, serving certificate, issuer, DR volume, file, options
    pub new_cnpg_restore :
        Chars → Chars → Chars → IssuerReference → Chars → Chars → CnpgRestoreOptions → New
    pub new_files_backup : Chars → Chars → Chars → Chars → FilesBackupOptions → New
    pub new_files_restore : Chars → Chars → Chars → Chars → New
    pub new_files_group_backup : Chars → LabelSelector → Chars → Chars → FilesBackupOptions → New
    pub new_files_group_restore : Chars → LabelSelector → Chars → Chars → New
    -- namespace, DR volume, directory, URL, credentials, direction
    pub new_s3_sync : Chars → Chars → Chars → Chars → Credentials → Direction → New
    -- namespace, event name, cleanup timeout
    pub new_remote_stage : Chars → Chars → ℕ → Environment E W Opts
