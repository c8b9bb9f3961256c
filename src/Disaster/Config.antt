-- ===== src/Disaster/Config.antt =====
-- The configurations of generic.go. Quantities are natural numbers, and 0 is one that is not set;
-- so are times to wait.
use backup_tool.Base.{ℕ, Bool, not, ◌&&◌, List, [], ◌==◌, list_eq}
use backup_tool.Base.Text.{Chars}
use backup_tool.Filters.{FileFilter}
use backup_tool.Kube.Certs.{IssuerReference}
use backup_tool.Kube.Clone.{CloneClusterOptions}

-- metav1.LabelSelectorRequirement
pub record Requirement : Type 0 where
  pub key : Chars
  pub operator : Chars
  pub values : List Chars

-- metav1.LabelSelector
pub record LabelSelector : Type 0 where
  pub match_labels : List (Chars × Chars)
  pub match_expressions : List Requirement

-- s3.Credentials
pub record Credentials : Type 0 where
  pub access_key_id : Chars
  pub secret_access_key : Chars
  pub session_token : Chars
  pub endpoint : Chars
  pub region : Chars
  pub s3_force_path_style : Bool

-- GenericFilesSource
pub record GenericFilesSource : Type 0 where
  pub name : Chars
  pub pvc : Chars

-- GenericFilesBackupSource
pub record GenericFilesBackupSource : Type 0 where
  pub source : GenericFilesSource
  pub snapshot_class : Chars
  pub filter : FileFilter

-- GenericFileGroupSource
pub record GenericFileGroupSource : Type 0 where
  pub name : Chars
  pub selector : LabelSelector

-- GenericFileGroupBackupSource
pub record GenericFileGroupBackupSource : Type 0 where
  pub source : GenericFileGroupSource
  pub snapshot_class : Chars
  pub filter : FileFilter

-- GenericS3Source
pub record GenericS3Source : Type 0 where
  pub name : Chars
  pub path : Chars
  pub credentials : Credentials

-- GenericPostgresBackupSource
pub record GenericPostgresBackupSource : Type 0 where
  pub name : Chars
  pub cluster : Chars
  pub cluster_cloning : CloneClusterOptions

-- cnpgrestore.CNPGRestoreOptionsCert, with the wait of its CRPOpts
pub record CnpgRestoreOptionsCert : Type 0 where
  pub wait_for_crp_timeout : ℕ
  pub wait_for_cert_timeout : ℕ

-- GenericPostgresRestoreSource
pub record GenericPostgresRestoreSource : Type 0 where
  pub name : Chars
  pub cluster : Chars
  pub serving_cert : Chars
  pub client_ca_issuer : IssuerReference
  pub postgres_user_cert : CnpgRestoreOptionsCert

-- GenericBackupVolume
pub record GenericBackupVolume : Type 0 where
  pub storage_class : Chars
  pub snapshot_class : Chars
  pub size : ℕ
  pub snapshot_ready_timeout : ℕ

-- GenericBackupConfig
pub record GenericBackupConfig : Type 0 where
  pub namespace : Chars
  pub backup_name : Chars
  pub backup_volume : GenericBackupVolume
  pub cleanup_timeout : ℕ
  pub postgres : List GenericPostgresBackupSource
  pub files : List GenericFilesBackupSource
  pub file_groups : List GenericFileGroupBackupSource
  pub s3 : List GenericS3Source

-- GenericRestoreConfig
pub record GenericRestoreConfig : Type 0 where
  pub namespace : Chars
  pub backup_name : Chars
  pub cleanup_timeout : ℕ
  pub postgres : List GenericPostgresRestoreSource
  pub files : List GenericFilesSource
  pub file_groups : List GenericFileGroupSource
  pub s3 : List GenericS3Source

-- The comparison of resolveS3Credentials with the zero value.
abbrev pub credentials_unset : Credentials → Bool
credentials_unset c =
    c.access_key_id == []
    && c.secret_access_key == []
    && c.session_token == []
    && c.endpoint == []
    && c.region == []
    && not c.s3_force_path_style
