-- ===== src/Disaster/Validation.antt =====
-- The validation of configurations (generic.go).
pub mod Slots
pub mod Accepted
use backup_tool.Base.{
  ℕ, ◌+◌, String, Bool, ◌&&◌, ◌||◌, not, Option, none, some, List, [], ◌∷◌, map, if◌then◌else◌,
  is_empty, length, ◌==◌, nat_eq, list_eq, contains,
}
use backup_tool.Base.Text.{Chars}
use backup_tool.Errors.{Errors, wrap}
use backup_tool.Filters.{FileFilter, Globs, validate_file_filter}
use backup_tool.Disaster.Slots.{validate_slot_name}
use backup_tool.Disaster.Config.{
  LabelSelector, GenericFilesSource, GenericFilesBackupSource, GenericFileGroupSource,
  GenericFileGroupBackupSource, GenericS3Source, GenericPostgresBackupSource,
  GenericPostgresRestoreSource, GenericBackupConfig, GenericRestoreConfig,
}

-- Checks in sequence, each of which returns early: the first error.
abbrev pub first_error : {X : Type 0} → List (Option X) → Option X
first_error [] = none
first_error (none ∷ checks) = first_error checks
first_error (some e ∷ checks) = some e

-- isEmptyLabelSelector
unfoldable pub is_empty_label_selector : LabelSelector → Bool
is_empty_label_selector s = is_empty s.match_labels && is_empty s.match_expressions

module _ (E : Errors) where
  -- The error that a condition returns.
  abbrev pub refuse : Bool → String → Option E.Error
  refuse condition m = if condition then some (E.errorf m) else none

  -- The loop that the four kinds of sources share: the name, then whether it was seen, then `rest`.
  unfoldable pub validate_slots :
      {A : Type 0}
      → (A → Chars)
      → String
      → (A → Option E.Error)
      → List Chars
      → List A
      → Option E.Error
  unfolding validate_slot_name
  validate_slots name duplicate rest seen [] = none
  validate_slots name duplicate rest seen (src ∷ sources) = first_error (
      wrap E (validate_slot_name E (name src)) ""
      ∷ refuse (contains seen (name src)) duplicate
      ∷ rest src
      ∷ validate_slots name duplicate rest (name src ∷ seen) sources
      ∷ [])

  -- validateFilesSources
  unfoldable pub validate_files_sources : List GenericFilesSource → Option E.Error
  unfolding validate_slots
  validate_files_sources =
      validate_slots (λ src. src.name) "duplicate files slot name"
        (λ src. refuse (src.pvc == []) "files source: pvc is required") []

  -- validateFileGroupSources
  unfoldable pub validate_file_group_sources : List GenericFileGroupSource → Option E.Error
  unfolding validate_slots is_empty_label_selector
  validate_file_group_sources =
      validate_slots (λ src. src.name) "duplicate fileGroup slot name"
        (λ src.
          refuse (is_empty_label_selector src.selector)
            "fileGroup source: selector must match on at least one label or expression")
        []

  -- validateS3Sources
  unfoldable pub validate_s3_sources : List GenericS3Source → Option E.Error
  unfolding validate_slots
  validate_s3_sources =
      validate_slots (λ src. src.name) "duplicate s3 slot name"
        (λ src. refuse (src.path == []) "s3 source: path is required") []

  -- The loop over the postgres sources of a backup.
  unfoldable pub validate_postgres_backups : List GenericPostgresBackupSource → Option E.Error
  unfolding validate_slots
  validate_postgres_backups =
      validate_slots (λ src. src.name) "duplicate postgres slot name"
        (λ src. refuse (src.cluster == []) "postgres source: cluster is required") []

  -- What the loop over the postgres sources of a restore checks of one beside its name.
  abbrev pub needs_checks : GenericPostgresRestoreSource → List (Option E.Error)
  needs_checks src =
      refuse (src.cluster == []) "postgres source: cluster is required"
      ∷ refuse (src.client_ca_issuer.name == []) "postgres source: clientCAIssuer.name is required"
      ∷ refuse (src.serving_cert == []) "postgres source: servingCert is required"
      ∷ []

  -- The loop over the postgres sources of a restore.
  unfoldable pub validate_postgres_restores : List GenericPostgresRestoreSource → Option E.Error
  unfolding validate_slots
  validate_postgres_restores =
      validate_slots (λ src. src.name) "duplicate postgres slot name"
        (λ src. first_error (needs_checks src)) []

  -- The loops over the filters of a backup.
  unfoldable pub validate_filters : Globs → String → List FileFilter → Option E.Error
  validate_filters g m [] = none
  validate_filters g m (f ∷ filters) =
      first_error (wrap E (validate_file_filter E g f) m ∷ validate_filters g m filters ∷ [])

  -- The checks of GenericBackupConfig.Validate, in their order.
  abbrev pub backup_checks : Globs → GenericBackupConfig → List (Option E.Error)
  backup_checks g c =
      refuse (length c.postgres + length c.files + length c.file_groups + length c.s3 == 0)
        "at least one source (postgres, files, fileGroups, or s3) must be configured"
      ∷ validate_postgres_backups c.postgres
      ∷ wrap E (validate_files_sources (map (λ src. src.source) c.files)) ""
      ∷ validate_filters g "files source has an invalid include/exclude filter"
          (map (λ src. src.filter) c.files)
      ∷ wrap E (validate_file_group_sources (map (λ src. src.source) c.file_groups)) ""
      ∷ validate_filters g "fileGroup source has an invalid include/exclude filter"
          (map (λ src. src.filter) c.file_groups)
      ∷ wrap E (validate_s3_sources c.s3) ""
      ∷ refuse
          ((not (is_empty c.postgres) || not (is_empty c.s3) || not (is_empty c.file_groups))
            && c.backup_volume.size == 0)
          "backupVolume.size is required when the config has postgres, s3, or fileGroup sources"
      ∷ []

  -- GenericBackupConfig.Validate
  unfoldable pub validate_backup_config : Globs → GenericBackupConfig → Option E.Error
  unfolding validate_postgres_backups validate_files_sources validate_filters
      validate_file_group_sources validate_s3_sources
  validate_backup_config g c = first_error (backup_checks g c)

  -- The checks of GenericRestoreConfig.Validate, in their order.
  abbrev pub restore_checks : GenericRestoreConfig → List (Option E.Error)
  restore_checks c =
      refuse (length c.postgres + length c.files + length c.file_groups + length c.s3 == 0)
        "at least one source (postgres, files, fileGroups, or s3) must be configured"
      ∷ validate_postgres_restores c.postgres
      ∷ wrap E (validate_files_sources c.files) ""
      ∷ wrap E (validate_file_group_sources c.file_groups) ""
      ∷ wrap E (validate_s3_sources c.s3) ""
      ∷ []

  -- GenericRestoreConfig.Validate
  unfoldable pub validate_restore_config : GenericRestoreConfig → Option E.Error
  unfolding validate_postgres_restores validate_files_sources validate_file_group_sources
      validate_s3_sources
  validate_restore_config c = first_error (restore_checks c)
