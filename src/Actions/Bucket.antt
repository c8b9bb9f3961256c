-- ===== src/Actions/Bucket.antt =====
-- pkg/disasterrecovery/actions/remote/s3sync/s3sync.go: the capture and the restore of a bucket.
pub mod Sides
use backup_tool.Base.{ℕ, Bool, true, false, not, Option, none, some, List, [], ◌∷◌}
use backup_tool.Base.Text.{Chars, codes}
use backup_tool.Errors.{Errors, Result, ok, err}
use backup_tool.Exec.{Exec, wrapping, pure, gets, ◌>>=◌, ◌>>◌}
use backup_tool.Kube.Api.{History, pod, pvc, asking}
use backup_tool.Kube.Building.{Building, calling, hold}
use backup_tool.Disaster.Config.{Credentials}
use backup_tool.Disaster.Apps.{Direction, direction_download, direction_upload}
use backup_tool.Actions.{pvc_volume, InstanceOptions, mounting, Naming, require, fields}

-- What the action calls.
pub record S3SyncClients (X : Type 0) : Type 0 where
  pub get_pvc : Chars → Chars → History → Result X (Unit {0})
  -- Sync of the tool's client: credentials, source, destination, the instant
  pub s3_sync : Credentials → Chars → Chars → ℕ → History → Result X (Unit {0})
  pub naming : Naming

-- S3Sync, with the states that it embeds. Only the two directions exist, so the guard of Validate
-- against others always passes.
pub record S3Sync : Type 0 where
  pub uid : Chars
  pub is_configured : Bool
  pub namespace : Chars
  pub dr_vol_name : Chars
  pub backup_dir_rel_path : Chars
  pub s3_path : Chars
  pub credentials : Credentials
  pub direction : Direction
  pub consistency_point : ℕ
  pub is_validated : Bool
  -- mountPaths
  pub dr_volume_mount : Chars
  pub is_setup : Bool

-- SetConsistencyPoint
unfoldable pub set_bucket_point : ℕ → Building S3Sync → Building S3Sync
set_bucket_point point b = record b { held = record b.held { consistency_point = point } }

-- The source and the destination of Execute.
unfoldable pub sync_sides : Direction → Chars → Chars → Chars × Chars
sync_sides direction_download s3_path backup_path = (s3_path, backup_path)
sync_sides direction_upload s3_path backup_path = (backup_path, s3_path)

-- The instant that Execute reads a bucket as of.
unfoldable pub as_of : Direction → ℕ → ℕ
as_of direction_download point = point
as_of direction_upload point = 0

module _ (E : Errors) (k : S3SyncClients E.Error) where
  abbrev Method : Type 0 → Type 0
  Method = Exec E.Error (Building S3Sync)

  -- Configure
  unfoldable pub configure_bucket :
      Chars → Chars → Chars → Chars → Credentials → Direction → Method (Unit {0})
  configure_bucket namespace dr_vol_name backup_dir_rel_path s3_path credentials direction = do
    s ← fields
    require E (not s.is_configured) "attempted to configure multiple times"
    uid ← gets (λ b. k.naming.new_uid b.history)
    hold (λ s. record s {
      uid = uid;
      namespace = namespace;
      dr_vol_name = dr_vol_name;
      backup_dir_rel_path = backup_dir_rel_path;
      s3_path = s3_path;
      credentials = credentials;
      direction = direction;
      is_configured = true;
    })

  -- Validate
  unfoldable pub validate_bucket : Method (Unit {0})
  validate_bucket = do
    s ← fields
    require E s.is_configured "attempted to validate without configuring"
    wrapping E "failed to get DR PVC"
        (calling (asking pvc s.dr_vol_name (k.get_pvc s.namespace s.dr_vol_name)))
    hold (λ s. record s { is_validated = true })

  -- Setup
  unfoldable pub setup_bucket : InstanceOptions → Method InstanceOptions
  setup_bucket bti_opts = do
    s ← fields
    require E s.is_validated "attempted to setup without validating"
    require E (not s.is_setup) "attempted to setup multiple times"
    let base = k.naming.join (codes "/mnt" ∷ codes "s3sync" ∷ s.uid ∷ [])
    let dr_volume = k.naming.join (base ∷ codes "dr" ∷ [])
    hold (λ s. record s { dr_volume_mount = dr_volume; is_setup = true })
    pure (mounting (pvc_volume s.dr_vol_name dr_volume ∷ []) bti_opts)

  -- Execute
  unfoldable pub execute_bucket : Method (Unit {0})
  unfolding sync_sides as_of
  execute_bucket = do
    s ← fields
    require E s.is_setup "attempted to execute without setting up"
    let backup_path = k.naming.join (s.dr_volume_mount ∷ s.backup_dir_rel_path ∷ [])
    let (source, destination) = sync_sides s.direction s.s3_path backup_path
    wrapping E "failed to sync files" (
        calling (
          asking pod destination
            (k.s3_sync s.credentials source destination (as_of s.direction s.consistency_point))))
