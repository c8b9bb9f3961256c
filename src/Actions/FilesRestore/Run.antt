-- ===== src/Actions/FilesRestore/Run.antt =====
-- A restore of a directory in the order of the stage (filesrestore.go).
use backup_tool.Base.{◌≡◌, [], ◌∷◌, ◌++◌, arith}
use backup_tool.Base.Text.{Chars, codes}
use backup_tool.Errors.{Errors, ok}
use backup_tool.Exec.{Exec, wrapping, ◌>>◌}
use backup_tool.Filters.{no_filter}
use backup_tool.Kube.Api.{History}
use backup_tool.Kube.Building.{Building}
use backup_tool.Actions.{pvc_volume, InstanceOptions, FilesClient}
use backup_tool.Actions.FilesRestore.{
  FilesRestoreClients, FilesRestore, configure_files_restore, validate_files_restore,
  setup_files_restore, execute_files_restore,
}

module _ (E : Errors) (k : FilesRestoreClients E.Error) {W : Type 0}
    (client : FilesClient E.Error W) where
  -- Where the volumes are mounted.
  abbrev mount : History → Chars → Chars
  mount h part =
      k.naming.join
        (k.naming.join (codes "/mnt" ∷ codes "filesrestore" ∷ k.naming.new_uid h ∷ []) ∷ part ∷ [])

  -- Configure, Validate and Setup
  abbrev prepare :
      Chars
      → Chars
      → Chars
      → Chars
      → InstanceOptions
      → Exec E.Error (Building FilesRestore) InstanceOptions
  prepare namespace target dr_vol path opts =
      configure_files_restore E k namespace target dr_vol path
      >> (validate_files_restore E k >> setup_files_restore E k opts)

  -- If a restore of a directory is configured, validated and set up without an error, then its
  -- execution syncs the directory on the DR volume, where that is mounted, to where the target is
  -- mounted, unfiltered.
  pub prepare-execute :
      (namespace target dr_vol path : Chars) (opts : InstanceOptions) (b : Building FilesRestore)
      (out : InstanceOptions) (c : Building FilesRestore) (w : W)
      → prepare namespace target dr_vol path opts b ≡ (ok out, c)
      → (out.volumes
          ≡ opts.volumes
            ++ pvc_volume dr_vol (mount b.history (codes "dr"))
              ∷ pvc_volume target (mount b.history (codes "data"))
              ∷ [])
        × (execute_files_restore E k.naming client c.held w
            ≡ wrapping E "failed to sync data directory files to the data PVC"
                (client.sync_files
                  (k.naming.join (mount b.history (codes "dr") ∷ path ∷ []))
                  (mount b.history (codes "data"))
                  no_filter)
                w)
  unfolding configure_files_restore validate_files_restore setup_files_restore execute_files_restore
  prepare-execute namespace target dr_vol path opts b out c w h = ground (arith, h)
