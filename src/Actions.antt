-- ===== src/Actions.antt =====
-- pkg/disasterrecovery/actions/remote: the actions of a stage. A method acts on the action's own
-- fields and on the history of calls to the cluster.
pub mod CnpgBackup
pub mod FilesBackup
pub mod Bucket
pub mod GroupBackup
pub mod GroupRestore
pub mod FilesRestore
use backup_tool.Base.{ℕ, String, Bool, true, false, Option, none, some, List, ◌++◌}
use backup_tool.Base.Text.{Chars}
use backup_tool.Errors.{Errors, Result, ok, err}
use backup_tool.Exec.{Exec, pure, raise}
use backup_tool.Cleanup.{
  CleanupContext, to, with_err_message, with_parent_ctx, with_timeout, run_error,
}
use backup_tool.Filters.{FileFilter}
use backup_tool.Kube.Api.{History}
use backup_tool.Kube.Building.{Building}

-- core.SingleContainerVolume: a PVC or a secret, mounted at a path; of a secret, the keys that are
-- mounted, or all.
pub data Volume : Type 0 where
  pvc_volume : Chars → Chars → Volume
  secret_volume : Chars → Chars → List Chars → Volume

-- backuptoolinstance.CreateBackupToolInstanceOptions, as far as the actions change it
pub record InstanceOptions : Type 0 where
  pub volumes : List Volume

-- append(btiOpts.Volumes, ...)
abbrev pub mounting : List Volume → InstanceOptions → InstanceOptions
mounting volumes opts = record { volumes = opts.volumes ++ volumes }

-- What the actions use of the standard library: uuid.NewString, filepath.Join and the formatting of
-- times by RFC 3339.
pub record Naming : Type 0 where
  pub new_uid : History → Chars
  pub join : List Chars → Chars
  pub rfc3339 : ℕ → Chars

-- clients.FilesClient, as far as the actions on groups call it
pub record FilesClient (X W : Type 0) : Type 0 where
  pub list_directory : Chars → Exec X W (List Chars)
  -- source, destination, filter
  pub sync_files : Chars → Chars → FileFilter → Exec X W (Unit {0})

module _ (E : Errors) {S : Type 0} where
  -- A guard at the start of a method.
  abbrev pub require : Bool → String → Exec E.Error S (Unit {0})
  require true m = pure tt
  require false m = raise (E.errorf m)

  -- The value that a pointer refers to. To follow nil panics, which is an error of its own here.
  abbrev pub follow : {A : Type 0} → Option A → Exec E.Error S A
  follow (some a) = pure a
  follow none = raise (E.errorf "nil pointer dereference")

-- The fields of the action.
abbrev pub fields : {X T : Type 0} → Exec X (Building T) T
fields b = (ok b.held, b)

module _ (E : Errors) where
  -- cleanup.To(...).WithErrMessage(...).WithParentCtx(...).WithTimeout(...).RunError()
  abbrev pub release :
      CleanupContext
      → String
      → ℕ
      → (History → Option E.Error × History)
      → History
      → Option E.Error × History
  release ctx m timeout logic h =
      let (e, _, h') =
        run_error
          (with_timeout timeout
            (with_parent_ctx ctx.log_prefix (with_err_message m (to {E = E} (λ _. logic)))))
          h in
      (e, h')

  -- The same for what may be held.
  abbrev pub release_held :
      {A : Type 0}
      → CleanupContext
      → String
      → ℕ
      → (A → History → Option E.Error × History)
      → Option A
      → History
      → Option E.Error × History
  release_held ctx m timeout logic none h = (none, h)
  release_held ctx m timeout logic (some a) h = release ctx m timeout (logic a) h
