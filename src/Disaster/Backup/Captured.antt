-- ===== src/Disaster/Backup/Captured.antt =====
-- What a backup that succeeds did (GenericApp.Backup in generic.go, with the stage of
-- pkg/disasterrecovery/actions/remote/remotestage.go).
use backup_tool.Base.{◌≡◌, refl, inl, inr, Option, List, [], ◌∷◌, ◌++◌, arith, Option-cases}
use backup_tool.Errors.{Errors, Result, ok}
use backup_tool.Exec.{pure, ◌>>=◌}
use backup_tool.Exec.Inversion.{bind-ok}
use backup_tool.Stage.Model.{Actions, Event, NamedRemoteAction}
use backup_tool.Stage.Trace.{in_order}
use backup_tool.Disaster.Config.{GenericBackupConfig}
use backup_tool.Disaster.Apps.{GenericApp}
use backup_tool.Disaster.Backup.{
  postgres_backups, files_backups, file_group_backups, s3_backups, backup_actions,
}

-- Two lists of actions, one after the other.
pub in_order-append :
    {E : Errors} {W Opts : Type 0} (f : NamedRemoteAction E W Opts → Option (Event Opts))
    (as_ bs : Actions E W Opts) (calls : List (Event Opts))
    → in_order f (as_ ++ bs) calls ≡ in_order f bs (in_order f as_ calls)
in_order-append f [] bs calls = refl
in_order-append f (a ∷ as_) bs calls = elim (Option-cases (f a)) [
  | inl absent ↦ ground (arith, in_order-append f as_ bs calls)
  | inr (e, has) ↦ ground (arith, in_order-append f as_ bs (e ∷ calls))
]

module _ (E : Errors) {W Opts : Type 0} (app : GenericApp E W Opts) (c : GenericBackupConfig) where
  -- The actions of each kind, registered one kind after the other.
  pub record IsRegistered (w : W) (actions : Actions E W Opts) (w' : W) : Type 0 where
    pub postgres : Actions E W Opts
    pub files : Actions E W Opts
    pub file_groups : Actions E W Opts
    pub s3 : Actions E W Opts
    pub w₁ : W
    pub w₂ : W
    pub w₃ : W
    pub of_postgres : postgres_backups E app c w ≡ (ok postgres, w₁)
    pub of_files : files_backups E app c w₁ ≡ (ok files, w₂)
    pub of_file_groups : file_group_backups E app c w₂ ≡ (ok file_groups, w₃)
    pub of_s3 : s3_backups E app c w₃ ≡ (ok s3, w')
    pub in_kinds : actions ≡ postgres ++ (files ++ (file_groups ++ s3))

  module _ {w w₁ w₂ w₃ w' : W} {actions postgres files file_groups : Actions E W Opts} where
    with_s3 :
        postgres_backups E app c w ≡ (ok postgres, w₁)
        → files_backups E app c w₁ ≡ (ok files, w₂)
        → file_group_backups E app c w₂ ≡ (ok file_groups, w₃)
        → (s3 : Actions E W Opts) (w₄ : W) → s3_backups E app c w₃ ≡ (ok s3, w₄)
        → ◌≡◌ {A = Result E.Error (Actions E W Opts) × W}
            (ok (postgres ++ (files ++ (file_groups ++ s3))), w₄)
            (ok actions, w')
        → IsRegistered w actions w'
    with_s3 e₁ e₂ e₃ s3 w₄ e₄ h = record {
      postgres = postgres;
      files = files;
      file_groups = file_groups;
      s3 = s3;
      w₁ = w₁;
      w₂ = w₂;
      w₃ = w₃;
      of_postgres = e₁;
      of_files = e₂;
      of_file_groups = e₃;
      of_s3 = cc (e₄, h);
      in_kinds = cc h;
    }

  module _ {w w₁ w₂ w' : W} {actions postgres files : Actions E W Opts} where
    with_groups :
        postgres_backups E app c w ≡ (ok postgres, w₁)
        → files_backups E app c w₁ ≡ (ok files, w₂)
        → (file_groups : Actions E W Opts) (w₃ : W)
        → file_group_backups E app c w₂ ≡ (ok file_groups, w₃)
        → (s3_backups E app c >>= λ s3. pure (postgres ++ (files ++ (file_groups ++ s3)))) w₃
          ≡ (ok actions, w')
        → IsRegistered w actions w'
    with_groups e₁ e₂ file_groups w₃ e₃ h =
        let (s3, w₄, e₄, r) =
          bind-ok (s3_backups E app c) (λ s3. pure (postgres ++ (files ++ (file_groups ++ s3)))) w₃
            actions w' h in
        with_s3 e₁ e₂ e₃ s3 w₄ e₄ r

  module _ {w w₁ w' : W} {actions postgres : Actions E W Opts} where
    with_files :
        postgres_backups E app c w ≡ (ok postgres, w₁)
        → (files : Actions E W Opts) (w₂ : W) → files_backups E app c w₁ ≡ (ok files, w₂)
        → (file_group_backups E app c >>= λ file_groups.
              s3_backups E app c >>= λ s3. pure (postgres ++ (files ++ (file_groups ++ s3))))
            w₂
          ≡ (ok actions, w')
        → IsRegistered w actions w'
    with_files e₁ files w₂ e₂ h =
        let (file_groups, w₃, e₃, r) =
          bind-ok (file_group_backups E app c)
            (λ file_groups.
              s3_backups E app c >>= λ s3. pure (postgres ++ (files ++ (file_groups ++ s3))))
            w₂ actions w' h in
        with_groups e₁ e₂ file_groups w₃ e₃ r

    with_postgres :
        postgres_backups E app c w ≡ (ok postgres, w₁)
        → (files_backups E app c >>= λ files. file_group_backups E app c >>= λ file_groups.
              s3_backups E app c >>= λ s3. pure (postgres ++ (files ++ (file_groups ++ s3))))
            w₁
          ≡ (ok actions, w')
        → IsRegistered w actions w'
    with_postgres e₁ h =
        let (files, w₂, e₂, r) =
          bind-ok (files_backups E app c)
            (λ files. file_group_backups E app c >>= λ file_groups.
              s3_backups E app c >>= λ s3. pure (postgres ++ (files ++ (file_groups ++ s3))))
            w₁ actions w' h in
        with_files e₁ files w₂ e₂ r

  pub registers :
      (w w' : W) (actions : Actions E W Opts)
      → backup_actions E app c w ≡ (ok actions, w')
      → IsRegistered w actions w'
  unfolding backup_actions
  registers w w' actions h =
      let (postgres, w₁, e₁, r) =
        bind-ok (postgres_backups E app c)
          (λ postgres. files_backups E app c >>= λ files.
            file_group_backups E app c >>= λ file_groups.
            s3_backups E app c >>= λ s3. pure (postgres ++ (files ++ (file_groups ++ s3))))
          w actions w' h in
      with_postgres e₁ r
