-- ===== src/Disaster/Backup/Outcome.antt =====
-- What GenericApp.Backup of generic.go has done when it returns.
use backup_tool.Base.{
  ℕ, ◌*◌, ◌≢◌, ◌⊎◌, Bool-cases, ◌==◌, nat_eq, ◌≡◌, ap, ◌∙◌, inl, inr, Option, none, some, List, [],
  map, arith, Option-cases,
}
use backup_tool.Base.Text.{Chars}
use backup_tool.Errors.{Errors, ok, Result-cases}
use backup_tool.Exec.{wrapping, pure, error_of, ◌>>=◌}
use backup_tool.Exec.Inversion.{bind-ok, wrapping-ok}
use backup_tool.Stage.Model.{Actions, Environment, Event, State, run}
use backup_tool.Helpers.{clean_name}
use backup_tool.DrVolumes.Sizes.{IsMade, new_dr_volume-IsMade}
use backup_tool.DrVolumes.Snapshot.{snapshotted_by}
use backup_tool.DrVolumes.{
  Pvc, DrVolume, DrVolumeCreateOptions, DrVolumeSnapshotAndWaitOptions, new_dr_volume,
  snapshot_and_wait_ready,
}
use backup_tool.Disaster.Config.{GenericBackupConfig}
use backup_tool.Disaster.Validation.{validate_backup_config}
use backup_tool.Disaster.Validation.Accepted.{IsBackupConfig, validate_backup_config_iff}
use backup_tool.Disaster.Events.{new_dr_event_now, get_full_name}
use backup_tool.Disaster.Apps.{GenericApp}
use backup_tool.Disaster.Backup.{
  Finished, sum_pvcs, backup_volume_size, backup_actions, prepare_backup, run_backup, backup_body,
  backup,
}
use backup_tool.Disaster.Backup.Captured.{IsRegistered, registers}

module _ (E : Errors) {W Opts : Type 0} (app : GenericApp E W Opts) (c : GenericBackupConfig)
    (w : W) where
  -- The name of the event that a backup begins in `w`.
  abbrev pub full_name : Chars
  full_name = get_full_name app.rfc3339 (new_dr_event_now c.backup_name (app.now w))

  abbrev pub stage_of : Environment E W Opts
  stage_of = app.new_remote_stage c.namespace full_name c.cleanup_timeout

  abbrev pub volume_options : DrVolumeCreateOptions
  volume_options = record {
    volume_storage_class = c.backup_volume.storage_class;
    cnpg_cluster_names = map (λ src. src.cluster) c.postgres;
  }

  abbrev pub snapshot_options : DrVolumeSnapshotAndWaitOptions
  snapshot_options = record {
    ready_timeout = c.backup_volume.snapshot_ready_timeout;
    snapshot_class = c.backup_volume.snapshot_class;
  }

  abbrev pub fresh : W → State E W Opts
  fresh v = record { world = v; calls = [] }

  -- The steps of a backup that succeeds, each begun where the one before ended.
  pub record IsCaptured (calls : List (Event Opts)) (w' : W) : Type 0 where
    pub size : ℕ
    pub sized : W
    pub drv : DrVolume
    pub made : W
    pub actions : Actions E W Opts
    pub ready : W
    pub ran : State E W Opts
    -- the configured size, or twice the sum of the volumes of the files, if none is configured
    pub of_size :
        ((c.backup_volume.size ≢ 0) × (size ≡ c.backup_volume.size) × (sized ≡ w))
        ⊎ ((c.backup_volume.size ≡ 0)
            × ((total : ℕ) × (sum_pvcs E app c.namespace c.files 0 w ≡ (ok total, sized))
                × (size ≡ total * 2)))
    pub pvc : Pvc
    pub of_pvc : drv.pvc ≡ some pvc
    pub of_drv : IsMade E app.clients c.namespace c.backup_name size volume_options sized pvc made
    pub of_actions : IsRegistered E app c made actions ready
    pub of_run : run E stage_of actions (fresh ready) ≡ (none, ran)
    pub of_calls : calls ≡ ran.calls
    pub snapshot : Chars
    pub snapshotted : W
    pub of_snapshot :
        app.clients.snapshot_volume pvc.namespace pvc.name
          (clean_name full_name)
          c.backup_volume.snapshot_class
          ran.world
        ≡ (ok snapshot, snapshotted)
    pub of_ready :
        app.clients.wait_for_ready_snapshot pvc.namespace snapshot
          c.backup_volume.snapshot_ready_timeout snapshotted
        ≡ (ok tt, w')

  sized_by :
      (size : ℕ) (sized : W)
      → backup_volume_size E app c w ≡ (ok size, sized)
      → ((c.backup_volume.size ≢ 0) × (size ≡ c.backup_volume.size) × (sized ≡ w))
        ⊎ ((c.backup_volume.size ≡ 0)
            × ((total : ℕ) × (sum_pvcs E app c.namespace c.files 0 w ≡ (ok total, sized))
                × (size ≡ total * 2)))
  unfolding backup_volume_size
  sized_by size sized h = elim (Result-cases (sum_pvcs E app c.namespace c.files 0 w).0) [
    | inl (total, e) ↦ elim (Bool-cases (c.backup_volume.size == 0)) [
      | inl none_set ↦ inr (
        ground (arith, none_set),
        (total, ground (arith, none_set, e, h), ground (arith, none_set, e, h)),
      )
      | inr set ↦ inl (ground (arith, set), ground (arith, set, h), ground (arith, set, h))
    ]
    | inr (x, e) ↦ elim (Bool-cases (c.backup_volume.size == 0)) [
      | inl none_set ↦ absurd (ground (arith, none_set, e, h))
      | inr set ↦ inl (ground (arith, set), ground (arith, set, h), ground (arith, set, h))
    ]
  ]

  snapshot_done :
      (drv : DrVolume) (s : State E W Opts) (w' : W) (calls : List (Event Opts))
      → (let (r, v) =
            wrapping E "failed to snapshot the backup volume"
              (snapshot_and_wait_ready E app.clients drv full_name snapshot_options)
              s.world in
          ◌≡◌ {A = Option E.Error × List (Event Opts) × W}
            (error_of r, s.calls, v)
            (none, calls, w'))
      → (calls ≡ s.calls)
        × (snapshot_and_wait_ready E app.clients drv full_name snapshot_options s.world
            ≡ (ok tt, w'))
  snapshot_done drv s w' calls h =
      elim (Result-cases
        (snapshot_and_wait_ready E app.clients drv full_name snapshot_options s.world).0) [
          | inl (u, e) ↦ ground (arith, e, h)
          | inr (x, e) ↦ absurd (ground (arith, e, h))
        ]

  ran_backup :
      (drv : DrVolume) (actions : Actions E W Opts) (ready w' : W) (calls : List (Event Opts))
      → run_backup E app c full_name drv actions ready ≡ (none, calls, w')
      → (ran : State E W Opts) × (run E stage_of actions (fresh ready) ≡ (none, ran))
        × (calls ≡ ran.calls)
        × (snapshot_and_wait_ready E app.clients drv full_name snapshot_options ran.world
            ≡ (ok tt, w'))
  unfolding run_backup
  ran_backup drv actions ready w' calls h =
      elim (Option-cases (run E stage_of actions (fresh ready)).0) [
        | inl e ↦
            let s : State E W Opts = (run E stage_of actions (fresh ready)).1 in
            let ends = snapshot_done drv s w' calls (rw (e, run_backup) at h) in
            (s, ap (λ o. (o, s)) e, ends.0, ends.1)
        | inr (x, e) ↦ absurd (ground (arith, e, h))
      ]

  with_actions :
      (size : ℕ) (sized made w' : W) (drv : DrVolume) (calls : List (Event Opts))
      → backup_volume_size E app c w ≡ (ok size, sized)
      → new_dr_volume E app.clients c.namespace c.backup_name size volume_options sized
        ≡ (ok drv, made)
      → (actions : Actions E W Opts) (ready : W) → backup_actions E app c made ≡ (ok actions, ready)
      → run_backup E app c full_name drv actions ready ≡ (none, calls, w')
      → IsCaptured calls w'
  with_actions size sized made w' drv calls e₁ e₂ actions ready e₃ h =
      let (ran, of_run, of_calls, snapped) = ran_backup drv actions ready w' calls h in
      let (pvc, of_pvc, of_drv) =
        new_dr_volume-IsMade E app.clients c.namespace c.backup_name size volume_options sized made
          drv e₂ in
      let (snapshot, snapshotted, of_snapshot, of_ready) =
        snapshotted_by E app.clients drv pvc full_name snapshot_options ran.world w' of_pvc
          snapped in
      record {
        size = size;
        sized = sized;
        drv = drv;
        made = made;
        actions = actions;
        ready = ready;
        ran = ran;
        of_size = sized_by size sized e₁;
        pvc = pvc;
        of_pvc = of_pvc;
        of_drv = of_drv;
        of_actions = registers E app c made ready actions e₃;
        of_run = of_run;
        of_calls = of_calls;
        snapshot = snapshot;
        snapshotted = snapshotted;
        of_snapshot = of_snapshot;
        of_ready = of_ready;
      }

  prepared :
      (drv : DrVolume) (actions : Actions E W Opts) (ready w' : W) (calls : List (Event Opts))
      → prepare_backup E app c c.backup_name w ≡ (ok (drv, actions), ready)
      → run_backup E app c full_name drv actions ready ≡ (none, calls, w')
      → IsCaptured calls w'
  unfolding prepare_backup
  prepared drv actions ready w' calls h ran =
      let (size, sized, e₁, r₁) =
        bind-ok (wrapping E "failed to determine the DR volume size" (backup_volume_size E app c))
          (λ size.
            wrapping E "failed to create the DR volume"
              (new_dr_volume E app.clients c.namespace c.backup_name size volume_options)
            >>= λ drv. backup_actions E app c >>= λ actions.
                pure {A = DrVolume × Actions E W Opts} (drv, actions))
          w (drv, actions) ready h in
      with_size size sized
        (wrapping-ok E "failed to determine the DR volume size" (backup_volume_size E app c) w size
          sized e₁)
        r₁
    where
      with_drv :
          (size : ℕ) (sized : W)
          → backup_volume_size E app c w ≡ (ok size, sized)
          → (d : DrVolume) (made : W)
          → new_dr_volume E app.clients c.namespace c.backup_name size volume_options sized
            ≡ (ok d, made)
          → (backup_actions E app c >>= λ actions.
                pure {A = DrVolume × Actions E W Opts} (d, actions))
              made
            ≡ (ok (drv, actions), ready)
          → IsCaptured calls w'
      with_drv size sized e₁ d made e₂ r =
          let (as_, v, e₃, last) =
            bind-ok (backup_actions E app c)
              (λ actions. pure {A = DrVolume × Actions E W Opts} (d, actions)) made (drv, actions)
              ready r in
          with_actions size sized made w' drv calls e₁ (cc (e₂, last)) actions ready (cc (e₃, last))
            ran

      with_size :
          (size : ℕ) (sized : W)
          → backup_volume_size E app c w ≡ (ok size, sized)
          → (wrapping E "failed to create the DR volume"
                  (new_dr_volume E app.clients c.namespace c.backup_name size volume_options)
                >>= λ drv. backup_actions E app c >>= λ actions.
                    pure {A = DrVolume × Actions E W Opts} (drv, actions))
              sized
            ≡ (ok (drv, actions), ready)
          → IsCaptured calls w'
      with_size size sized e₁ r =
          let (d, made, e₂, last) =
            bind-ok
              (wrapping E "failed to create the DR volume"
                (new_dr_volume E app.clients c.namespace c.backup_name size volume_options))
              (λ drv. backup_actions E app c >>= λ actions.
                pure {A = DrVolume × Actions E W Opts} (drv, actions))
              sized (drv, actions) ready r in
          with_drv size sized e₁ d made
            (wrapping-ok E "failed to create the DR volume"
              (new_dr_volume E app.clients c.namespace c.backup_name size volume_options) sized d
              made e₂)
            last

  body-IsCaptured :
      (w' : W) (calls : List (Event Opts))
      → backup_body E app c (new_dr_event_now c.backup_name (app.now w)) w ≡ (none, calls, w')
      → IsCaptured calls w'
  unfolding backup_body
  body-IsCaptured w' calls h = elim (Result-cases (prepare_backup E app c c.backup_name w).0) [
    | inl (p, e) ↦
        prepared p.0 p.1 (prepare_backup E app c c.backup_name w).1 w' calls
          (ap (λ r. (r, (prepare_backup E app c c.backup_name w).1)) e) (rw (e, backup_body) at h)
    | inr (x, e) ↦ absurd (ground (arith, e, h))
  ]

  -- A backup that returns no error has an accepted configuration; it sized and made the DR volume,
  -- registered the actions of the four kinds in their fixed order, ran the stage on them without an
  -- error, and after that snapshotted the PVC of the DR volume under the event's cleaned name and waited
  -- for that snapshot, which became ready.
  pub backup-IsCaptured :
      (w' : W) (result : Finished E.Error Opts)
      → backup E app c w ≡ (result, w')
      → result.error ≡ none
      → IsBackupConfig app.globs c × IsCaptured result.calls w'
  unfolding backup
  backup-IsCaptured w' result h succeeded =
      elim (Option-cases (validate_backup_config E app.globs c)) [
        | inl accepted ↦ (
          (validate_backup_config_iff E app.globs c).0 accepted,
          body-IsCaptured w' result.calls (finished accepted),
        )
        | inr (x, refused) ↦ absurd (ground (arith, refused, h, succeeded))
      ]
    where
      finished :
          validate_backup_config E app.globs c ≡ none
          → backup_body E app c (new_dr_event_now c.backup_name (app.now w)) w
            ≡ (none, result.calls, w')
      finished accepted =
          let h' = rw (accepted, backup) at h in
          let e : (backup_body E app c (new_dr_event_now c.backup_name (app.now w)) w).0 ≡ none =
            ap (λ p. p.0.error) h' ∙ succeeded in
          λ i. (e i, (h' i).0.calls, (h' i).1)
