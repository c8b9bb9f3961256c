-- ===== src/Actions/GroupRestore/Ending.antt =====
-- How the restore of a group ends (filesgrouprestore.go).
use backup_tool.Base.{
  ◌≡◌, refl, ap, String, Bool, true, false, Option-cases, List, [], ◌∷◌, ◌++◌, inl, inr, arith,
}
use backup_tool.Base.Dict.{Dict}
use backup_tool.Base.Text.{Chars}
use backup_tool.Errors.{Errors, Result, ok, err}
use backup_tool.Exec.{Exec, and_then, wrap_result, wrapping, lift, from_error, ◌>>=◌, ◌>>◌}
use backup_tool.Actions.{Naming, FilesClient, require}
use backup_tool.Filters.{no_filter}
use backup_tool.Actions.GroupRestore.{
  FilesGroupRestore, target_names, verify_one_to_one_mapping, sync_targets, captured_dir,
  execute_group_restore,
}
use backup_tool.Actions.GroupRestore.Members.{SameNames, verify_one_to_one_mapping_iff}

module _ (E : Errors) {W : Type 0} (naming : Naming) (client : FilesClient E.Error W) where
  -- The captures below a directory are synced to the targets' paths, in order.
  pub data Synced (dir : Chars) : Dict Chars Chars → W → W → Type 0 where
    none_left : (w : W) → Synced dir [] w w
    synced :
        (target path : Chars) (paths : Dict Chars Chars) (w w' w'' : W)
        → client.sync_files (naming.join (dir ∷ target ∷ [])) path no_filter w ≡ (ok tt, w')
        → Synced dir paths w' w''
        → Synced dir ((target, path) ∷ paths) w w''

  -- The loop over the targets ends with all of them synced, or at the first that fails.
  pub data LoopEnding (dir : Chars) (paths : Dict Chars Chars) (w : W)
      : Result E.Error (Unit {0}) × W → Type 0 where
    finished : (w' : W) → Synced dir paths w w' → LoopEnding dir paths w (ok tt, w')
    stopped :
        (before after : Dict Chars Chars) (target path : Chars) (e x : E.Error) (w' w'' : W)
        → paths ≡ before ++ (target, path) ∷ after
        → Synced dir before w w'
        → client.sync_files (naming.join (dir ∷ target ∷ [])) path no_filter w' ≡ (err x, w'')
        → LoopEnding dir paths w (err e, w'')

  LoopEnding-next :
      (dir target path : Chars) (paths : Dict Chars Chars) (w w' : W)
      (out : Result E.Error (Unit {0}) × W)
      → client.sync_files (naming.join (dir ∷ target ∷ [])) path no_filter w ≡ (ok tt, w')
      → LoopEnding dir paths w' out
      → LoopEnding dir ((target, path) ∷ paths) w out
  LoopEnding-next dir target path paths w w' _ q (finished w'' s) =
      finished w'' (synced target path paths w w' w'' q s)
  LoopEnding-next dir target path paths w w' _ q (stopped before after t p e x w₁ w₂ same s f) =
      stopped ((target, path) ∷ before) after t p e x w₁ w₂ (ap (λ ps. (target, path) ∷ ps) same)
        (synced target path before w w' w₁ q s) f

  LoopEnding-step :
      (dir target path : Chars) (paths : Dict Chars Chars) (w : W) (m : String)
      (first : Result E.Error (Unit {0}) × W) (rest : Exec E.Error W (Unit {0}))
      → client.sync_files (naming.join (dir ∷ target ∷ [])) path no_filter w ≡ first
      → LoopEnding dir paths first.1 (rest first.1)
      → LoopEnding dir
          ((target, path) ∷ paths)
          w
          (and_then (wrap_result E m first.0) (λ _. rest) first.1)
  LoopEnding-step dir target path paths w m (ok u, w') rest q h =
      LoopEnding-next dir target path paths w w' (rest w') q h
  LoopEnding-step dir target path paths w m (err x, w') rest q h =
      stopped [] paths target path _ x w w' refl (none_left w) q

  sync_targets-LoopEnding :
      (dir : Chars) (paths : Dict Chars Chars) (w : W)
      → LoopEnding dir paths w (sync_targets E naming client dir paths w)
  unfolding sync_targets
  sync_targets-LoopEnding dir [] w = finished w (none_left w)
  sync_targets-LoopEnding dir ((target, path) ∷ paths) w =
      LoopEnding-step dir target path paths w _
        (client.sync_files (naming.join (dir ∷ target ∷ [])) path no_filter w) _ refl
        (sync_targets-LoopEnding dir paths
          (client.sync_files (naming.join (dir ∷ target ∷ [])) path no_filter w).1)

  -- How a restore of a group may end, from the world `w`.
  pub data RestoreEnding (s : FilesGroupRestore) (w : W)
      : Result E.Error (Unit {0}) × W → Type 0 where
    not_set_up : (e : E.Error) → s.is_setup ≡ false → RestoreEnding s w (err e, w)
    unlisted :
        (e x : E.Error) (w' : W)
        → client.list_directory (captured_dir E naming client s) w ≡ (err x, w')
        → RestoreEnding s w (err e, w')
    refused :
        (e : E.Error) (captured : List Chars) (w' : W)
        → client.list_directory (captured_dir E naming client s) w ≡ (ok captured, w')
        → ¬ SameNames captured (target_names s)
        → RestoreEnding s w (err e, w')
    begun :
        (captured : List Chars) (w' : W) (out : Result E.Error (Unit {0}) × W)
        → client.list_directory (captured_dir E naming client s) w ≡ (ok captured, w')
        → SameNames captured (target_names s)
        → LoopEnding (captured_dir E naming client s) s.target_mount_paths w' out
        → RestoreEnding s w out

  -- Execute, once the guard has passed and the listing has answered.
  abbrev after_listing :
      FilesGroupRestore → Result E.Error (List Chars) × W → Result E.Error (Unit {0}) × W
  after_listing s listed =
      (wrapping E "failed to list captured members for group" (λ _. listed) >>= λ captured.
      wrapping E "failed to verify one to one mapping of backup directories"
        (lift (from_error (verify_one_to_one_mapping E s captured)))
      >> sync_targets E naming client (captured_dir E naming client s) s.target_mount_paths)
        listed.1

  after_listing-RestoreEnding :
      (s : FilesGroupRestore) (w : W) (listed : Result E.Error (List Chars) × W)
      → client.list_directory (captured_dir E naming client s) w ≡ listed
      → RestoreEnding s w (after_listing s listed)
  after_listing-RestoreEnding s w (err x, w') q = unlisted _ x w' q
  after_listing-RestoreEnding s w (ok captured, w') q =
      let checked = verify_one_to_one_mapping_iff E s captured in
      elim (Option-cases (verify_one_to_one_mapping E s captured)) [
        | inl passed ↦ rw passed (
            begun captured w' _ q (checked.0 passed)
              (sync_targets-LoopEnding (captured_dir E naming client s) s.target_mount_paths w'))
        | inr (e, failed) ↦
            rw failed
              (refused _ captured w' q (λ same. absurd (ground (arith, failed, checked.1 same))))
      ]

  guarded :
      (s : FilesGroupRestore) (w : W) (set_up : Bool) (m : String)
      (rest : Exec E.Error W (Unit {0}))
      → s.is_setup ≡ set_up
      → RestoreEnding s w (rest w)
      → RestoreEnding s w ((require E set_up m >> rest) w)
  guarded s w true m rest e h = h
  guarded s w false m rest e h = not_set_up _ e

  -- A restore of a group syncs nothing unless its captured members and its targets have the same
  -- names; then it syncs each target from the capture of its own name, in order, until one fails, and
  -- succeeds if none does. In each other case it returns an error.
  pub execute_group_restore-RestoreEnding :
      (s : FilesGroupRestore) (w : W)
      → RestoreEnding s w (execute_group_restore E naming client s w)
  unfolding execute_group_restore
  execute_group_restore-RestoreEnding s w = guarded s w s.is_setup _ _ refl (
      after_listing-RestoreEnding s w (client.list_directory (captured_dir E naming client s) w)
        refl)
