-- ===== src/Kube/Building.antt =====
-- A composite resource while it is built: what it holds so far, and the history of calls. An error
-- hands what is held to the composite's Delete, as the closures `errHandler` do.
use backup_tool.Base.{String, Option, none, some, [], ◌∷◌}
use backup_tool.Errors.{Errors, Result, ok, err, wrap, non_nil}
use backup_tool.Exec.{Exec}
use backup_tool.Kube.Api.{Resource, History, deleting}

pub record Building (T : Type 0) : Type 0 where
  pub held : T
  pub history : History

module _ {X T : Type 0} where
  -- A call on the cluster, which leaves what is held alone.
  abbrev pub calling : {A : Type 0} → Exec X History A → Exec X (Building T) A
  calling m b = let (r, h) = m b.history in (r, record b { history = h })

  -- A setter of the composite.
  abbrev pub hold : (T → T) → Exec X (Building T) (Unit {0})
  hold f b = (ok tt, record b { held = f b.held })

module _ (E : Errors) where
  -- The deletion of one part, if it is held.
  abbrev pub delete_held :
      {A : Type 0}
      → Option A
      → (A → Resource)
      → (A → History → Option E.Error)
      → String
      → History
      → Option E.Error × History
  delete_held none id service m h = (none, h)
  delete_held (some a) id service m h =
      let (r, h') = deleting (id a) (service a) h in (wrap E (service a h) m, h')

  module _ {T : Type 0} (delete : T → History → Option E.Error × History) (m : String) where
    abbrev pub handled : {A : Type 0} → Result E.Error A → Building T → Result E.Error T × History
    handled (ok _) b = (ok b.held, b.history)
    handled (err e) b =
        let (e', h) = delete b.held b.history in
        (err (E.aggregate_error e (non_nil E (wrap E e' m ∷ []))), h)

    -- Builds, and deletes what is held if that fails.
    abbrev pub build : {A : Type 0} → T → Exec E.Error (Building T) A → Exec E.Error History T
    build start body h = let (r, b) = body (record { held = start; history = h }) in handled r b
