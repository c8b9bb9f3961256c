-- ===== src/Kube/Api.antt =====
-- The resources that the composite operations create and delete, and the record of the calls made
-- to the cluster. What a call returns may depend on all calls before it: a client is a parameter
-- whose functions take the history, newest call first.
use backup_tool.Base.{Option, List, ◌∷◌}
use backup_tool.Base.Text.{Chars}
use backup_tool.Errors.{Result, ok, err}
use backup_tool.Exec.{Exec, from_error}

pub data Kind : Type 0 where
  issuer certificate policy cluster backup pod pvc snapshot group_snapshot : Kind

pub record Resource : Type 0 where
  pub kind : Kind
  pub namespace : Chars
  pub name : Chars

-- One call: a resource that was created, a deletion that was asked for, or another call, among
-- them a creation that failed.
pub data Event : Type 0 where
  created deleted : Resource → Event
  asked : Kind → Chars → Event

abbrev pub History : Type 0
History = List Event

module _ {X : Type 0} where
  abbrev pub note_created :
      {A : Type 0} → Kind → Chars → (A → Resource) → Result X A → History → History
  note_created kind name id (ok a) h = created (id a) ∷ h
  note_created kind name id (err e) h = asked kind name ∷ h

  -- A call that creates a resource.
  abbrev pub creating :
      {A : Type 0} → Kind → Chars → (A → Resource) → (History → Result X A) → Exec X History A
  creating kind name id service h = let r = service h in (r, note_created kind name id r h)

  -- A call that deletes a resource.
  abbrev pub deleting : Resource → (History → Option X) → Exec X History (Unit {0})
  deleting r service h = (from_error (service h), deleted r ∷ h)

  -- A call that reads, waits or updates.
  abbrev pub asking : {A : Type 0} → Kind → Chars → (History → Result X A) → Exec X History A
  asking kind name service h = (service h, asked kind name ∷ h)
