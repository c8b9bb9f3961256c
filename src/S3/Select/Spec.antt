-- ===== src/S3/Select/Spec.antt =====
-- The point-in-time selection against what it promises (selectObjectsAsOf of pkg/s3/transfer.go).
use backup_tool.Base.{
  ℕ, ◌≤◌, ◌≡◌, ◌≢◌, refl, ◌∙◌, false, ◌||◌, Option, none, some, List, [], ◌∷◌, ◌⊎◌, inl, inr, All,
  In, if◌then◌else◌, arith, ◌==◌, list_eq, map, ap, subst, sym, list_beq_iff, is_empty,
}
use backup_tool.Base.Dict.{Dict, lookup, insert, NodupKeys, insert-NodupKeys}
use backup_tool.Base.Text.{Chars}
use backup_tool.S3.Objects.{
  RemoteObject, ObjectVersion, DeleteMarkerEntry, relative_key, to_string, to_number,
}
use backup_tool.S3.Select.{
  Candidate, Entry, consider, consider_all, selected, entries, version_entry, marker_entry,
  select_objects_as_of,
}
use backup_tool.S3.Select.Newest.{IsNewest, lookup-IsNewest, lookup-first}

-- The object of a key in a listing.
abbrev pub object_at : Chars → List RemoteObject → Option RemoteObject
object_at k [] = none
object_at k (o ∷ os) = let rest = object_at k os in if k == o.key then some o else rest

abbrev pub object_of : Chars → Chars → Candidate → RemoteObject
object_of prefix k c = record {
  key = k;
  rel_path = relative_key prefix k;
  version_id = c.version_id;
  size = c.size;
  last_modified = c.last_modified;
}

-- What a candidate of a key comes to.
abbrev pub as_object : Chars → Chars → Option Candidate → Option RemoteObject
as_object prefix k none = none
as_object prefix k (some c) =
    if c.deleted || is_empty (relative_key prefix k) then none else some (object_of prefix k c)

as_object-inversion :
    (prefix k : Chars) (c : Candidate) (o : RemoteObject)
    → as_object prefix k (some c) ≡ some o
    → (c.deleted ≡ false) × (relative_key prefix k ≢ []) × (o ≡ object_of prefix k c)
as_object-inversion prefix k c o h = ground arith

-- `consider` leaves the candidates alone or sets one.
consider-cases :
    (as_of : ℕ) (k : Chars) (c : Candidate) (current : Dict Chars Candidate)
    → (consider as_of current (k, c) ≡ current)
      ⊎ (consider as_of current (k, c) ≡ insert k c current)
unfolding consider
consider-cases as_of k c current = ground arith

consider-NodupKeys :
    (as_of : ℕ) (e : Entry) (current : Dict Chars Candidate)
    → NodupKeys current
    → NodupKeys (consider as_of current e)
consider-NodupKeys as_of (k, c) current h = elim (consider-cases as_of k c current) [
  | inl same ↦ subst NodupKeys (sym same) h
  | inr put ↦ subst NodupKeys (sym put) (insert-NodupKeys k c current h)
]

consider_all-NodupKeys :
    (as_of : ℕ) (es : List Entry) (current : Dict Chars Candidate)
    → NodupKeys current
    → NodupKeys (consider_all as_of es current)
unfolding consider_all
consider_all-NodupKeys as_of [] current h = h
consider_all-NodupKeys as_of (e ∷ es) current h =
    consider_all-NodupKeys as_of es (consider as_of current e)
      (consider-NodupKeys as_of e current h)

object_at-selected :
    (prefix k : Chars) (current : Dict Chars Candidate)
    → NodupKeys current
    → object_at k (selected prefix current) ≡ as_object prefix k (lookup k current)
unfolding selected lookup
object_at-selected prefix k [] h = refl
object_at-selected prefix k ((j, c) ∷ current) h =
    ground (arith, list_beq_iff k j, object_at-selected prefix k current h.1, h.0)

object_at-select :
    (versions : List ObjectVersion) (markers : List DeleteMarkerEntry) (prefix : Chars) (as_of : ℕ)
    (k : Chars)
    → object_at k (select_objects_as_of versions markers prefix as_of)
      ≡ as_object prefix k (lookup k (consider_all as_of (entries versions markers) []))
unfolding select_objects_as_of
object_at-select versions markers prefix as_of k =
    object_at-selected prefix k _ (consider_all-NodupKeys as_of (entries versions markers) [] tt)

-- The entry is among the versions or the delete markers; it was written at or before the instant;
-- no other entry of its key in that time is newer.
abbrev pub IsCurrent : List Entry → ℕ → Chars → Candidate → Type 0
IsCurrent es as_of k c =
    In (k, c) es
    × (c.last_modified ≤ as_of)
    × All (λ e. k ≡ e.0 → e.1.last_modified ≤ as_of → e.1.last_modified ≤ c.last_modified) es

as_object-present :
    (prefix k : Chars) (c : Candidate)
    → c.deleted ≡ false
    → relative_key prefix k ≢ []
    → as_object prefix k (some c) ≡ some (object_of prefix k c)
as_object-present prefix k c h named = ground arith

module _ (versions : List ObjectVersion) (markers : List DeleteMarkerEntry) (prefix : Chars)
    (as_of : ℕ) (k : Chars) where
  abbrev pub IsSelected : RemoteObject → Type 0
  IsSelected o =
      (c : Candidate) × IsCurrent (entries versions markers) as_of k c
      × (c.deleted ≡ false)
      × (relative_key prefix k ≢ [])
      × (o ≡ object_of prefix k c)

  entered :
      {c : Candidate}
      → (none ≡ some c) ⊎ (In (k, c) (entries versions markers) × (c.last_modified ≤ as_of))
      → In (k, c) (entries versions markers) × (c.last_modified ≤ as_of)
  entered (inl e) = absurd (ground (arith, e))
  entered (inr i) = i

  sound :
      (o : RemoteObject) (r : Option Candidate)
      → IsNewest as_of k (entries versions markers) none r
      → as_object prefix k r ≡ some o
      → IsSelected o
  sound o none n e = absurd (ground (arith, e))
  sound o (some c) n e =
      let found = entered n.0 in
      let (kept, named, same) = as_object-inversion prefix k c o e in
      (c, (found.0, found.1, n.1), kept, named, same)

  -- An object is selected for a key only if it is the newest entry of the key at or before the
  -- instant, that entry is a version and no delete marker, and the key has a relative path; it
  -- carries that version's size, time and identifier.
  pub select_sound :
      (o : RemoteObject)
      → object_at k (select_objects_as_of versions markers prefix as_of) ≡ some o
      → IsSelected o
  select_sound o h =
      sound o (lookup k (consider_all as_of (entries versions markers) []))
        (lookup-IsNewest as_of k (entries versions markers))
        (sym (object_at-select versions markers prefix as_of k) ∙ h)

  versions_kept :
      (vs : List ObjectVersion) (b : Candidate)
      → In (k, b) (map version_entry vs)
      → b.deleted ≡ false
  versions_kept [] b i = elim i [ ]
  versions_kept (v ∷ vs) b (inl e) = ground (arith, ap (λ (x : Entry). x.1.deleted) e)
  versions_kept (v ∷ vs) b (inr i) = versions_kept vs b i

  version_member :
      (vs : List ObjectVersion) (v : ObjectVersion)
      → In v vs
      → In (version_entry v) (map version_entry vs)
  version_member [] v i = elim i [ ]
  version_member (u ∷ vs) v (inl e) = inl (ap version_entry e)
  version_member (u ∷ vs) v (inr i) = inr (version_member vs v i)

  markers_below :
      (ms : List DeleteMarkerEntry) (t : ℕ)
      → All
          (λ m.
            k ≡ to_string m.key → to_number m.last_modified ≤ as_of → to_number m.last_modified ≤ t)
          ms
      → All (λ e. k ≡ e.0 → e.1.last_modified ≤ as_of → e.1.last_modified ≤ t) (map marker_entry ms)
  markers_below [] t h = tt
  markers_below (m ∷ ms) t h = (h.0, markers_below ms t h.1)

  -- A key with a relative path has a selected object, if it has a version at or before the instant
  -- such that no delete marker of the key in that time is newer than the version. On a tie the
  -- version wins.
  pub select_complete :
      (v : ObjectVersion)
      → In v versions
      → k ≡ to_string v.key
      → to_number v.last_modified ≤ as_of
      → All
          (λ m.
            k ≡ to_string m.key
            → to_number m.last_modified ≤ as_of
            → to_number m.last_modified ≤ to_number v.last_modified)
          markers
      → relative_key prefix k ≢ []
      → (o : RemoteObject) × (object_at k (select_objects_as_of versions markers prefix as_of)
          ≡ some o)
        × (to_number v.last_modified ≤ o.last_modified)
  select_complete v i q fits below named =
      let c : Candidate = (version_entry v).1 in
      let here : In (k, c) (map version_entry versions) =
        subst (λ j. In (j, c) (map version_entry versions)) (sym q) (version_member versions v i) in
      let (b, found, member, newer) =
        lookup-first as_of k (map version_entry versions) (map marker_entry markers) c here fits
          (markers_below markers c.last_modified below) in
      (
        object_of prefix k b,
        object_at-select versions markers prefix as_of k
            ∙ rw found (as_object-present prefix k b (versions_kept versions b member) named),
        newer,
      )
