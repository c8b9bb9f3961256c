-- ===== src/S3/Upload/Mirror.antt =====
-- An upload makes the bucket hold the directory's files (upload of pkg/s3/transfer.go).
use backup_tool.Base.{
  ℕ, ◌≡◌, ◌≢◌, ◌↔◌, ◌≤◌, refl, sym, ◌⊎◌, inl, inr, true, false, not, Bool-cases, Option, none, some,
  Option-cases, List, [], ◌∷◌, All, All-zip, contains, if◌then◌else◌, ◌==◌, list_eq, list_beq_iff,
  nat_eq, take, arith,
}
use backup_tool.Base.Dict.{Dict, lookup, insert, lookup-insert}
use backup_tool.Base.Text.{Chars}
use backup_tool.Errors.{Errors, ok}
use backup_tool.S3.Objects.{RemoteObject}
use backup_tool.S3.Disk.{regular, Disk}
use backup_tool.S3.Upload.{
  LocalFile, Source, Store, detect_content_type, open_file, upload_object, upload_each, delete_each,
  by_rel, is_current, local_rel, push,
}

-- No call on a file fails.
pub record IsFaultlessSource {E : Errors} (src : Source E) : Type 0 where
  pub opens : (p : Chars) → src.open_fault p ≡ none
  pub reads : (p : Chars) → src.read_fault p ≡ none
  pub seeks : (p : Chars) → src.seek_fault p ≡ none
  pub closes : (p : Chars) → src.close_fault p ≡ none

-- The bucket keeps what is put and loses what is deleted, as `read` shows; no call fails.
pub record Keeps {E : Errors} {B : Type 0} (store : Store E B) (read : Chars → B → Option (List ℕ))
    : Type 0 where
  pub puts :
      (k : Chars) (bytes : List ℕ) (t : Chars) (b : B) → (store.put_object k bytes t b).0 ≡ none
  pub reads_put :
      (j k : Chars) (bytes : List ℕ) (t : Chars) (b : B)
      → read j (store.put_object k bytes t b).1 ≡ (if j == k then some bytes else read j b)
  pub deletes : (k : Chars) (b : B) → (store.delete_object k b).0 ≡ none
  pub reads_deleted :
      (j k : Chars) (b : B)
      → read j (store.delete_object k b).1 ≡ (if j == k then none else read j b)

module _ {E : Errors} (src : Source E) (f : IsFaultlessSource src) {B : Type 0} (store : Store E B)
    (read : Chars → B → Option (List ℕ)) (keeps : Keeps store read) (prefix : Chars) (disk : Disk)
    (content : LocalFile → List ℕ) where
  abbrev pub key : LocalFile → Chars
  key lf = src.join prefix lf.rel_path

  -- The file is on the disk with its content.
  abbrev pub IsOnDisk : LocalFile → Type 0
  IsOnDisk lf = (t : ℕ) × (lookup lf.rel_path disk.nodes ≡ some (regular (content lf) t))

  detects : (p : Chars) (bytes : List ℕ) → (t : Chars) × (detect_content_type src p bytes ≡ ok t)
  unfolding detect_content_type
  detects p bytes = elim (Bool-cases (not (src.type_by_extension p == []))) [
    | inl e ↦ (src.type_by_extension p, rw e refl)
    | inr e ↦ (src.detect_type (take 512 bytes), ground (arith, e, f.reads p, f.seeks p))
  ]

  upload_object-stores :
      (lf : LocalFile) (b : B) (j : Chars)
      → IsOnDisk lf
      → ((upload_object src store prefix disk lf b).0 ≡ none)
        × (read j (upload_object src store prefix disk lf b).1
            ≡ (if j == key lf then some (content lf) else read j b))
  unfolding upload_object open_file
  upload_object-stores lf b j (t, on_disk) =
      let (ty, detected) = detects lf.rel_path (content lf) in
      ground (
        arith,
        f.opens lf.rel_path,
        on_disk,
        detected,
        keeps.puts (key lf) (content lf) ty b,
        keeps.reads_put j (key lf) (content lf) ty b,
        f.closes lf.rel_path,
      )

  -- What a key reads after the first loop, if it read `x` before.
  abbrev after_uploads :
      Dict Chars RemoteObject → List LocalFile → Chars → Option (List ℕ) → Option (List ℕ)
  after_uploads remote [] j x = x
  after_uploads remote (lf ∷ files) j x = after_uploads remote files j (
      if is_current src store prefix disk remote lf
      then x
      else (if j == key lf then some (content lf) else x))

  upload_each-reads :
      (remote : Dict Chars RemoteObject) (files : List LocalFile) (b : B) (j : Chars)
      → All IsOnDisk files
      → ((upload_each src store prefix disk remote files b).0 ≡ none)
        × (read j (upload_each src store prefix disk remote files b).1
            ≡ after_uploads remote files j (read j b))
  unfolding upload_each
  upload_each-reads remote [] b j h = (refl, refl)
  upload_each-reads remote (lf ∷ files) b j h =
      elim (Bool-cases (is_current src store prefix disk remote lf)) [
        | inl e ↦ rw e (upload_each-reads remote files b j h.1)
        | inr e ↦
            let one = upload_object-stores lf b j h.0 in
            let rest =
              upload_each-reads remote files (upload_object src store prefix disk lf b).1 j h.1 in
            rw (e, one.0, ← one.1) rest
      ]

  -- The keys that the second loop deletes.
  abbrev pub stale : List Chars → List RemoteObject → List Chars
  stale local [] = []
  stale local (o ∷ os) =
      if contains local o.rel_path then stale local os else o.key ∷ stale local os

  delete_each-reads :
      (local : List Chars) (objects : List RemoteObject) (b : B) (j : Chars)
      → ((delete_each src store prefix disk local objects b).0 ≡ none)
        × (read j (delete_each src store prefix disk local objects b).1
            ≡ (if contains (stale local objects) j then none else read j b))
  unfolding delete_each
  delete_each-reads local [] b j = (refl, refl)
  delete_each-reads local (o ∷ os) b j = ground (
    arith,
    keeps.deletes o.key b,
    keeps.reads_deleted j o.key b,
    delete_each-reads local os b j,
    delete_each-reads local os (store.delete_object o.key b).1 j,
  )

  -- No two files go to the same key.
  abbrev pub DistinctKeys : List LocalFile → Type 0
  DistinctKeys [] = Unit
  DistinctKeys (lf ∷ files) = All (λ o. key o ≢ key lf) files × DistinctKeys files

  after_uploads-other :
      (remote : Dict Chars RemoteObject) (files : List LocalFile) (j : Chars) (x : Option (List ℕ))
      → All (λ lf. j ≢ key lf) files
      → after_uploads remote files j x ≡ x
  after_uploads-other remote [] j x h = refl
  after_uploads-other remote (lf ∷ files) j x h =
      ground (arith, h.0, list_beq_iff j (key lf), after_uploads-other remote files j x h.1)

  -- The last object of a listing that has the path.
  abbrev pub last_at : List RemoteObject → Chars → Option RemoteObject
  last_at [] p = none
  last_at (o ∷ os) p = elim (last_at os p) [
    | some q ↦ some q
    | none ↦ if p == o.rel_path then some o else none
  ]

  lookup-by_rel :
      (objects : List RemoteObject) (d : Dict Chars RemoteObject) (p : Chars)
      → lookup p (by_rel src store prefix disk objects d)
        ≡ (elim (last_at objects p) as (λ _. Option RemoteObject) [
          | some q ↦ some q
          | none ↦ lookup p d
        ])
  lookup-by_rel [] d p = refl
  lookup-by_rel (o ∷ os) d p =
      ground (arith, lookup-by_rel os (insert o.rel_path o d) p, lookup-insert p o.rel_path o d)

  by_rel-last :
      (objects : List RemoteObject) (p : Chars)
      → lookup p (by_rel src store prefix disk objects []) ≡ last_at objects p
  unfolding lookup
  by_rel-last objects p = ground (arith, lookup-by_rel objects [] p)

  -- The listing has an object of the file's path and size that is not older than the file.
  abbrev pub IsCurrent : List RemoteObject → LocalFile → Type 0
  IsCurrent objects lf =
      (o : RemoteObject) × (last_at objects lf.rel_path ≡ some o)
      × (o.size ≡ lf.size)
      × (lf.mod_time ≤ o.last_modified)

  is_current_iff :
      (objects : List RemoteObject) (lf : LocalFile)
      → (is_current src store prefix disk (by_rel src store prefix disk objects []) lf ≡ true)
        ↔ IsCurrent objects lf
  is_current_iff objects lf =
      let same = by_rel-last objects lf.rel_path in
      elim (Option-cases (last_at objects lf.rel_path)) [
        | inl absent ↦ (
          (λ h. absurd (ground (arith, h, same, absent))),
          (λ (o, found, _, _). absurd (ground (arith, found, absent))),
        )
        | inr (o, found) ↦ (
          (λ h. (o, found, ground (arith, h, same, found), ground (arith, h, same, found))),
          (λ (o', found', size, newer). ground (arith, same, found, found', size, newer)),
        )
      ]

  -- What the key of a file holds in the end, if it read `x` before.
  abbrev pub in_the_end : Dict Chars RemoteObject → LocalFile → Option (List ℕ) → Option (List ℕ)
  in_the_end remote lf x =
      if is_current src store prefix disk remote lf then x else some (content lf)

  after_uploads_self :
      (remote : Dict Chars RemoteObject) (before : Chars → Option (List ℕ)) (files : List LocalFile)
      → DistinctKeys files
      → All
          (λ lf.
            after_uploads remote files (key lf) (before (key lf))
            ≡ in_the_end remote lf (before (key lf)))
          files
  after_uploads_self remote before [] d = tt
  after_uploads_self remote before (lf ∷ files) d = (
    ground (
      arith,
      list_beq_iff (key lf) (key lf),
      after_uploads-other remote files (key lf) (in_the_end remote lf (before (key lf)))
          (apart files d.0),
    ),
    All-zip _ _ _ files (λ o ne same. ground (arith, ne, same, list_beq_iff (key o) (key lf))) d.0
        (after_uploads_self remote before files d.1),
  )
    where
      apart : (fs : List LocalFile) → All (λ o. key o ≢ key lf) fs → All (λ o. key lf ≢ key o) fs
      apart [] h = tt
      apart (o ∷ fs) h = (λ e. h.0 (sym e), apart fs h.1)

  stale-all :
      (local : List Chars) (objects : List RemoteObject)
      → All
          (λ o. (contains local o.rel_path ≡ true) ⊎ (contains (stale local objects) o.key ≡ true))
          objects
  stale-all local [] = tt
  stale-all local (o ∷ os) = (
    ground (arith, list_beq_iff o.key o.key),
    All-zip _ _ _ os (λ a p q. ground (arith, q)) (stale-all local os) (stale-all local os),
  )

  stale-other :
      (local : List Chars) (objects : List RemoteObject) (j : Chars)
      → All (λ o. j ≢ o.key) objects
      → contains (stale local objects) j ≡ false
  stale-other local [] j h = refl
  stale-other local (o ∷ os) j h =
      ground (arith, h.0, list_beq_iff j o.key, stale-other local os j h.1)

  settled :
      (objects : List RemoteObject) (lf : LocalFile) (x y : Option (List ℕ))
      → y ≡ in_the_end (by_rel src store prefix disk objects []) lf x
      → (IsCurrent objects lf → y ≡ x) × ((¬ IsCurrent objects lf) → y ≡ some (content lf))
  settled objects lf x y e =
      let remote = by_rel src store prefix disk objects [] in
      elim (Bool-cases (is_current src store prefix disk remote lf)) [
        | inl skipped ↦ (
          (λ _. ground (arith, e, skipped)),
          (λ stale_file. absurd (stale_file ((is_current_iff objects lf).0 skipped))),
        )
        | inr stale_file ↦ (
          (λ current. absurd (ground (arith, (is_current_iff objects lf).1 current, stale_file))),
          (λ _. ground (arith, e, stale_file)),
        )
      ]

  -- The bucket after an upload: the key of a file is as it was, if the listing has an object of
  -- its path and size that is not older, and holds its bytes otherwise; an object of the listing whose path is no file's is
  -- gone, and no other key has changed.
  pub record IsUploaded (files : List LocalFile) (objects : List RemoteObject) (b : B)
      (r : Option E.Error × B) : Type 0 where
    pub succeeds : r.0 ≡ none
    pub holds :
        All
          (λ lf.
            (IsCurrent objects lf → read (key lf) r.1 ≡ read (key lf) b)
            × ((¬ IsCurrent objects lf) → read (key lf) r.1 ≡ some (content lf)))
          files
    pub pruned :
        All
          (λ o.
            (contains (local_rel src store prefix disk files) o.rel_path ≡ true)
            ⊎ (read o.key r.1 ≡ none))
          objects
    pub others :
        (j : Chars)
        → All (λ lf. j ≢ key lf) files
        → All (λ o. j ≢ o.key) objects
        → read j r.1 ≡ read j b

  -- If no call fails, the files are on the disk and go to keys of their own, and no file's key is
  -- that of an object to be pruned, then an upload returns nil, and each
  -- file has its bytes at its key, but for a file of which the listing has an object of its path
  -- and size that is not older, whose key is as it was; the rest of the listing is pruned, and no other
  -- key has changed.
  pub push-IsUploaded :
      (files : List LocalFile) (objects : List RemoteObject) (b : B)
      → All IsOnDisk files
      → DistinctKeys files
      → All
          (λ lf. contains (stale (local_rel src store prefix disk files) objects) (key lf) ≡ false)
          files
      → IsUploaded files objects b (push src store prefix disk files objects b)
  unfolding push
  push-IsUploaded files objects b on_disk distinct spared =
      let remote = by_rel src store prefix disk objects [] in
      let local = local_rel src store prefix disk files in
      let b' = (upload_each src store prefix disk remote files b).1 in
      let up = λ (j : Chars). upload_each-reads remote files b j on_disk in
      let down = λ (j : Chars). delete_each-reads local objects b' j in
      record {
        succeeds = ground (arith, up [], down []);
        holds =
            All-zip _ _ _ files
              (λ lf free self.
                settled objects lf (read (key lf) b) _
                  (ground (arith, up (key lf), down (key lf), free, self)))
              spared (after_uploads_self remote (λ k. read k b) files distinct);
        pruned =
            All-zip _ _ _ objects (λ o p q. ground (arith, down o.key, p)) (stale-all local objects)
              (stale-all local objects);
        others = λ j no_file no_object. ground (
          arith,
          up j,
          down j,
          stale-other local objects j no_object,
          after_uploads-other remote files j (read j b) no_file,
        );
      }
