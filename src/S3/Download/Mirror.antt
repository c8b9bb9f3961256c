-- ===== src/S3/Download/Mirror.antt =====
-- The directory after a download (download of pkg/s3/transfer.go).
use backup_tool.Base.{
  ℕ, ◌≡◌, ◌≢◌, refl, ◌∙◌, ◌⊎◌, inl, inr, true, false, Option, none, some, Option-cases, List, [],
  ◌∷◌, All, All-map, contains, sym, subst, list_eq, list_beq_iff, arith,
}
use backup_tool.Base.Dict.{
  lookup, lookup-insert_self, lookup-insert_ne, insert-NodupKeys, NodupKeys,
}
use backup_tool.Base.Text.{Chars}
use backup_tool.Errors.{Errors}
use backup_tool.S3.Objects.{RemoteObject}
use backup_tool.S3.Disk.{Node, regular, Disk, Io, folder, is_dir, remove_extraneous_local_files}
use backup_tool.S3.Disk.Prune.{pruned, lookup-remove_extraneous}
use backup_tool.S3.Download.{Client, download_object, download_each, transfer, kept_paths}
use backup_tool.S3.Download.Single.{
  IsFaultless, Serves, download_object-keeps_existing, download_object-fresh,
}

-- The path holds these bytes.
abbrev pub Holds : Disk → Chars → List ℕ → Type 0
Holds disk p bytes = (t : ℕ) × (lookup p disk.nodes ≡ some (regular bytes t))

-- No two objects share a path.
abbrev pub Distinct : List RemoteObject → Type 0
Distinct [] = Unit
Distinct (o ∷ os) = All (λ o'. o.rel_path ≢ o'.rel_path) os × Distinct os

-- No call of the pruning fails.
pub record PrunesFaultlessly {E : Errors} (io : Io E) : Type 0 where
  pub root_stats : io.root_fault ≡ none
  pub walks : (p : Chars) → io.walk_fault p ≡ none
  pub removes : (p : Chars) → io.remove_fault p ≡ none

module _ {E : Errors} (io : Io E) (client : Client E) (f : IsFaultless io client)
    (content : RemoteObject → List ℕ) where
  -- The object can be had, and its path is a clean one.
  abbrev pub IsReady : RemoteObject → Type 0
  IsReady obj = Serves io client obj (content obj) × (io.join obj.rel_path ≡ obj.rel_path)

  -- The object's path holds its bytes, if it was free, and else what stood there.
  abbrev pub Stands : Disk → Disk → RemoteObject → Type 0
  Stands disk disk' obj =
      (lookup obj.rel_path disk.nodes ≡ none → Holds disk' obj.rel_path (content obj))
      × ((n : Node)
          → lookup obj.rel_path disk.nodes ≡ some n
          → lookup obj.rel_path disk'.nodes ≡ some n)

  -- What one transfer achieves.
  record Achieves (obj : RemoteObject) (disk : Disk) (r : Option E.Error × Disk) : Type 0 where
    pub succeeds : r.0 ≡ none
    pub holds : Stands disk r.1 obj
    pub others : (p : Chars) → p ≢ obj.rel_path → lookup p r.1.nodes ≡ lookup p disk.nodes
    pub unique : NodupKeys disk.nodes → NodupKeys r.1.nodes
    pub root : disk.root ≡ folder → r.1.root ≡ folder

  achieves :
      (obj : RemoteObject) (disk : Disk)
      → IsReady obj
      → Achieves obj disk (download_object io client obj disk)
  achieves obj disk (serves, clean) = elim (Option-cases (lookup obj.rel_path disk.nodes)) [
    | inl fresh ↦
        subst (Achieves obj disk)
          (sym (download_object-fresh io client f obj (content obj) serves disk clean fresh))
          (record {
            succeeds = refl;
            holds = (
              (λ _. (obj.last_modified, lookup-insert_self _ _ _)),
              (λ n e. absurd (ground (arith, e, fresh))),
            );
            others = λ p ne. lookup-insert_ne p _ _ _ ne ∙ lookup-insert_ne p _ _ _ ne;
            unique = λ u. insert-NodupKeys _ _ _ (insert-NodupKeys _ _ _ u);
            root = λ _. refl;
          })
    | inr (n, same) ↦
        subst (Achieves obj disk)
          (sym (
            download_object-keeps_existing io client obj disk n (f.stats _)
              (subst (λ q. lookup q disk.nodes ≡ some n) (sym clean) same)))
          (record {
            succeeds = refl;
            holds = ((λ e. absurd (ground (arith, e, same))), (λ m e. e));
            others = λ p ne. refl;
            unique = λ u. u;
            root = λ e. e;
          })
  ]

  -- What the transfers achieve together.
  pub record AchievesAll (objs : List RemoteObject) (disk : Disk) (r : Option E.Error × Disk)
      : Type 0 where
    pub succeeds : r.0 ≡ none
    pub holds : All (Stands disk r.1) objs
    pub others :
        (p : Chars) → All (λ obj. p ≢ obj.rel_path) objs → lookup p r.1.nodes ≡ lookup p disk.nodes
    pub unique : NodupKeys disk.nodes → NodupKeys r.1.nodes
    pub root : disk.root ≡ folder → r.1.root ≡ folder

  -- A change elsewhere, after a transfer.
  Stands-kept :
      (obj : RemoteObject) (before disk disk' : Disk)
      → lookup obj.rel_path disk'.nodes ≡ lookup obj.rel_path disk.nodes
      → Stands before disk obj
      → Stands before disk' obj
  Stands-kept obj before disk disk' keep (free, taken) =
      ((λ e. let (t, held) = free e in (t, keep ∙ held)), (λ n e. keep ∙ taken n e))

  -- A transfer to another path, before the others.
  Stands-others :
      (obj : RemoteObject) (before disk disk' : Disk) (objs : List RemoteObject)
      → ((p : Chars) → p ≢ obj.rel_path → lookup p disk.nodes ≡ lookup p before.nodes)
      → All (λ o. obj.rel_path ≢ o.rel_path) objs
      → All (Stands disk disk') objs
      → All (Stands before disk') objs
  Stands-others obj before disk disk' [] same ne h = tt
  Stands-others obj before disk disk' (o ∷ objs) same ne h =
      let keep = same o.rel_path (λ e. ne.0 (sym e)) in
      (
        ((λ e. h.0.0 (keep ∙ e)), (λ n e. h.0.1 n (keep ∙ e))),
        Stands-others obj before disk disk' objs same ne.1 h.1,
      )

  achieves_all :
      (objs : List RemoteObject) (disk : Disk)
      → Distinct objs
      → All IsReady objs
      → AchievesAll objs disk (download_each io client objs disk)
  unfolding download_each
  achieves_all [] disk d ready = record {
    succeeds = refl;
    holds = tt;
    others = λ p h. refl;
    unique = λ u. u;
    root = λ e. e;
  }
  achieves_all (obj ∷ objs) disk d ready =
      let one = achieves obj disk ready.0 in
      let disk' = (download_object io client obj disk).1 in
      let rest = achieves_all objs disk' d.1 ready.1 in
      record {
        succeeds = ground (arith, one.succeeds, rest.succeeds);
        holds = (
          Stands-kept obj disk disk' (download_each io client objs disk').1
              (rest.others obj.rel_path d.0) one.holds,
          Stands-others obj disk disk' (download_each io client objs disk').1 objs one.others d.0
              rest.holds,
        );
        others = λ p h. rest.others p h.1 ∙ one.others p h.0;
        unique = λ u. rest.unique (one.unique u);
        root = λ e. rest.root (one.root e);
      }

  -- Which paths the listing keeps.
  not_kept :
      (objs : List RemoteObject) (p : Chars)
      → contains (kept_paths io client objs) p ≡ false
      → All (λ obj. p ≢ obj.rel_path) objs
  not_kept [] p h = tt
  not_kept (o ∷ objs) p h =
      (ground (arith, list_beq_iff p o.rel_path), not_kept objs p (ground arith))

  kept_self :
      (objs : List RemoteObject)
      → All (λ obj. contains (kept_paths io client objs) obj.rel_path ≡ true) objs
  kept_self [] = tt
  kept_self (o ∷ objs) = (
    ground (arith, list_beq_iff o.rel_path o.rel_path),
    All-map _ _ objs (λ a h. ground (arith, h)) (kept_self objs),
  )

  -- Of the listing's own paths nothing is pruned.
  still_held :
      (all objs : List RemoteObject) (before disk disk' : Disk)
      → ((p : Chars)
          → lookup p disk'.nodes ≡ pruned (kept_paths io client all) p (lookup p disk.nodes))
      → All (λ obj. contains (kept_paths io client all) obj.rel_path ≡ true) objs
      → All (Stands before disk) objs
      → All (Stands before disk') objs
  still_held all [] before disk disk' same kept h = tt
  still_held all (o ∷ objs) before disk disk' same kept h = (
    Stands-kept o before disk disk' (ground (arith, same o.rel_path, kept.0)) h.0,
    still_held all objs before disk disk' same kept.1 h.1,
  )

  -- The directory after a download: each object's path holds its bytes, if it was free, and else what
  -- stood there, and every node that is no directory stands at the path of an object.
  pub record IsDownloaded (objs : List RemoteObject) (disk : Disk) (r : Option E.Error × Disk)
      : Type 0 where
    pub succeeds : r.0 ≡ none
    pub holds : All (Stands disk r.1) objs
    pub nothing_else :
        (p : Chars) (n : Node)
        → lookup p r.1.nodes ≡ some n
        → (is_dir n ≡ true) ⊎ (contains (kept_paths io client objs) p ≡ true)

  -- If no call fails, and each object of the listing can be had and has a clean path of its own, then a
  -- download returns nil; afterwards the path of each object holds its bytes, if it was free before, and
  -- else what stood there before, also where that is not the object; and every node that is no directory
  -- stands at the path of an object.
  pub transfer-IsDownloaded :
      PrunesFaultlessly io
      → (objs : List RemoteObject) (disk : Disk) → disk.root ≡ folder
      → NodupKeys disk.nodes
      → Distinct objs
      → All IsReady objs
      → IsDownloaded objs disk (transfer io client objs disk)
  unfolding transfer
  transfer-IsDownloaded prunes objs disk is_folder unique distinct ready =
      let all = achieves_all objs disk distinct ready in
      let disk' : Disk = (download_each io client objs disk).1 in
      let keep : List Chars = kept_paths io client objs in
      let prune =
        lookup-remove_extraneous io keep disk' prunes.root_stats prunes.walks prunes.removes
          (all.root is_folder) (all.unique unique) in
      let final : Disk = (remove_extraneous_local_files io keep disk').1 in
      let reached : transfer io client objs disk ≡ (none, final) =
        ground (arith, all.succeeds, prune []) in
      subst (IsDownloaded objs disk) (sym reached) (record {
        succeeds = refl;
        holds = still_held objs objs disk disk' final (λ p. (prune p).1) (kept_self objs) all.holds;
        nothing_else = λ p n e. ground (arith, e, prune p);
      })
