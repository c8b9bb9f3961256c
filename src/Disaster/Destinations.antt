-- ===== src/Disaster/Destinations.antt =====
-- Where on the DR volume each source of a configuration is captured to and restored from
-- (generic.go, with the directory of a file group as
-- pkg/disasterrecovery/actions/remote/files/groupbackup/filesgroupbackup.go joins it).
use backup_tool.Base.{
  ℕ, ◌≡◌, ◌≢◌, ◌↔◌, refl, sym, ap, ap₂, ◌∙◌, length, length-append, ◌||◌, ◌==◌, nat_eq, true, inl,
  inr, subst, none, List, [], ◌∷◌, ◌++◌, map, All, All-append, All-In, arith,
}
use backup_tool.Base.Text.{Chars, codes}
use backup_tool.Base.Distinct.{Distinct, Apart, Distinct-append, Distinct-map, In-map, In-append}
use backup_tool.Errors.{Errors}
use backup_tool.Filters.{Globs}
use backup_tool.Disaster.Slots.{is_alphanumeric, dump_file_name, file_groups_dir_name}
use backup_tool.Disaster.Slots.Names.{IsSlotChar, IsSlotName}
use backup_tool.Disaster.Config.{GenericBackupConfig}
use backup_tool.Disaster.Validation.{validate_backup_config}
use backup_tool.Disaster.Validation.Accepted.{Slots, validate_backup_config_iff}

-- The parent directory of the members of a group.
abbrev pub group_dir : Chars → Chars
group_dir group_name = file_groups_dir_name ++ codes "/" ++ group_name

abbrev pub destinations_of : List Chars → List Chars → List Chars → List Chars → List Chars
destinations_of postgres groups files s3 =
    map dump_file_name postgres ++ (map group_dir groups ++ (files ++ s3))

-- Relative to the root of the DR volume.
abbrev pub backup_destinations : GenericBackupConfig → List Chars
backup_destinations c =
    destinations_of (map (λ src. src.name) c.postgres)
      (map (λ src. src.name) (map (λ src. src.source) c.file_groups))
      (map (λ src. src.name) (map (λ src. src.source) c.files)) (map (λ src. src.name) c.s3)

dump-inj : (a b : Chars) → dump_file_name a ≡ dump_file_name b → a ≡ b
unfolding dump_file_name
dump-inj [] [] e = refl
dump-inj [] (d ∷ b) e = absurd (omega (arith, ap length e, length-append b (codes ".sql")))
dump-inj (c ∷ a) [] e = absurd (omega (arith, ap length e, length-append a (codes ".sql")))
dump-inj (c ∷ a) (d ∷ b) e =
    let tails : (a ++ codes ".sql") ≡ (b ++ codes ".sql") = cc in
    let heads : c ≡ d = cc in ap₂ ◌∷◌ heads (dump-inj a b tails)

group-inj : (a b : Chars) → group_dir a ≡ group_dir b → a ≡ b
group-inj a b e = cc

-- The dump of a slot is not the name of a slot: it has a dot.
dump-no_slot : (a : Chars) → ¬ All IsSlotChar (dump_file_name a)
unfolding dump_file_name
dump-no_slot [] h = ground (arith, h)
dump-no_slot (c ∷ a) h = dump-no_slot a h.1

group-no_slot : (a : Chars) → ¬ All IsSlotChar (group_dir a)
group-no_slot a h = ground (arith, h)

abbrev IsDumpChar : ℕ → Type 0
IsDumpChar c = (is_alphanumeric c || c == b'-' || c == b'.') ≡ true

dump_chars : (a : Chars) → All IsSlotChar a → All IsDumpChar a
dump_chars [] h = tt
dump_chars (c ∷ a) h = (ground (arith, h.0), dump_chars a h.1)

dump-no_group : (a b : Chars) → All IsSlotChar a → dump_file_name a ≢ group_dir b
unfolding dump_file_name
dump-no_group a b h e = ground (
  arith,
  subst (All IsDumpChar) e
      (All-append IsDumpChar a (codes ".sql") (dump_chars a h) (refl, (refl, (refl, (refl, tt))))),
)

module _ (postgres groups files s3 : List Chars) where
  slots-Apart :
      (names : List Chars) (f : Chars → Chars) (xs : List Chars)
      → ((a : Chars) → ¬ All IsSlotChar (f a))
      → All IsSlotName names
      → Apart (map f xs) names
  slots-Apart names f xs no_slot slots a i j =
      let (b, _, e) = In-map f a xs i in
      no_slot b (subst (All IsSlotChar) e (All-In IsSlotName names a slots j).0)

  dumps-Apart : All IsSlotName postgres → Apart (map dump_file_name postgres) (map group_dir groups)
  dumps-Apart slots a i j =
      let (b, k, e) = In-map dump_file_name a postgres i in
      let (d, _, e') = In-map group_dir a groups j in
      dump-no_group b d (All-In IsSlotName postgres b slots k).0 (sym e ∙ e')

  -- Where each list of names is distinct, only files and buckets can meet.
  pub Distinct-destinations :
      All IsSlotName postgres × Distinct postgres
      → Distinct groups
      → All IsSlotName files × Distinct files
      → All IsSlotName s3 × Distinct s3
      → Distinct (destinations_of postgres groups files s3) ↔ Apart files s3
  Distinct-destinations p g f s =
      let slots = All-append IsSlotName files s3 f.0 s.0 in
      let outer =
        Distinct-append (map dump_file_name postgres) (map group_dir groups ++ (files ++ s3)) in
      let middle = Distinct-append (map group_dir groups) (files ++ s3) in
      let inner = Distinct-append files s3 in
      (
        λ d. (inner.0 (middle.0 (outer.0 d).1).1).2,
        λ apart. outer.1 (
          Distinct-map dump_file_name dump-inj postgres p.1,
          middle.1 (
            Distinct-map group_dir group-inj groups g,
            inner.1 (f.1, s.1, apart),
            slots-Apart (files ++ s3) group_dir groups group-no_slot slots,
          ),
          λ a i j. elim ((In-append a (map group_dir groups) (files ++ s3)).0 j) [
            | inl k ↦ dumps-Apart p.0 a i k
            | inr k ↦ slots-Apart (files ++ s3) dump_file_name postgres dump-no_slot slots a i k
          ],
        ),
      )

names_slots :
    {A : Type 0} (name : A → Chars) (Needs : A → Type 0) (xs : List A)
    → All (λ a. IsSlotName (name a) × Needs a) xs
    → All IsSlotName (map name xs)
names_slots name Needs [] h = tt
names_slots name Needs (x ∷ xs) h = (h.0.0, names_slots name Needs xs h.1)

names_of :
    {A : Type 0} (name : A → Chars) (Needs : A → Type 0) (xs : List A)
    → Slots name Needs xs
    → All IsSlotName (map name xs) × Distinct (map name xs)
names_of name Needs xs slots = (names_slots name Needs xs slots.0, slots.1)

-- In an accepted configuration of a backup no two sources write to the same place of the DR volume
-- exactly if no files source has the name of an s3 source: within a kind, and between the other
-- kinds, places never meet.
pub destinations-Distinct :
    (E : Errors) (g : Globs) (c : GenericBackupConfig)
    → validate_backup_config E g c ≡ none
    → Distinct (backup_destinations c)
      ↔ Apart (map (λ src. src.name) (map (λ src. src.source) c.files)) (map (λ src. src.name) c.s3)
destinations-Distinct E g c accepted =
    let v = (validate_backup_config_iff E g c).0 accepted in
    Distinct-destinations _ _ _ _ (names_of _ _ c.postgres v.postgres) v.file_groups.1
      (names_of _ _ (map (λ src. src.source) c.files) v.files) (names_of _ _ c.s3 v.s3)
