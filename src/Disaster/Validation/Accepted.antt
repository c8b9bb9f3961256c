-- ===== src/Disaster/Validation/Accepted.antt =====
-- Which configurations GenericBackupConfig.Validate and GenericRestoreConfig.Validate accept.
use backup_tool.Base.{
  ℕ, ◌+◌, ◌<◌, ◌≡◌, ◌≢◌, ◌↔◌, refl, String, not, ◌&&◌, ◌||◌, Option, none, List, [], ◌∷◌, ◌++◌, map,
  All, arith, is_empty, length, ◌==◌, nat_eq, list_eq, list_beq_iff,
}
use backup_tool.Base.Text.{Chars}
use backup_tool.Base.Distinct.{Distinct}
use backup_tool.Errors.{Errors, wrap}
use backup_tool.Filters.{FileFilter, Globs, validate_file_filter}
use backup_tool.Filters.Laws.{IsWellFormed, validate-accepts}
use backup_tool.Disaster.Slots.Names.{IsSlotName}
use backup_tool.Disaster.Config.{
  LabelSelector, GenericFilesSource, GenericFileGroupSource, GenericS3Source,
  GenericPostgresBackupSource, GenericPostgresRestoreSource, GenericBackupConfig,
  GenericRestoreConfig,
}
use backup_tool.Disaster.Validation.{
  first_error, refuse, is_empty_label_selector, validate_slots, validate_files_sources,
  validate_file_group_sources, validate_s3_sources, validate_postgres_backups,
  validate_postgres_restores, validate_filters, backup_checks, restore_checks, needs_checks,
  validate_backup_config, validate_restore_config,
}
use backup_tool.Disaster.Validation.Slots.{first_error-All, wrap_iff, refuse_iff, slots_iff}

-- The sources of one kind: each has a name of a slot and what it needs, and no two share a name.
abbrev pub Slots : {A : Type 0} → (A → Chars) → (A → Type 0) → List A → Type 0
Slots name Needs xs = All (λ a. IsSlotName (name a) × Needs a) xs × Distinct (map name xs)

abbrev pub Selects : LabelSelector → Type 0
Selects s = ¬ ((s.match_labels ≡ []) × (s.match_expressions ≡ []))

abbrev pub AllWellFormed : Globs → List FileFilter → Type 0
AllWellFormed g filters = All (λ f. All (IsWellFormed g) (f.include ++ f.exclude)) filters

-- A configuration of a backup that can be run.
pub record IsBackupConfig (g : Globs) (c : GenericBackupConfig) : Type 0 where
  pub some_source : 0 < length c.postgres + length c.files + length c.file_groups + length c.s3
  pub postgres : Slots (λ src. src.name) (λ src. src.cluster ≢ []) c.postgres
  pub files : Slots (λ src. src.name) (λ src. src.pvc ≢ []) (map (λ src. src.source) c.files)
  pub file_filters : AllWellFormed g (map (λ src. src.filter) c.files)
  pub file_groups :
      Slots (λ src. src.name) (λ src. Selects src.selector) (map (λ src. src.source) c.file_groups)
  pub group_filters : AllWellFormed g (map (λ src. src.filter) c.file_groups)
  pub s3 : Slots (λ src. src.name) (λ src. src.path ≢ []) c.s3
  pub sized : (c.backup_volume.size ≡ 0) → (c.postgres ≡ []) × (c.s3 ≡ []) × (c.file_groups ≡ [])

-- A configuration of a restore that can be run.
pub record IsRestoreConfig (c : GenericRestoreConfig) : Type 0 where
  pub some_source : 0 < length c.postgres + length c.files + length c.file_groups + length c.s3
  pub postgres :
      Slots
        (λ src. src.name)
        (λ src. (src.cluster ≢ []) × (src.client_ca_issuer.name ≢ []) × (src.serving_cert ≢ []))
        c.postgres
  pub files : Slots (λ src. src.name) (λ src. src.pvc ≢ []) c.files
  pub file_groups : Slots (λ src. src.name) (λ src. Selects src.selector) c.file_groups
  pub s3 : Slots (λ src. src.name) (λ src. src.path ≢ []) c.s3

All_iff :
    {A : Type 0} {P Q : A → Type 0} (h : (a : A) → P a ↔ Q a) (xs : List A) → All P xs ↔ All Q xs
All_iff h [] = (λ p. tt, λ p. tt)
All_iff h (x ∷ xs) =
    let now = h x in
    let rest = All_iff h xs in (λ p. (now.0 p.0, rest.0 p.1), λ p. (now.1 p.0, rest.1 p.1))

module _ (E : Errors) where
  filled : (s : Chars) (m : String) → (refuse E (s == []) m ≡ none) ↔ (s ≢ [])
  filled s m =
      let test = refuse_iff E (s == []) m in
      let same = list_beq_iff s [] in
      (λ h e. absurd (ground (arith, test.0 h, same.1 e)), λ h. test.1 (ground (arith, h, same)))

  -- A loop over sources, against what the sources need.
  loop_iff :
      {A : Type 0} (name : A → Chars) (m : String) (rest : A → Option E.Error) (Needs : A → Type 0)
      → ((a : A) → (rest a ≡ none) ↔ Needs a)
      → (xs : List A) → (validate_slots E name m rest [] xs ≡ none) ↔ Slots name Needs xs
  loop_iff name m rest Needs h xs =
      let slots = slots_iff E name m rest xs in
      let each =
        All_iff {P = λ a. IsSlotName (name a) × (rest a ≡ none)}
          {Q = λ a. IsSlotName (name a) × Needs a}
          (λ a. (λ p. (p.0, (h a).0 p.1), λ p. (p.0, (h a).1 p.1))) xs in
      (
        λ p. let (sound, distinct) = slots.0 p in (each.0 sound, distinct),
        λ p. slots.1 (each.1 p.0, p.1),
      )

  selects :
      (s : LabelSelector) (m : String) → (refuse E (is_empty_label_selector s) m ≡ none) ↔ Selects s
  unfolding is_empty_label_selector
  selects s m = split s.match_labels s.match_expressions
    where
      split :
          {A B : Type 0} (ls : List A) (es : List B)
          → (refuse E (is_empty ls && is_empty es) m ≡ none) ↔ (¬ ((ls ≡ []) × (es ≡ [])))
      split [] [] = ground arith
      split [] (e ∷ es) = ground arith
      split (l ∷ ls) es = ground arith

  filters_iff :
      (g : Globs) (m : String) (filters : List FileFilter)
      → (validate_filters E g m filters ≡ none) ↔ AllWellFormed g filters
  unfolding validate_filters
  filters_iff g m [] = (λ h. tt, λ h. refl)
  filters_iff g m (f ∷ filters) =
      let checks =
        first_error-All
          (wrap E (validate_file_filter E g f) m ∷ validate_filters E g m filters ∷ []) in
      let now = wrap_iff E (validate_file_filter E g f) m in
      let formed = validate-accepts E g f in
      let rest = filters_iff g m filters in
      (
        λ h. let (h₀, h₁) = checks.0 h in (formed.0 (now.0 h₀), rest.0 h₁.0),
        λ h. checks.1 (now.1 (formed.1 h.0), (rest.1 h.1, tt)),
      )

  unsized :
      {A B C : Type 0} (ps : List A) (ss : List B) (gs : List C) (size : ℕ) (m : String)
      → (refuse E ((not (is_empty ps) || not (is_empty ss) || not (is_empty gs)) && size == 0) m
          ≡ none)
        ↔ (size ≡ 0 → (ps ≡ []) × (ss ≡ []) × (gs ≡ []))
  unsized [] [] [] size m = ground arith
  unsized [] [] (g ∷ gs) size m = ground arith
  unsized [] (s ∷ ss) gs size m = ground arith
  unsized (p ∷ ps) ss gs size m = ground arith

  counted : (n : ℕ) (m : String) → (refuse E (n == 0) m ≡ none) ↔ (0 < n)
  counted n m = ground arith

  postgres_iff :
      (xs : List GenericPostgresBackupSource)
      → (validate_postgres_backups E xs ≡ none)
        ↔ Slots (λ src. src.name) (λ src. src.cluster ≢ []) xs
  unfolding validate_postgres_backups
  postgres_iff = loop_iff _ _ _ (λ src. src.cluster ≢ []) (λ src. filled src.cluster _)

  files_iff :
      (xs : List GenericFilesSource)
      → (wrap E (validate_files_sources E xs) "" ≡ none)
        ↔ Slots (λ src. src.name) (λ src. src.pvc ≢ []) xs
  unfolding validate_files_sources
  files_iff xs =
      let outer = wrap_iff E (validate_files_sources E xs) "" in
      let inner = loop_iff _ _ _ (λ src. src.pvc ≢ []) (λ src. filled src.pvc _) xs in
      (λ h. inner.0 (outer.0 h), λ h. outer.1 (inner.1 h))

  groups_iff :
      (xs : List GenericFileGroupSource)
      → (wrap E (validate_file_group_sources E xs) "" ≡ none)
        ↔ Slots (λ src. src.name) (λ src. Selects src.selector) xs
  unfolding validate_file_group_sources
  groups_iff xs =
      let outer = wrap_iff E (validate_file_group_sources E xs) "" in
      let inner = loop_iff _ _ _ (λ src. Selects src.selector) (λ src. selects src.selector _) xs in
      (λ h. inner.0 (outer.0 h), λ h. outer.1 (inner.1 h))

  s3_iff :
      (xs : List GenericS3Source)
      → (wrap E (validate_s3_sources E xs) "" ≡ none)
        ↔ Slots (λ src. src.name) (λ src. src.path ≢ []) xs
  unfolding validate_s3_sources
  s3_iff xs =
      let outer = wrap_iff E (validate_s3_sources E xs) "" in
      let inner = loop_iff _ _ _ (λ src. src.path ≢ []) (λ src. filled src.path _) xs in
      (λ h. inner.0 (outer.0 h), λ h. outer.1 (inner.1 h))

  -- The validation of a backup passes exactly if there is a source; within each kind the sources
  -- have names of slots, all different, and what they need (a cluster, a PVC, a selector that
  -- constrains something, a path); all filters are well formed; and a size is given unless all
  -- sources are files.
  pub validate_backup_config_iff :
      (g : Globs) (c : GenericBackupConfig)
      → (validate_backup_config E g c ≡ none) ↔ IsBackupConfig g c
  unfolding validate_backup_config
  validate_backup_config_iff g c =
      let some_source =
        counted (length c.postgres + length c.files + length c.file_groups + length c.s3)
          "at least one source (postgres, files, fileGroups, or s3) must be configured" in
      let filters =
        filters_iff g "files source has an invalid include/exclude filter"
          (map (λ src. src.filter) c.files) in
      let group_filters =
        filters_iff g "fileGroup source has an invalid include/exclude filter"
          (map (λ src. src.filter) c.file_groups) in
      let sized =
        unsized c.postgres c.s3 c.file_groups c.backup_volume.size
          "backupVolume.size is required when the config has postgres, s3, or fileGroup sources" in
      let checks = first_error-All (backup_checks E g c) in
      (
        λ h.
            let (h₀, r₀) = checks.0 h in
            let (h₁, r₁) = r₀ in
            let (h₂, r₂) = r₁ in
            let (h₃, r₃) = r₂ in
            let (h₄, r₄) = r₃ in
            let (h₅, r₅) = r₄ in
            let (h₆, r₆) = r₅ in
            record {
              some_source = some_source.0 h₀;
              postgres = (postgres_iff c.postgres).0 h₁;
              files = (files_iff (map (λ src. src.source) c.files)).0 h₂;
              file_filters = filters.0 h₃;
              file_groups = (groups_iff (map (λ src. src.source) c.file_groups)).0 h₄;
              group_filters = group_filters.0 h₅;
              s3 = (s3_iff c.s3).0 h₆;
              sized = sized.0 r₆.0;
            },
        λ v. checks.1 (
          some_source.1 v.some_source,
          (
            (postgres_iff c.postgres).1 v.postgres,
            (
              (files_iff (map (λ src. src.source) c.files)).1 v.files,
              (
                filters.1 v.file_filters,
                (
                  (groups_iff (map (λ src. src.source) c.file_groups)).1 v.file_groups,
                  (group_filters.1 v.group_filters, ((s3_iff c.s3).1 v.s3, (sized.1 v.sized, tt))),
                ),
              ),
            ),
          ),
        ),
      )

  needs_iff :
      (src : GenericPostgresRestoreSource)
      → (first_error (needs_checks E src) ≡ none)
        ↔ ((src.cluster ≢ []) × (src.client_ca_issuer.name ≢ []) × (src.serving_cert ≢ []))
  needs_iff src =
      let checks = first_error-All (needs_checks E src) in
      let cluster = filled src.cluster "postgres source: cluster is required" in
      let issuer =
        filled src.client_ca_issuer.name "postgres source: clientCAIssuer.name is required" in
      let serving = filled src.serving_cert "postgres source: servingCert is required" in
      (
        λ h. let all = checks.0 h in (cluster.0 all.0, issuer.0 all.1.0, serving.0 all.1.1.0),
        λ h. checks.1 (cluster.1 h.0, (issuer.1 h.1, (serving.1 h.2, tt))),
      )

  restores_iff :
      (xs : List GenericPostgresRestoreSource)
      → (validate_postgres_restores E xs ≡ none)
        ↔ Slots
            (λ src. src.name)
            (λ src. (src.cluster ≢ []) × (src.client_ca_issuer.name ≢ []) × (src.serving_cert ≢ []))
            xs
  unfolding validate_postgres_restores
  restores_iff = loop_iff _ _ _ _ needs_iff

  -- The validation of a restore passes exactly if there is a source, and within each kind the
  -- sources have names of slots, all different, and what they need; a postgres source needs a
  -- cluster, the name of an issuer and a serving certificate.
  pub validate_restore_config_iff :
      (c : GenericRestoreConfig) → (validate_restore_config E c ≡ none) ↔ IsRestoreConfig c
  unfolding validate_restore_config
  validate_restore_config_iff c =
      let some_source =
        counted (length c.postgres + length c.files + length c.file_groups + length c.s3)
          "at least one source (postgres, files, fileGroups, or s3) must be configured" in
      let checks = first_error-All (restore_checks E c) in
      (
        λ h.
            let (h₀, r₀) = checks.0 h in
            let (h₁, r₁) = r₀ in
            let (h₂, r₂) = r₁ in
            let (h₃, r₃) = r₂ in
            record {
              some_source = some_source.0 h₀;
              postgres = (restores_iff c.postgres).0 h₁;
              files = (files_iff c.files).0 h₂;
              file_groups = (groups_iff c.file_groups).0 h₃;
              s3 = (s3_iff c.s3).0 r₃.0;
            },
        λ v. checks.1 (
          some_source.1 v.some_source,
          (
            (restores_iff c.postgres).1 v.postgres,
            (
              (files_iff c.files).1 v.files,
              ((groups_iff c.file_groups).1 v.file_groups, ((s3_iff c.s3).1 v.s3, tt)),
            ),
          ),
        ),
      )
