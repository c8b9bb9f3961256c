-- ===== src/Filters/Laws.antt =====
-- What a filter of pkg/files/filter.go lets through, and which filters are accepted.
use backup_tool.Base.{
  ◌≡◌, ◌≢◌, ◌↔◌, if◌then◌else◌, is_empty, ◌||◌, ◌⊎◌, inl, inr, refl, String, Bool, true, false,
  Bool-cases, Option, none, some, List, [], ◌∷◌, ◌++◌, map, All, In, any, arith, list_eq,
  list_beq_iff,
}
use backup_tool.Base.Text.{Chars}
use backup_tool.Errors.{Errors, wrap, new_aggregate}
use backup_tool.Filters.{
  FilePattern, FileFilter, Globs, validate_file_pattern, validate_file_filter, pattern_matches,
  matches_any_pattern, should_transfer,
}

-- Some pattern of a list is a glob that matches the path.
abbrev pub MatchesAny : Globs → List FilePattern → Chars → Type 0
MatchesAny g patterns path =
    (p : FilePattern) × In p patterns × (p.glob ≢ []) × (g.glob_match p.glob path ≡ true)

-- The pattern has a glob, and the glob library accepts it.
abbrev pub IsWellFormed : Globs → FilePattern → Type 0
IsWellFormed g p = (p.glob ≢ []) × (g.validate_pattern p.glob ≡ true)

module _ (g : Globs) (path : Chars) where
  any-MatchesAny :
      (patterns : List FilePattern)
      → any (λ p. pattern_matches g p path) patterns ≡ true
      → MatchesAny g patterns path
  any-MatchesAny [] h = absurd (ground (arith, h))
  any-MatchesAny (p ∷ patterns) h = elim (Bool-cases (pattern_matches g p path)) [
    | inl e ↦ (
      p,
      inl refl,
      (unfold pattern_matches in ground (arith, e, list_beq_iff p.glob [])),
      (unfold pattern_matches in ground (arith, e)),
    )
    | inr e ↦
        let (q, i, ne, m) = any-MatchesAny patterns (ground (arith, h, e)) in (q, inr i, ne, m)
  ]

  MatchesAny-any :
      (patterns : List FilePattern) (q : FilePattern)
      → In q patterns
      → q.glob ≢ []
      → g.glob_match q.glob path ≡ true
      → any (λ p. pattern_matches g p path) patterns ≡ true
  unfolding pattern_matches
  MatchesAny-any [] q i ne m = elim i [ ]
  MatchesAny-any (p ∷ patterns) q (inl e) ne m = ground (arith, e, list_beq_iff p.glob [])
  MatchesAny-any (p ∷ patterns) q (inr i) ne m = ground (arith, MatchesAny-any patterns q i ne m)

  matches_iff :
      (patterns : List FilePattern)
      → (matches_any_pattern g patterns path ≡ true) ↔ MatchesAny g patterns path
  unfolding matches_any_pattern
  matches_iff patterns = (any-MatchesAny patterns, λ m. MatchesAny-any patterns m.0 m.1 m.2 m.3)

  matches-false :
      (patterns : List FilePattern)
      → matches_any_pattern g patterns path ≡ false
      → ¬ MatchesAny g patterns path
  matches-false patterns h m = absurd (ground (arith, h, (matches_iff patterns).1 m))

-- The decision once the two lists of patterns are matched.
transfers_iff :
    (g : Globs) (f : FileFilter) (path : Chars) (is_dir : Bool)
    → (should_transfer g f path is_dir ≡ true) ↔ (
        (matches_any_pattern g f.exclude (g.to_slash path) ≡ false)
        × ((f.include ≡ [])
            ⊎ (is_dir ≡ true)
            ⊎ (matches_any_pattern g f.include (g.to_slash path) ≡ true)))
unfolding should_transfer
transfers_iff g f path is_dir = split f.include
  where
    split :
        (include : List FilePattern)
        → ((if matches_any_pattern g f.exclude (g.to_slash path)
              then false
              else if is_empty include || is_dir
              then true
              else matches_any_pattern g include (g.to_slash path))
            ≡ true)
          ↔ ((matches_any_pattern g f.exclude (g.to_slash path) ≡ false)
              × ((include ≡ [])
                  ⊎ (is_dir ≡ true)
                  ⊎ (matches_any_pattern g include (g.to_slash path) ≡ true)))
    split [] = ground arith
    split (p ∷ include) = ground arith

module _ (g : Globs) (f : FileFilter) (path : Chars) (is_dir : Bool) where
  -- An entry is transferred exactly if no exclude pattern matches its path and, unless the filter
  -- has no include pattern or the entry is a directory, some include pattern does.
  pub should_transfer_iff : (should_transfer g f path is_dir ≡ true) ↔ (
      (¬ MatchesAny g f.exclude (g.to_slash path))
      × ((f.include ≡ []) ⊎ (is_dir ≡ true) ⊎ MatchesAny g f.include (g.to_slash path)))
  should_transfer_iff =
      let tests = transfers_iff g f path is_dir in
      let include = matches_iff g (g.to_slash path) f.include in
      (
        λ h. (
          matches-false g (g.to_slash path) f.exclude (tests.0 h).0,
          elim (tests.0 h).1 [
            | inl e ↦ inl e
            | inr (inl d) ↦ inr (inl d)
            | inr (inr m) ↦ inr (inr (include.0 m))
          ],
        ),
        λ h. tests.1 (
          unmatched h.0,
          elim h.1 [
            | inl e ↦ inl e
            | inr (inl d) ↦ inr (inl d)
            | inr (inr m) ↦ inr (inr (include.1 m))
          ],
        ),
      )
    where
      unmatched :
          (¬ MatchesAny g f.exclude (g.to_slash path))
          → matches_any_pattern g f.exclude (g.to_slash path) ≡ false
      unmatched no_match = elim (Bool-cases (matches_any_pattern g f.exclude (g.to_slash path))) [
        | inl e ↦ absurd (no_match ((matches_iff g (g.to_slash path) f.exclude).0 e))
        | inr e ↦ e
      ]

non_nil-none :
    (E : Errors) (es : List (Option E.Error)) → (new_aggregate E es ≡ none) ↔ All (λ e. e ≡ none) es
non_nil-none E [] = (λ h. tt, λ h. refl)
non_nil-none E (none ∷ es) =
    let rest = non_nil-none E es in (λ h. (refl, rest.0 h), λ h. rest.1 h.1)
non_nil-none E (some e ∷ es) = (λ h. absurd (cc h), λ h. absurd (cc h.0))

module _ (E : Errors) (g : Globs) where
  accepts_pattern :
      (p : FilePattern) → (wrap E (validate_file_pattern E g p) "" ≡ none) ↔ IsWellFormed g p
  unfolding validate_file_pattern
  accepts_pattern p = ground (arith, list_beq_iff p.glob [])

  accepts_patterns :
      (patterns : List FilePattern)
      → All (λ e. e ≡ none) (map (λ p. wrap E (validate_file_pattern E g p) "") patterns)
        ↔ All (IsWellFormed g) patterns
  accepts_patterns [] = (λ h. tt, λ h. tt)
  accepts_patterns (p ∷ patterns) =
      let now = accepts_pattern p in
      let rest = accepts_patterns patterns in
      (λ h. (now.0 h.0, rest.0 h.1), λ h. (now.1 h.0, rest.1 h.1))

  wrap-none : (o : Option E.Error) (m : String) → (wrap E o m ≡ none) ↔ (o ≡ none)
  wrap-none none m = ground arith
  wrap-none (some e) m = ground arith

  -- A filter is accepted exactly if each of its patterns has a glob that the library accepts.
  pub validate-accepts :
      (f : FileFilter)
      → (validate_file_filter E g f ≡ none) ↔ All (IsWellFormed g) (f.include ++ f.exclude)
  unfolding validate_file_filter
  validate-accepts f =
      let patterns = f.include ++ f.exclude in
      let errors = map (λ p. wrap E (validate_file_pattern E g p) "") patterns in
      let outer = wrap-none (new_aggregate E errors) "failed to validate file filter patterns" in
      let middle = non_nil-none E errors in
      let inner = accepts_patterns patterns in
      (λ h. inner.0 (middle.0 (outer.0 h)), λ h. outer.1 (middle.1 (inner.1 h)))
