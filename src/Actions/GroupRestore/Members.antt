-- ===== src/Actions/GroupRestore/Members.antt =====
-- The check of membership before a restore (verifyOneToOneMapping).
use backup_tool.Base.{
  ◌≡◌, refl, ◌↔◌, Bool, Bool-cases, ◌&&◌, true, false, none, some, if◌then◌else◌, List, [], ◌∷◌, In,
  inl, inr, is_empty, contains, list_eq, arith, sym, subst,
}
use backup_tool.Base.Distinct.{contains-In, contains-false}
use backup_tool.Base.Text.{Chars}
use backup_tool.Errors.{Errors}
use backup_tool.Actions.GroupRestore.{
  FilesGroupRestore, missing_from, target_names, verify_one_to_one_mapping,
}

-- The same names are in both, as often as may be.
abbrev pub SameNames : List Chars → List Chars → Type 0
SameNames xs ys = (name : Chars) → In name xs ↔ In name ys

missing_from-empty :
    (others names : List Chars)
    → (is_empty (missing_from others names) ≡ true)
      ↔ ((name : Chars) → In name names → In name others)
unfolding missing_from
missing_from-empty others [] = (λ _ name i. absurd i, λ _. refl)
missing_from-empty others (x ∷ names) =
    let rest = missing_from-empty others names in
    elim (Bool-cases (contains others x)) [
      | inl found ↦
          let here = (contains-In others x).0 found in
          rw found (
            λ h name i. elim i [
              | inl e ↦ subst (λ n. In n others) (sym e) here
              | inr j ↦ rest.0 h name j
            ],
            λ all. rest.1 (λ name j. all name (inr j)),
          )
      | inr missing ↦ rw missing (
        λ h. absurd (ground (arith, h)),
        λ all. absurd ((contains-false others x).0 missing (all x (inl refl))),
      )
    ]

both_iff :
    {X : Type 0} (a b : Bool) (x : X)
    → ((if a && b then none else some x) ≡ none) ↔ ((a ≡ true) × (b ≡ true))
both_iff true true x = (λ _. (refl, refl), λ _. refl)
both_iff true false x = (λ h. absurd (ground (arith, h)), λ p. absurd (ground (arith, p.1)))
both_iff false b x = (λ h. absurd (ground (arith, h)), λ p. absurd (ground (arith, p.0)))

-- The check before a restore passes exactly if the captured members and the targets have the same
-- names.
pub verify_one_to_one_mapping_iff :
    (E : Errors) (s : FilesGroupRestore) (captured : List Chars)
    → (verify_one_to_one_mapping E s captured ≡ none) ↔ SameNames captured (target_names s)
unfolding verify_one_to_one_mapping
verify_one_to_one_mapping_iff E s captured =
    let uncaptured = missing_from-empty captured (target_names s) in
    let untargeted = missing_from-empty (target_names s) captured in
    let passes =
      both_iff (is_empty (missing_from captured (target_names s)))
        (is_empty (missing_from (target_names s) captured))
        (E.errorf "refusing to restore group: backup/restore membership is not 1:1") in
    (
      λ h name.
          let (every, known) = passes.0 h in (untargeted.0 known name, uncaptured.0 every name),
      λ same. passes.1 (uncaptured.1 (λ n. (same n).1), untargeted.1 (λ n. (same n).0)),
    )
