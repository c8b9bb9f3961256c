-- ===== src/Disaster/Validation/Slots.antt =====
-- What the validation loops of generic.go accept.
use backup_tool.Base.{
  ◌≡◌, ◌↔◌, refl, inl, inr, sym, String, Bool, true, false, Option, none, some, List, [], ◌∷◌, map,
  All, In, arith, contains, list_eq,
}
use backup_tool.Base.Text.{Chars}
use backup_tool.Base.Distinct.{Distinct, contains-false}
use backup_tool.Errors.{Errors, wrap}
use backup_tool.Disaster.Slots.{validate_slot_name}
use backup_tool.Disaster.Slots.Names.{IsSlotName, validate_slot_name_iff}
use backup_tool.Disaster.Validation.{first_error, refuse, validate_slots}

pub first_error_iff :
    {X : Type 0} (o : Option X) (checks : List (Option X))
    → (first_error (o ∷ checks) ≡ none) ↔ ((o ≡ none) × (first_error checks ≡ none))
first_error_iff none checks = (λ h. (refl, h), λ h. h.1)
first_error_iff (some e) checks = (λ h. absurd (cc h), λ h. absurd (cc h.0))

pub first_error-All :
    {X : Type 0} (checks : List (Option X))
    → (first_error checks ≡ none) ↔ All (λ o. o ≡ none) checks
first_error-All [] = (λ h. tt, λ h. refl)
first_error-All (none ∷ checks) =
    let rest = first_error-All checks in (λ h. (refl, rest.0 h), λ h. rest.1 h.1)
first_error-All (some e ∷ checks) = (λ h. absurd (cc h), λ h. absurd (cc h.0))

pub wrap_iff : (E : Errors) (o : Option E.Error) (m : String) → (wrap E o m ≡ none) ↔ (o ≡ none)
wrap_iff E none m = ground arith
wrap_iff E (some e) m = ground arith

pub refuse_iff : (E : Errors) (b : Bool) (m : String) → (refuse E b m ≡ none) ↔ (b ≡ false)
refuse_iff E true m = ground arith
refuse_iff E false m = ground arith

module _ (E : Errors) {A : Type 0} (name : A → Chars) (duplicate : String)
    (rest : A → Option E.Error) where
  -- A source alone: its name is a name of a slot, and its own checks pass.
  abbrev pub IsSound : A → Type 0
  IsSound a = IsSlotName (name a) × (rest a ≡ none)

  -- After the names in `seen`.
  abbrev IsFresh : List Chars → A → Type 0
  IsFresh seen a = IsSound a × (¬ In (name a) seen)

  IsFresh-after :
      (x : Chars) (seen : List Chars) (xs : List A)
      → All (IsFresh (x ∷ seen)) xs ↔ (All (IsFresh seen) xs × (¬ In x (map name xs)))
  IsFresh-after x seen [] = (λ h. (tt, λ i. i), λ h. tt)
  IsFresh-after x seen (a ∷ xs) =
      let later = IsFresh-after x seen xs in
      (
        λ h.
            let (others, absent) = later.0 h.1 in
            (
              ((h.0.0, λ i. h.0.1 (inr i)), others),
              λ i. elim i [ inl e ↦ h.0.1 (inl (sym e)) | inr j ↦ absent j ],
            ),
        λ h. (
          (h.0.0.0, λ i. elim i [ inl e ↦ h.1 (inl (sym e)) | inr j ↦ h.0.0.1 j ]),
          later.1 (h.0.1, λ j. h.1 (inr j)),
        ),
      )

  slots_from :
      (seen : List Chars) (xs : List A)
      → (validate_slots E name duplicate rest seen xs ≡ none)
        ↔ (All (IsFresh seen) xs × Distinct (map name xs))
  unfolding validate_slots
  slots_from seen [] = (λ h. (tt, tt), λ h. refl)
  slots_from seen (a ∷ xs) =
      let recursive = validate_slots E name duplicate rest (name a ∷ seen) xs in
      let first =
        first_error_iff (wrap E (validate_slot_name E (name a)) "")
          (refuse E (contains seen (name a)) duplicate ∷ rest a ∷ recursive ∷ []) in
      let second =
        first_error_iff (refuse E (contains seen (name a)) duplicate) (rest a ∷ recursive ∷ []) in
      let third = first_error_iff (rest a) (recursive ∷ []) in
      let fourth = first_error_iff recursive [] in
      let named = wrap_iff E (validate_slot_name E (name a)) "" in
      let slot = validate_slot_name_iff E (name a) in
      let unseen = refuse_iff E (contains seen (name a)) duplicate in
      let absent = contains-false seen (name a) in
      let later = slots_from (name a ∷ seen) xs in
      let fresh = IsFresh-after (name a) seen xs in
      (
        λ h.
            let (h₁, t₁) = first.0 h in
            let (h₂, t₂) = second.0 t₁ in
            let (h₃, t₃) = third.0 t₂ in
            let (others, distinct) = later.0 (fourth.0 t₃).0 in
            let (sound, unlike) = fresh.0 others in
            ((((slot.0 (named.0 h₁), h₃), absent.0 (unseen.0 h₂)), sound), (unlike, distinct)),
        λ h. first.1 (
          named.1 (slot.1 h.0.0.0.0),
          second.1 (
            unseen.1 (absent.1 h.0.0.1),
            third.1 (h.0.0.0.1, fourth.1 (later.1 (fresh.1 (h.0.1, h.1.0), h.1.1), refl)),
          ),
        ),
      )

  unseen_all : (xs : List A) → All (IsFresh []) xs ↔ All IsSound xs
  unseen_all [] = (λ h. tt, λ h. tt)
  unseen_all (a ∷ xs) =
      let later = unseen_all xs in (λ h. (h.0.0, later.0 h.1), λ h. ((h.0, λ i. i), later.1 h.1))

  -- A loop passes exactly if each source is sound and no two have the same name.
  pub slots_iff :
      (xs : List A)
      → (validate_slots E name duplicate rest [] xs ≡ none)
        ↔ (All IsSound xs × Distinct (map name xs))
  slots_iff xs =
      let loop = slots_from [] xs in
      let sound = unseen_all xs in
      (
        λ h. let (fresh, distinct) = loop.0 h in (sound.0 fresh, distinct),
        λ h. loop.1 (sound.1 h.0, h.1),
      )
