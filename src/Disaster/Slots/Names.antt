-- ===== src/Disaster/Slots/Names.antt =====
-- Which names of slots are accepted (validateSlotName in generic.go).
use backup_tool.Base.{
  ℕ, ◌≡◌, ◌↔◌, refl, false, subst, inl, inr, list_beq, Bool, true, Bool-cases, ◌&&◌, ◌||◌, none, [],
  ◌∷◌, All, arith, ◌==◌, nat_eq, list_eq, list_beq_iff,
}
use backup_tool.Base.Text.{Chars}
use backup_tool.Errors.{Errors}
use backup_tool.Disaster.Slots.{
  is_alphanumeric, matches_slot_end, matches_slot_name, validate_slot_name, file_groups_dir_name,
}

-- A lowercase letter, a digit or a dash.
abbrev pub IsSlotChar : ℕ → Type 0
IsSlotChar c = (is_alphanumeric c || c == b'-') ≡ true

abbrev pub StartsAlphanumeric : Chars → Type 0
StartsAlphanumeric [] = ⊥
StartsAlphanumeric (c ∷ s) = is_alphanumeric c ≡ true

abbrev pub EndsAlphanumeric : Chars → Type 0
EndsAlphanumeric [] = ⊥
EndsAlphanumeric (c ∷ []) = is_alphanumeric c ≡ true
EndsAlphanumeric (c ∷ d ∷ s) = EndsAlphanumeric (d ∷ s)

-- The shape of a DNS label, but for its length.
abbrev pub IsSlotName : Chars → Type 0
IsSlotName s = All IsSlotChar s × StartsAlphanumeric s × EndsAlphanumeric s

ends_iff :
    (c : ℕ) (s : Chars)
    → (matches_slot_end (c ∷ s) ≡ true) ↔ (All IsSlotChar (c ∷ s) × EndsAlphanumeric (c ∷ s))
unfolding matches_slot_end
ends_iff c [] = ground arith
ends_iff c (d ∷ s) =
    let rest = ends_iff d s in
    let step = both c (matches_slot_end (d ∷ s)) in
    (
      λ h. let (now, later) = step.0 h in let (chars, ends) = rest.0 later in ((now, chars), ends),
      λ h. step.1 (h.0.0, rest.1 (h.0.1, h.1)),
    )
  where
    both :
        (c : ℕ) (b : Bool)
        → (((is_alphanumeric c || c == b'-') && b) ≡ true) ↔ (IsSlotChar c × (b ≡ true))
    both c b = ground arith

matches_iff : (s : Chars) → (matches_slot_name s ≡ true) ↔ IsSlotName s
unfolding matches_slot_name matches_slot_end
matches_iff [] = ground arith
matches_iff (c ∷ []) = ground arith
matches_iff (c ∷ d ∷ s) =
    let rest = ends_iff d s in
    let step = both (is_alphanumeric c) (matches_slot_end (d ∷ s)) in
    (
      λ h.
          let (now, later) = step.0 h in
          let (chars, ends) = rest.0 later in ((slot_char c now, chars), now, ends),
      λ h. step.1 (h.1, rest.1 (h.0.1, h.2)),
    )
  where
    both : (a b : Bool) → ((a && b) ≡ true) ↔ ((a ≡ true) × (b ≡ true))
    both a b = ground arith

    slot_char : (c : ℕ) → is_alphanumeric c ≡ true → IsSlotChar c
    slot_char c h = ground arith

-- The reserved name has a capital letter.
reserved : ¬ IsSlotName file_groups_dir_name
reserved h = ground (arith, h)

nonempty : (c : ℕ) (s : Chars) → ((c ∷ s) == []) ≡ false
unfolding list_beq
nonempty c s = refl

-- A name of a slot is accepted exactly if it consists of lowercase letters, digits and dashes, and
-- starts and ends with a letter or a digit; the test for the reserved name never decides.
pub validate_slot_name_iff :
    (E : Errors) (s : Chars) → (validate_slot_name E s ≡ none) ↔ IsSlotName s
validate_slot_name_iff E s =
    let names = matches_iff s in (λ h. names.0 (matched s h), λ h. accepted s (names.1 h) h)
  where
    matched : (s : Chars) → validate_slot_name E s ≡ none → matches_slot_name s ≡ true
    matched s h = unfold validate_slot_name in ground (arith, h)

    accepted :
        (s : Chars) → matches_slot_name s ≡ true → IsSlotName s → validate_slot_name E s ≡ none
    accepted [] m n = absurd n.1
    accepted (c ∷ s) m n = elim (Bool-cases ((c ∷ s) == file_groups_dir_name)) [
      | inl e ↦ absurd (reserved (subst IsSlotName ((list_beq_iff (c ∷ s) _).0 e) n))
      | inr e ↦ unfold validate_slot_name in rw (nonempty c s, m, e)
    ]
