-- ===== src/Kube/Leaks.antt =====
-- No resource is lost: each that was created was there before, is held, or was asked to be deleted.
-- Policies are left out, see `Policies`.
use backup_tool.Base.{◌≡◌, ◌≢◌, ap, ◌⊎◌, inl, inr, ◌∷◌, In, arith}
use backup_tool.Base.Text.{Chars}
use backup_tool.Kube.Api.{Kind, policy, Resource, created, deleted, asked, History}
use backup_tool.Kube.Certs.{Policy, policy_id}

-- Since `h₀`, with what is held now.
abbrev pub Tracks : (Resource → Type 0) → History → History → Type 0
Tracks held h₀ h =
    (r : Resource)
    → r.kind ≢ policy
    → In (created r) h
    → In (created r) h₀ ⊎ In (deleted r) h ⊎ held r

abbrev pub NoLeak : History → History → Type 0
NoLeak = Tracks (λ r. ⊥)

module _ (held : Resource → Type 0) (h₀ h : History) (t : Tracks held h₀ h) where
  pub Tracks-asked : (k : Kind) (n : Chars) → Tracks held h₀ (asked k n ∷ h)
  Tracks-asked k n r other (inl e) = absurd (ground (arith, e))
  Tracks-asked k n r other (inr i) = elim (t r other i) [
    | inl old ↦ inl old
    | inr (inl gone) ↦ inr (inl (inr gone))
    | inr (inr kept) ↦ inr (inr kept)
  ]

  pub Tracks-deleted : (d : Resource) → Tracks held h₀ (deleted d ∷ h)
  Tracks-deleted d r other (inl e) = absurd (ground (arith, e))
  Tracks-deleted d r other (inr i) = elim (t r other i) [
    | inl old ↦ inl old
    | inr (inl gone) ↦ inr (inl (inr gone))
    | inr (inr kept) ↦ inr (inr kept)
  ]

  pub Tracks-policy : (p : Policy) → Tracks held h₀ (created (policy_id p) ∷ h)
  Tracks-policy p r other (inl e) = absurd (other (ground (arith, e)))
  Tracks-policy p r other (inr i) = elim (t r other i) [
    | inl old ↦ inl old
    | inr (inl gone) ↦ inr (inl (inr gone))
    | inr (inr kept) ↦ inr (inr kept)
  ]

-- What is created and then held is tracked.
pub Tracks-created :
    (h₀ h : History) (id : Resource) → NoLeak h₀ h → Tracks (λ r. r ≡ id) h₀ (created id ∷ h)
Tracks-created h₀ h id t r other (inl e) = inr (inr (ground (arith, e)))
Tracks-created h₀ h id t r other (inr i) = elim (t r other i) [
  | inl old ↦ inl old
  | inr (inl gone) ↦ inr (inl (inr gone))
  | inr (inr none_held) ↦ absurd none_held
]

-- The deletion of the only resource that is held.
pub Tracks-release :
    (h₀ h : History) (id : Resource) → Tracks (λ r. r ≡ id) h₀ h → NoLeak h₀ (deleted id ∷ h)
Tracks-release h₀ h id t r other (inl e) = absurd (ground (arith, e))
Tracks-release h₀ h id t r other (inr i) = elim (t r other i) [
  | inl old ↦ inl old
  | inr (inl gone) ↦ inr (inl (inr gone))
  | inr (inr e) ↦ inr (inl (inl (ap deleted e)))
]

pub NoLeak-refl : (h : History) → NoLeak h h
NoLeak-refl h r other i = inl i

module _ (held : Resource → Type 0) (h₀ h : History) where
  -- A resource that is created is held beside the others.
  pub Tracks-hold :
      (id : Resource) → Tracks held h₀ h → Tracks (λ r. held r ⊎ (r ≡ id)) h₀ (created id ∷ h)
  Tracks-hold id t r other (inl e) = inr (inr (inr (ground (arith, e))))
  Tracks-hold id t r other (inr i) = elim (t r other i) [
    | inl old ↦ inl old
    | inr (inl gone) ↦ inr (inl (inr gone))
    | inr (inr kept) ↦ inr (inr (inl kept))
  ]

  -- A resource that was held beside the others is deleted.
  pub Tracks-drop :
      (id : Resource) → Tracks (λ r. held r ⊎ (r ≡ id)) h₀ h → Tracks held h₀ (deleted id ∷ h)
  Tracks-drop id t r other (inl e) = absurd (ground (arith, e))
  Tracks-drop id t r other (inr i) = elim (t r other i) [
    | inl old ↦ inl old
    | inr (inl gone) ↦ inr (inl (inr gone))
    | inr (inr (inl kept)) ↦ inr (inr kept)
    | inr (inr (inr e)) ↦ inr (inl (inl (ap deleted e)))
  ]

  pub Tracks-weaken :
      (other_held : Resource → Type 0)
      → ((r : Resource) → held r → other_held r)
      → Tracks held h₀ h
      → Tracks other_held h₀ h
  Tracks-weaken other_held f t r other i = elim (t r other i) [
    | inl old ↦ inl old
    | inr (inl gone) ↦ inr (inl gone)
    | inr (inr kept) ↦ inr (inr (f r kept))
  ]
