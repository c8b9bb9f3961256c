-- ===== src/S3/Select/Newest.antt =====
-- What `consider` leaves for a key (selectObjectsAsOf of pkg/s3/transfer.go).
use backup_tool.Base.{
  ℕ, ◌≤◌, ◌<◌, ◌≡◌, refl, ◌∙◌, Option, none, some, List, [], ◌∷◌, ◌++◌, ◌⊎◌, inl, inr, All, In,
  All-In, All-map, if◌then◌else◌, ltb, arith, ◌==◌, list_eq, Option-cases, subst, sym, list_beq_iff,
  list_beq,
}
use backup_tool.Base.Dict.{Dict, lookup, lookup-insert}
use backup_tool.Base.Text.{Chars}
use backup_tool.S3.Select.{Candidate, Entry, consider, consider_all}

-- The candidate after one more entry of the key.
abbrev better : ℕ → Candidate → Option Candidate → Option Candidate
better as_of c none = if ltb as_of c.last_modified then none else some c
better as_of c (some b) =
    if ltb as_of c.last_modified
    then some b
    else if ltb b.last_modified c.last_modified
    then some c
    else some b

abbrev newest : ℕ → Chars → List Entry → Option Candidate → Option Candidate
newest as_of k [] best = best
newest as_of k (e ∷ es) best = newest as_of k es (if k == e.0 then better as_of e.1 best else best)

lookup-consider :
    (as_of : ℕ) (k : Chars) (e : Entry) (current : Dict Chars Candidate)
    → lookup k (consider as_of current e)
      ≡ (if k == e.0 then better as_of e.1 (lookup k current) else lookup k current)
unfolding consider
lookup-consider as_of k (j, c) current = elim (Option-cases (lookup j current)) [
  | inl absent ↦ ground (arith, absent, lookup-insert k j c current, list_beq_iff k j)
  | inr (b, found) ↦ ground (arith, found, lookup-insert k j c current, list_beq_iff k j)
]

lookup-consider_all :
    (as_of : ℕ) (k : Chars) (es : List Entry) (current : Dict Chars Candidate)
    → lookup k (consider_all as_of es current) ≡ newest as_of k es (lookup k current)
unfolding consider_all
lookup-consider_all as_of k [] current = refl
lookup-consider_all as_of k (e ∷ es) current =
    lookup-consider_all as_of k es (consider as_of current e)
    ∙ rw (lookup-consider as_of k e current)

-- What is known of the newest candidate of a key at or before an instant: where it comes from, and
-- that no entry of the key in that time is newer.
module _ (as_of : ℕ) (k : Chars) (es : List Entry) (start : Option Candidate) where
  abbrev pub IsNewest : Option Candidate → Type 0
  IsNewest none = (start ≡ none) × All (λ e. k ≡ e.0 → as_of < e.1.last_modified) es
  IsNewest (some c) =
      ((start ≡ some c) ⊎ (In (k, c) es × (c.last_modified ≤ as_of)))
      × All (λ e. k ≡ e.0 → e.1.last_modified ≤ as_of → e.1.last_modified ≤ c.last_modified) es
      × ((b : Candidate) → start ≡ some b → b.last_modified ≤ c.last_modified)

module _ (as_of : ℕ) (k j : Chars) (c : Candidate) (es : List Entry) where
  IsNewest-cons :
      (start r : Option Candidate)
      → IsNewest as_of k es (if list_beq k j then better as_of c start else start) r
      → IsNewest as_of k ((j, c) ∷ es) start r
  IsNewest-cons none none h = (refl, (λ q. ground (arith, h.0, list_beq_iff k j), h.1))
  IsNewest-cons (some b) none h = absurd (ground (arith, h.0))
  IsNewest-cons none (some r) h = (
    ground (arith, h.0, list_beq_iff k j),
    (λ q fits. h.2 c (ground (arith, list_beq_iff k j)), h.1),
    λ b e. absurd (ground (arith, e)),
  )
  IsNewest-cons (some b) (some r) h = (
    ground (arith, h.0, list_beq_iff k j),
    (λ q fits. ground (arith, h.2 b, h.2 c, list_beq_iff k j), h.1),
    λ b' e. ground (arith, h.2 b, h.2 c, list_beq_iff k j),
  )

newest-IsNewest :
    (as_of : ℕ) (k : Chars) (es : List Entry) (start : Option Candidate)
    → IsNewest as_of k es start (newest as_of k es start)
newest-IsNewest as_of k [] none = (refl, tt)
newest-IsNewest as_of k [] (some b) = (inl refl, tt, λ c e. ground arith)
newest-IsNewest as_of k ((j, c) ∷ es) start =
    IsNewest-cons as_of k j c es start _
      (newest-IsNewest as_of k es (if list_beq k j then better as_of c start else start))

pub lookup-IsNewest :
    (as_of : ℕ) (k : Chars) (es : List Entry)
    → IsNewest as_of k es none (lookup k (consider_all as_of es []))
unfolding lookup
lookup-IsNewest as_of k es =
    subst (IsNewest as_of k es none) (sym (lookup-consider_all as_of k es []))
      (newest-IsNewest as_of k es none)

-- What wins against every later entry stays.
newest-stays :
    (as_of : ℕ) (k : Chars) (es : List Entry) (c : Candidate)
    → All (λ e. k ≡ e.0 → e.1.last_modified ≤ as_of → e.1.last_modified ≤ c.last_modified) es
    → newest as_of k es (some c) ≡ some c
newest-stays as_of k [] c h = refl
newest-stays as_of k ((j, d) ∷ es) c h =
    ground (arith, h.0, list_beq_iff k j, newest-stays as_of k es c h.1)

newest-append :
    (as_of : ℕ) (k : Chars) (es fs : List Entry) (start : Option Candidate)
    → newest as_of k (es ++ fs) start ≡ newest as_of k fs (newest as_of k es start)
newest-append as_of k [] fs start = refl
newest-append as_of k (e ∷ es) fs start =
    newest-append as_of k es fs (if k == e.0 then better as_of e.1 start else start)

module _ (as_of : ℕ) (k : Chars) (es fs : List Entry) (c : Candidate) where
  first_of_newest :
      (r : Option Candidate)
      → newest as_of k es none ≡ r
      → IsNewest as_of k es none r
      → In (k, c) es
      → c.last_modified ≤ as_of
      → All (λ e. k ≡ e.0 → e.1.last_modified ≤ as_of → e.1.last_modified ≤ c.last_modified) fs
      → (b : Candidate) × (newest as_of k (es ++ fs) none ≡ some b)
        × In (k, b) es
        × (c.last_modified ≤ b.last_modified)
  first_of_newest none q h i fits below =
      let late = All-In (λ e. k ≡ e.0 → as_of < e.1.last_modified) es (k, c) h.1 i refl in
      absurd (omega arith)
  first_of_newest (some b) q h i fits below =
      let newer : c.last_modified ≤ b.last_modified =
        All-In (λ e. k ≡ e.0 → e.1.last_modified ≤ as_of → e.1.last_modified ≤ b.last_modified) es
          (k, c) h.1 i refl fits in
      (
        b,
        newest-append as_of k es fs none
            ∙ rw q (
                newest-stays as_of k fs b (All-map _ _ fs (λ e f p l. omega (arith, f p l)) below)),
        from_start h.0,
        newer,
      )
    where
      from_start : (none ≡ some b) ⊎ (In (k, b) es × (b.last_modified ≤ as_of)) → In (k, b) es
      from_start (inl e) = absurd (ground (arith, e))
      from_start (inr j) = j.0

-- Entries that come first keep the key unless a strictly newer one follows: if each of `fs` is at
-- most as new as some entry of `es`, then the candidate is one of `es`.
pub lookup-first :
    (as_of : ℕ) (k : Chars) (es fs : List Entry) (c : Candidate)
    → In (k, c) es
    → c.last_modified ≤ as_of
    → All (λ e. k ≡ e.0 → e.1.last_modified ≤ as_of → e.1.last_modified ≤ c.last_modified) fs
    → (b : Candidate) × (lookup k (consider_all as_of (es ++ fs) []) ≡ some b)
      × In (k, b) es
      × (c.last_modified ≤ b.last_modified)
unfolding lookup
lookup-first as_of k es fs c i fits below =
    let (b, q, j, le) =
      first_of_newest as_of k es fs c (newest as_of k es none) refl
        (newest-IsNewest as_of k es none) i fits below in
    (b, lookup-consider_all as_of k (es ++ fs) [] ∙ q, j, le)
