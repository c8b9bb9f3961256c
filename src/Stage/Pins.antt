-- ===== src/Stage/Pins.antt =====
-- The shared consistency point: which instant phase 1 of the stage's set-up settles on.
use backup_tool.Base.{
  ℕ, ◌≤◌, ◌≡◌, ◌≢◌, true, none, some, List, [], ◌∷◌, All, contains, nat_eq, arith, Option-cases,
  inl, inr,
}
use backup_tool.Errors.{Errors, ok, err, Result-cases}
use backup_tool.Stage.Model.{Actions, State, earlier, before_points, before_point}

-- `c` is the earliest of the instants that are not zero, or zero if there is none.
abbrev pub IsEarliest : List ℕ → ℕ → Type 0
IsEarliest ts c = All (λ t. t ≢ 0 → (c ≢ 0) × (c ≤ t)) ts × (c ≢ 0 → contains ts c ≡ true)

abbrev fold_earlier : List ℕ → ℕ → ℕ
fold_earlier [] p = p
fold_earlier (t ∷ ts) p = fold_earlier ts (earlier t p)

fold_earlier-lower :
    (ts : List ℕ) (p : ℕ) → p ≢ 0 → (fold_earlier ts p ≢ 0) × (fold_earlier ts p ≤ p)
unfolding earlier
fold_earlier-lower [] p h = ground arith
fold_earlier-lower (t ∷ ts) p h = ground (arith, fold_earlier-lower ts (earlier t p))

fold_earlier-lower_each :
    (ts : List ℕ) (p : ℕ) → All (λ t. t ≢ 0 → (fold_earlier ts p ≢ 0) × (fold_earlier ts p ≤ t)) ts
unfolding earlier
fold_earlier-lower_each [] p = tt
fold_earlier-lower_each (t ∷ ts) p = (
  λ h. ground (arith, fold_earlier-lower ts (earlier t p)),
  fold_earlier-lower_each ts (earlier t p),
)

fold_earlier-mem :
    (ts : List ℕ) (p : ℕ) → fold_earlier ts p ≢ 0 → contains (p ∷ ts) (fold_earlier ts p) ≡ true
unfolding earlier
fold_earlier-mem [] p h = ground arith
fold_earlier-mem (t ∷ ts) p h = ground (arith, fold_earlier-mem ts (earlier t p))

fold_earlier-IsEarliest : (ts : List ℕ) → IsEarliest ts (fold_earlier ts 0)
fold_earlier-IsEarliest ts =
    (fold_earlier-lower_each ts 0, λ h. ground (arith, fold_earlier-mem ts 0 h))

module _ (E : Errors) {W Opts : Type 0} where
  -- The instants that the captures return, as phase 1 comes to them.
  abbrev pub pins : Actions E W Opts → W → List ℕ
  pins [] w = []
  pins (a ∷ actions) w = elim a.action.before_consistency_point [
    | none ↦ pins actions w
    | some m ↦ let (r, w') = m w in elim r [ ok t ↦ t ∷ pins actions w' | err e ↦ [] ]
  ]

  before_points-fold :
      (actions : Actions E W Opts) (p : ℕ) (s s' : State E W Opts) (c : ℕ)
      → before_points E actions p s ≡ (ok c, s')
      → c ≡ fold_earlier (pins actions s.world) p
  unfolding before_points
  before_points-fold [] p s s' c h = ground arith
  before_points-fold (a ∷ actions) p s s' c h =
      elim (Option-cases a.action.before_consistency_point) [
        | inl absent ↦ ground (arith, before_points-fold actions p s s' c)
        | inr (m, has) ↦ elim (Result-cases (m s.world).0) [
          | inl (t, pinned) ↦ ground (
            arith,
            before_points-fold actions (earlier t p)
                (record { world = (m s.world).1; calls = before_point a.name ∷ s.calls }) s' c,
          )
          | inr (x, failed) ↦ ground arith
        ]
      ]

  -- If phase 1 succeeds, the point that it settles on is the earliest of the non-zero instants that
  -- the captures pinned, and no point (zero) if and only if none pinned one.
  pub before_points-IsEarliest :
      (actions : Actions E W Opts) (s s' : State E W Opts) (c : ℕ)
      → before_points E actions 0 s ≡ (ok c, s')
      → IsEarliest (pins actions s.world) c
  before_points-IsEarliest actions s s' c h =
      rw (before_points-fold actions 0 s s' c h) (fold_earlier-IsEarliest (pins actions s.world))
