-- ===== src/Wal/Waiting.antt =====
-- When the fence is reported as archived.
use backup_tool.Base.{
  ℕ, zero, suc, arith, ◌≡◌, ◌≢◌, ◌↔◌, refl, Bool, true, false, not, ◌&&◌, [], ◌∷◌, ◌==◌, list_eq,
  nat_eq, list_beq, String, Bool-cases, ◌⊎◌, subst, inl, inr,
}
use backup_tool.Base.Text.{Chars}
use backup_tool.Errors.{Errors, ok}
use backup_tool.Exec.{Exec, wrapping}
use backup_tool.Exec.Inversion.{bind-ok, wrapping-ok}
use backup_tool.Wal.{
  ArchiverStatus, at_or_past, has_archived, has_failed, poll_round, query_archiver_status,
  wait_for_wal_archive,
}

-- The last archived segment is there and at or past the target.
abbrev pub IsReported : Chars → ArchiverStatus → Type 0
IsReported target s = (s.archived ≢ []) × (at_or_past s.archived target ≡ true)

-- The last attempt failed, at or past the target.
abbrev pub IsFailing : Chars → ArchiverStatus → Type 0
IsFailing target s = (s.failing ≡ true) × (s.failed ≢ []) × (at_or_past s.failed target ≡ true)

named_and_iff : (a : Chars) (b : Bool) → ((not (a == []) && b) ≡ true) ↔ ((a ≢ []) × (b ≡ true))
unfolding list_beq
named_and_iff [] b = (λ h. absurd (ground (arith, h)), λ p. absurd (p.0 refl))
named_and_iff (c ∷ cs) b = (λ h. (λ e. absurd (ground (arith, e)), h), λ p. p.1)

has_archived_iff :
    (target : Chars) (s : ArchiverStatus) → (has_archived target s ≡ true) ↔ IsReported target s
unfolding has_archived
has_archived_iff target s = named_and_iff s.archived (at_or_past s.archived target)

and_iff : (a b : Bool) → ((a && b) ≡ true) ↔ ((a ≡ true) × (b ≡ true))
and_iff true b = (λ h. (refl, h), λ p. p.1)
and_iff false b = (λ h. absurd (ground (arith, h)), λ p. p.0)

has_failed_iff :
    (target : Chars) (s : ArchiverStatus) → (has_failed target s ≡ true) ↔ IsFailing target s
unfolding has_failed
has_failed_iff target s =
    let (to, from) = named_and_iff s.failed (at_or_past s.failed target) in
    let (both, back) = and_iff s.failing (not (s.failed == []) && at_or_past s.failed target) in
    (λ h. let (f, rest) = both h in (f, (to rest).0, (to rest).1), λ p. back (p.0, from (p.1, p.2)))

module _ {P : Type 0} {b : Bool} (decides : (b ≡ true) ↔ P) where
  is_false : ¬ P → b ≡ false
  is_false never = elim (Bool-cases b) [ inl e ↦ absurd (never (decides.0 e)) | inr e ↦ e ]

  refuted : b ≡ false → ¬ P
  refuted e p = absurd (ground (arith, e, decides.1 p))

module _ (E : Errors) {W : Type 0} (run : String → Exec E.Error W Chars) (expired : E.Error) where
  -- The archiver reports the segment within the rounds, and no failure at or past it before.
  pub data Archived (target : Chars) : ℕ → W → W → Type 0 where
    reported :
        (n : ℕ) (s : ArchiverStatus) (w w' : W)
        → query_archiver_status E run expired w ≡ (ok s, w')
        → IsReported target s
        → Archived target n w w'
    awaited :
        (n : ℕ) (s : ArchiverStatus) (w w' w'' : W)
        → query_archiver_status E run expired w ≡ (ok s, w')
        → ¬ IsReported target s
        → ¬ IsFailing target s
        → Archived target n w' w''
        → Archived target (suc n) w w''

  module _ (target : Chars) where
    pub Archived-wait :
        {n : ℕ} {w w' : W}
        → Archived target n w w'
        → wait_for_wal_archive E run expired n target w ≡ (ok tt, w')
    unfolding wait_for_wal_archive poll_round
    Archived-wait (reported zero s w w' q r) = rw q (rw ((has_archived_iff target s).1 r) refl)
    Archived-wait (reported (suc n) s w w' q r) = rw q (rw ((has_archived_iff target s).1 r) refl)
    Archived-wait (awaited n s w w' w'' q r f a) = rw q (
        rw (is_false (has_archived_iff target s) r)
          (rw (is_false (has_failed_iff target s) f) (Archived-wait a)))

    poll_round-ok :
        (s : ArchiverStatus) (next : Exec E.Error W (Unit {0})) (w w' : W)
        → poll_round E run expired target s next w ≡ (ok tt, w')
        → ((has_archived target s ≡ true) × (w ≡ w'))
          ⊎ ((has_archived target s ≡ false)
              × (has_failed target s ≡ false)
              × (next w ≡ (ok tt, w')))
    unfolding poll_round
    poll_round-ok s next w w' h = ground (arith, h)

    pub wait-Archived :
        (n : ℕ) (w w' : W)
        → wait_for_wal_archive E run expired n target w ≡ (ok tt, w')
        → Archived target n w w'
    unfolding wait_for_wal_archive
    wait-Archived zero w w' h =
        let (s, w₁, q, rest) =
          bind-ok (wrapping E _ (query_archiver_status E run expired)) _ w tt w' h in
        let q' = wrapping-ok E _ (query_archiver_status E run expired) w s w₁ q in
        elim (poll_round-ok s _ w₁ w' rest) [
          | inl (e, same) ↦
              subst (Archived target zero w) same
                (reported zero s w w₁ q' ((has_archived_iff target s).0 e))
          | inr (e, f, timed_out) ↦ absurd (ground (arith, timed_out))
        ]
    wait-Archived (suc n) w w' h =
        let (s, w₁, q, rest) =
          bind-ok (wrapping E _ (query_archiver_status E run expired)) _ w tt w' h in
        let q' = wrapping-ok E _ (query_archiver_status E run expired) w s w₁ q in
        elim (poll_round-ok s _ w₁ w' rest) [
          | inl (e, same) ↦
              subst (Archived target (suc n) w) same
                (reported (suc n) s w w₁ q' ((has_archived_iff target s).0 e))
          | inr (e, f, later) ↦
              awaited n s w w₁ w' q' (refuted (has_archived_iff target s) e)
                (refuted (has_failed_iff target s) f) (wait-Archived n w₁ w' later)
        ]
