-- ===== src/Exec/Ensures.antt =====
-- Triples for calls that may fail, with a rule for each way to build one.
use backup_tool.Base.{String}
use backup_tool.Errors.{Errors, Result, ok, err}
use backup_tool.Exec.{Exec, and_then, wrap_result, wrapping, ◌>>=◌}

module _ {X S A : Type 0} where
  -- What holds of the outcome of a call: `Q` if it succeeds, `F` if it fails.
  abbrev pub Ends : (A → S → Type 0) → (S → Type 0) → Result X A × S → Type 0
  Ends Q F (ok a, s) = Q a s
  Ends Q F (err e, s) = F s

  -- From each state with `P`.
  pub record Ensures (P : S → Type 0) (m : Exec X S A) (Q : A → S → Type 0) (F : S → Type 0)
      : Type 0 where
    pub ends : (s : S) → P s → Ends Q F (m s)

module _ {X S A B : Type 0} {Q : A → S → Type 0} {R : B → S → Type 0} {F : S → Type 0} where
  Ends-and_then :
      (r : Result X A) (s : S) (f : A → Exec X S B)
      → Ends Q F (r, s)
      → ((a : A) → Ensures (Q a) (f a) R F)
      → Ends R F (and_then r f s)
  Ends-and_then (ok a) s f h rest = (rest a).ends s h
  Ends-and_then (err e) s f h rest = h

  pub Ensures-bind :
      {P : S → Type 0} (m : Exec X S A) (f : A → Exec X S B)
      → Ensures P m Q F
      → ((a : A) → Ensures (Q a) (f a) R F)
      → Ensures P (m >>= f) R F
  Ensures-bind m f first rest = record {
    ends = λ s p. let (r, s') = m s in Ends-and_then r s' f (first.ends s p) rest;
  }

module _ (E : Errors) {S A : Type 0} (Q : A → S → Type 0) (F : S → Type 0) where
  Ends-wrap :
      (m : String) (r : Result E.Error A) (s : S)
      → Ends Q F (r, s)
      → Ends Q F (wrap_result E m r, s)
  Ends-wrap m (ok a) s h = h
  Ends-wrap m (err e) s h = h

module _ (E : Errors) {S A : Type 0} {P : S → Type 0} {Q : A → S → Type 0} {F : S → Type 0} where
  pub Ensures-wrapping :
      (m : String) (call : Exec E.Error S A)
      → Ensures P call Q F
      → Ensures P (wrapping E m call) Q F
  Ensures-wrapping m call h = record {
    ends = λ s p. let (r, s') = call s in Ends-wrap E Q F m r s' (h.ends s p);
  }

-- A fact that holds before the call whatever the state is.
pub Ensures-given :
    {X S A : Type 0} {Fact : Type 0} {P : S → Type 0} {m : Exec X S A} {Q : A → S → Type 0}
    {F : S → Type 0}
    → (Fact → Ensures P m Q F)
    → Ensures (λ s. Fact × P s) m Q F
Ensures-given rest = record { ends = λ s p. (rest p.0).ends s p.1 }
