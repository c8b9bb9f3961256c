-- ===== src/Exec.antt =====
-- Go functions that change a state and return a value or an error: what was changed before an
-- error stays changed.
pub mod Ensures
pub mod Inversion
use backup_tool.Base.{String, Option, none, some}
use backup_tool.Errors.{Errors, Result, ok, err}

abbrev pub Exec : Type 0 → Type 0 → Type 0 → Type 0
Exec X S A = S → Result X A × S

module _ {X S : Type 0} where
  abbrev pub pure : {A : Type 0} → A → Exec X S A
  pure a s = (ok a, s)

  abbrev pub raise : {A : Type 0} → X → Exec X S A
  raise e s = (err e, s)

  abbrev pub lift : {A : Type 0} → Result X A → Exec X S A
  lift r s = (r, s)

  abbrev pub gets : {A : Type 0} → (S → A) → Exec X S A
  gets f s = (ok (f s), s)

  abbrev pub modify : (S → S) → Exec X S (Unit {0})
  modify f s = (ok tt, f s)

  abbrev pub and_then : {A B : Type 0} → Result X A → (A → Exec X S B) → Exec X S B
  and_then (ok a) f s = f a s
  and_then (err e) f s = (err e, s)

  infixl 5 ◌>>=◌ ◌>>◌
  abbrev pub ◌>>=◌ : {A B : Type 0} → Exec X S A → (A → Exec X S B) → Exec X S B
  ◌>>=◌ m f s = let (r, s') = m s in and_then r f s'

  abbrev pub ◌>>◌ : {A B : Type 0} → Exec X S A → Exec X S B → Exec X S B
  m >> n = m >>= λ _. n

-- A call that returns only an error.
abbrev pub from_error : {X : Type 0} → Option X → Result X (Unit {0})
from_error none = ok tt
from_error (some e) = err e

-- The error of a result.
abbrev pub error_of : {X A : Type 0} → Result X A → Option X
error_of (ok _) = none
error_of (err e) = some e

module _ (E : Errors) where
  abbrev pub wrap_result : {A : Type 0} → String → Result E.Error A → Result E.Error A
  wrap_result m (ok a) = ok a
  wrap_result m (err e) = err (E.wrap_error e m)

  -- `return trace.Wrap(err, ...)` where the call fails
  abbrev pub wrapping : {S A : Type 0} → String → Exec E.Error S A → Exec E.Error S A
  wrapping m call s = let (r, s') = call s in (wrap_result m r, s')
