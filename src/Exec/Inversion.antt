-- ===== src/Exec/Inversion.antt =====
-- What a successful call says of its parts.
use backup_tool.Base.{◌≡◌, refl, ap, String, arith}
use backup_tool.Errors.{Errors, Result, ok, err}
use backup_tool.Exec.{Exec, and_then, wrap_result, wrapping, ◌>>=◌}

module _ {X S A B : Type 0} where
  and_then-ok :
      (r : Result X A) (f : A → Exec X S B) (s : S) (b : B) (s'' : S)
      → and_then r f s ≡ (ok b, s'')
      → (a : A) × (r ≡ ok a) × (f a s ≡ (ok b, s''))
  and_then-ok (ok a) f s b s'' h = (a, refl, h)
  and_then-ok (err e) f s b s'' h = absurd (ground (arith, h))

  pub bind-ok :
      (m : Exec X S A) (f : A → Exec X S B) (s : S) (b : B) (s'' : S)
      → (m >>= f) s ≡ (ok b, s'')
      → (a : A) × (s' : S) × (m s ≡ (ok a, s')) × (f a s' ≡ (ok b, s''))
  bind-ok m f s b s'' h =
      let (a, e, rest) = and_then-ok (m s).0 f (m s).1 b s'' h in
      (a, (m s).1, ap (λ r. (r, (m s).1)) e, rest)

wrap_result-ok :
    (E : Errors) {A : Type 0} (r : Result E.Error A) (m : String) (a : A)
    → wrap_result E m r ≡ ok a
    → r ≡ ok a
wrap_result-ok E (ok b) m a h = h
wrap_result-ok E (err e) m a h = absurd (ground (arith, h))

module _ (E : Errors) {S A : Type 0} where
  pub wrapping-ok :
      (m : String) (call : Exec E.Error S A) (s : S) (a : A) (s' : S)
      → wrapping E m call s ≡ (ok a, s')
      → call s ≡ (ok a, s')
  wrapping-ok m call s a s' h =
      let e = wrap_result-ok E (call s).0 m a (ap (λ p. p.0) h) in
      ground (arith, e, ap (λ p. p.1) h)
