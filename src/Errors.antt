-- ===== src/Errors.antt =====
-- What the program uses of its error library (github.com/gravitational/trace) and of `errors.Is`.
-- The library is not part of the repository, so it is a parameter: what a non-nil error holds is
-- unknown. Of `nil` the code relies on what that library documents: wrapping `nil` gives `nil`, and
-- an aggregate leaves `nil` out and is `nil` if nothing is left. Format arguments are left out.
use backup_tool.Base.{
  String, ◌≡◌, refl, ◌⊎◌, inl, inr, Bool, false, ◌||◌, Option, none, some, List, [], ◌∷◌,
}

pub record Errors : Type 1 where
  pub Error : Type 0
  -- trace.Errorf, trace.BadParameter, trace.NotFound
  pub errorf : String → Error
  -- trace.Wrap on an error that is not nil
  pub wrap_error : Error → String → Error
  -- trace.NewAggregate where the first error is not nil, with the others
  pub aggregate_error : Error → List Error → Error
  -- errors.Is
  pub is : Error → Error → Bool

-- What `errors.Is` documents of wrapped errors, which trace's errors support.
pub record IsLawful (E : Errors) : Type 0 where
  pub is_wrap : (e t : E.Error) (m : String) → E.is (E.wrap_error e m) t ≡ E.is e t

module _ (E : Errors) where
  -- Whether errors.Is finds the target in one of the errors.
  abbrev pub is_one_of : List E.Error → E.Error → Bool
  is_one_of [] t = false
  is_one_of (e ∷ es) t = E.is e t || is_one_of es t

  -- errors.Is on an error that may be nil, for a target that is not nil.
  abbrev pub is_any : Option E.Error → E.Error → Bool
  is_any none t = false
  is_any (some e) t = E.is e t

  -- What trace documents of an aggregate: errors.Is looks into each of its errors.
  abbrev pub AggregatesAll : Type 0
  AggregatesAll =
      (e : E.Error) (es : List E.Error) (t : E.Error)
      → E.is (E.aggregate_error e es) t ≡ (E.is e t || is_one_of es t)

-- The outcome of a Go function that returns a value and an error, of which one is nil.
pub data Result {ℓ} (X : Type 0) (A : Type ℓ) : Type ℓ where
  ok : A → Result X A
  err : X → Result X A

module _ (E : Errors) where
  -- trace.Wrap
  abbrev pub wrap : Option E.Error → String → Option E.Error
  wrap none m = none
  wrap (some e) m = some (E.wrap_error e m)

  abbrev pub non_nil : List (Option E.Error) → List E.Error
  non_nil [] = []
  non_nil (none ∷ es) = non_nil es
  non_nil (some e ∷ es) = e ∷ non_nil es

  abbrev pub aggregate_list : List E.Error → Option E.Error
  aggregate_list [] = none
  aggregate_list (e ∷ es) = some (E.aggregate_error e es)

  -- trace.NewAggregate
  abbrev pub new_aggregate : List (Option E.Error) → Option E.Error
  new_aggregate es = aggregate_list (non_nil es)

pub Result-cases {ℓ} :
    {X : Type 0} {A : Type ℓ} (r : Result X A) → ((a : A) × (r ≡ ok a)) ⊎ ((x : X) × (r ≡ err x))
Result-cases (ok a) = inl (a, refl)
Result-cases (err x) = inr (x, refl)
