-- ===== src/Tests/Names.antt =====
-- Names of resources and cleanups at concrete inputs.
use backup_tool.Base.{
  ℕ, suc, ◌≡◌, ◌↔◌, ◌∙◌, ap, refl, Bool, false, ◌||◌, Option, none, some, List, [], ◌∷◌, ◌++◌, ◌==◌,
  list_eq, arith,
}
use backup_tool.Base.Text.{Chars, codes}
use backup_tool.Errors.{Errors, IsLawful, AggregatesAll, is_any}
use backup_tool.Helpers.{clean_name}
use backup_tool.Cleanup.{Cleanup, CleanupContext, build_context, run_error}
use backup_tool.Cleanup.Laws.{run_error-keeps_original}

abbrev long_name : Chars
long_name = codes "Event_2024:vault.warden-"

cleans : clean_name long_name ≡ codes "event-2024-vault-warden"
unfolding clean_name
cleans = refl

-- Errors as lists of codes, of which an aggregate has all.
abbrev has_code : List ℕ → List ℕ → Bool
has_code [] t = false
has_code (x ∷ xs) t = (x ∷ []) == t || has_code xs t

abbrev all_codes : List ℕ → List (List ℕ) → List ℕ
all_codes e [] = e
all_codes e (f ∷ es) = e ++ all_codes f es

abbrev coded : Errors
coded = record {
  Error = List ℕ;
  errorf = λ _. 1 ∷ [];
  wrap_error = λ e _. e;
  aggregate_error = all_codes;
  is = has_code;
}

has_code-append : (e f t : List ℕ) → has_code (e ++ f) t ≡ (has_code e t || has_code f t)
has_code-append [] f t = refl
has_code-append (x ∷ e) f t = ground (arith, has_code-append e f t)

coded-IsLawful : IsLawful coded
coded-IsLawful = record { is_wrap = λ e t m. refl }

coded-AggregatesAll : AggregatesAll coded
coded-AggregatesAll e [] t = ground arith
coded-AggregatesAll e (f ∷ es) t =
    has_code-append e (all_codes f es) t ∙ ap (λ b. has_code e t || b) (coded-AggregatesAll f es t)

-- A cleanup that counts its runs in the world and fails, after an original error.
abbrev counting : CleanupContext → ℕ → Option (List ℕ) × ℕ
counting _ n = (some (7 ∷ []), suc n)

abbrev original : Option (List ℕ)
original = some (3 ∷ [])

abbrev deferred : Cleanup coded ℕ
deferred = record {
  cleanup_logic = some counting;
  on_err_message = "failed to clean up";
  original_err = some original;
  parent_prefix = none;
  timeout = 0;
}

-- Both errors are returned.
both_returned : (run_error deferred 4).0 ≡ some (3 ∷ 7 ∷ [])
unfolding run_error
both_returned = refl

run_error-keeps_original_example :
    ((run_error deferred 4).1 ≡ some (run_error deferred 4).0)
    × (((run_error deferred 4).0 ≡ none)
        ↔ ((original ≡ none) × ((counting (build_context deferred) 4).0 ≡ none)))
    × ((t : List ℕ)
        → is_any coded (run_error deferred 4).0 t
          ≡ (is_any coded original t || is_any coded (counting (build_context deferred) 4).0 t))
run_error-keeps_original_example =
    run_error-keeps_original deferred coded-IsLawful coded-AggregatesAll counting original 4 refl
      refl
