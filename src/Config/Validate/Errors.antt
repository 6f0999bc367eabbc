-- ===== src/Config/Validate/Errors.antt =====
-- internal/config/validate.go: the tests of a function that returns at the first one that holds.
use rillan.Base.{
  ℕ, Bool, not, if◌then◌else◌, Option, none, some, List, [], ◌∷◌, is_empty, any, Str, str_eq,
  trim_space, normalize_string,
}
use rillan.Config.Resolve.{ResolveError}

pub data ValidationError : Type 0 where
  field : Str → ValidationError
  item : Str → ℕ → ValidationError
  resolution : ResolveError → ValidationError
  unsupported_mode : ValidationError

-- The tests of a function that returns at the first one that holds, each with its error.
abbrev pub Checks : Type 0
Checks = List (Bool × ValidationError)

unfoldable pub first_error : Checks → Option ValidationError
first_error [] = none
first_error ((failed, err) ∷ checks) =
    let rest = first_error checks in if failed then some err else rest

-- One function's tests before another's.
abbrev pub before : Option ValidationError → Option ValidationError → Option ValidationError
before (some err) rest = some err
before none rest = rest

abbrev pub is_blank : Str → Bool
is_blank s = is_empty (trim_space s)

-- Whether a normalised text is none of some texts.
abbrev pub is_other : Str → List Str → Bool
is_other s options = not (any (λ o. str_eq (normalize_string s) o) options)
