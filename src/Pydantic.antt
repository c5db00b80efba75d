-- ===== src/Pydantic.antt =====
-- What the records of the program take from pydantic's `BaseModel` under
-- `ConfigDict(extra="forbid", strict=True)`: the reading of an object by the names of its fields.
-- The package is not part of the repository, so `required` is a parameter of all that validates.
pub mod Exact
use agent_fault_lab.Prelude.{String, ◌≡◌, Bool, Option, none, some, List, map}
use agent_fault_lab.Json.{Json, get, null, bool, str}

-- `required names value` is the values of the named fields, in order, where `value` is an object
-- that has exactly these fields, all of them required.
pub record Pydantic : Type 0 where
  pub required : List String → Json → Option (List Json)
  pub required_get :
      (names : List String) (value : Json) (values : List Json)
      → required names value ≡ some values
      → map (λ name. get name value) names ≡ map some values

-- the strict reading of `str`, `bool` and `str | None`
abbrev pub strict_str : Json → Option String
strict_str (str s) = some s
strict_str _ = none

abbrev pub strict_bool : Json → Option Bool
strict_bool (bool b) = some b
strict_bool _ = none

abbrev pub optional_str : Json → Option (Option String)
optional_str null = some none
optional_str (str s) = some (some s)
optional_str _ = none
