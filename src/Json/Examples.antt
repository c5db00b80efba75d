-- ===== src/Json/Examples.antt =====
-- An object in an array that has one key twice.
use agent_fault_lab.Prelude.{◌≡◌, ◌↔◌, true}
use agent_fault_lab.Exceptions.{ok}
use agent_fault_lab.Json.{
  Json, Raw, raw_null, raw_bool, raw_arr, raw_nil, raw_cons, raw_obj, no_pair, pair, strict,
}
use agent_fault_lab.Json.Strict.{strict_iff, IsClean}

abbrev repeated : Raw
repeated =
    raw_arr (raw_cons (raw_obj (pair "id" (raw_bool true) (pair "id" raw_null no_pair))) raw_nil)

strict_iff_example : ((v : Json) × (strict repeated ≡ ok v)) ↔ IsClean repeated
strict_iff_example = strict_iff repeated
