-- ===== src/Pydantic/Exact.antt =====
-- A reading of objects that satisfies the law of `Pydantic`, for the examples: as many fields as
-- names, and a value for each name.
use agent_fault_lab.Prelude.{
  ℕ, suc, String, ◌≡◌, refl, ap, ◌∙◌, Bool, false, Option, none, some, List, [], ◌∷◌, map, eqb,
  length, if◌then◌else◌, inl, inr, Bool-cases,
}
use agent_fault_lab.Json.{Json, Fields, obj, end, field, get}
use agent_fault_lab.Pydantic.{Pydantic}

abbrev with_value : Option Json → Option (List Json) → Option (List Json)
with_value (some v) (some vs) = some (v ∷ vs)
with_value _ _ = none

abbrev read_values : List String → Json → Option (List Json)
read_values [] value = some []
read_values (name ∷ names) value = with_value (get name value) (read_values names value)

abbrev field_count : Fields → ℕ
field_count end = 0
field_count (field k v fs) = suc (field_count fs)

abbrev has_fields : ℕ → Json → Bool
has_fields n (obj fs) = eqb (field_count fs) n
has_fields n _ = false

abbrev read_exactly : List String → Json → Option (List Json)
read_exactly names value = if has_fields (length names) value then read_values names value else none

with_value-get :
    (v : Option Json) (vs : Option (List Json)) (values : List Json) (rest : List (Option Json))
    → ((ws : List Json) → (vs ≡ some ws) → (rest ≡ map some ws))
    → with_value v vs ≡ some values
    → v ∷ rest ≡ map some values
with_value-get none vs values rest h e = absurd (cc e)
with_value-get (some v) none values rest h e = absurd (cc e)
with_value-get (some v) (some ws) values rest h e =
    let same : (v ∷ ws) ≡ values = cc e in ap (λ us. some v ∷ us) (h ws refl) ∙ ap (map some) same

read_values-get :
    (names : List String) (value : Json) (values : List Json)
    → read_values names value ≡ some values
    → map (λ name. get name value) names ≡ map some values
read_values-get [] value values h = let same : [] ≡ values = cc h in ap (map some) same
read_values-get (name ∷ names) value values h =
    with_value-get (get name value) (read_values names value) values _ (read_values-get names value)
      h

pub read_exactly-get :
    (names : List String) (value : Json) (values : List Json)
    → read_exactly names value ≡ some values
    → map (λ name. get name value) names ≡ map some values
read_exactly-get names value values h = elim (Bool-cases (has_fields (length names) value)) [
  | inl e ↦ read_values-get names value values (rw e at h)
  | inr e ↦ absurd (cc (rw e at h))
]

abbrev pub exact : Pydantic
exact = record { required = read_exactly; required_get = read_exactly-get }
