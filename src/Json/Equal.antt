-- ===== src/Json/Equal.antt =====
-- Python's `==` on JSON values: `True` is 1, and the order of an object's fields does not count.
-- A float is compared by its text.
use agent_fault_lab.Prelude.{
  ℕ, suc, Bool, true, false, ◌&&◌, none, some, List, [], ◌∷◌, ◌==◌, eqb, to_nat,
}
use agent_fault_lab.Json.{
  Json, null, bool, int, negint, float, str, arr, obj, Items, nil, cons, Fields, end, field,
  get_field,
}
use agent_fault_lab.Model.{ToolCall}

abbrev pub same_number : Json → Json → Bool
same_number (bool a) (bool b) = eqb (to_nat a) (to_nat b)
same_number (bool a) (int n) = eqb (to_nat a) n
same_number (int n) (bool a) = eqb n (to_nat a)
same_number (int m) (int n) = eqb m n
same_number (negint m) (negint n) = eqb m n
same_number (float s) (float t) = s == t
same_number _ _ = false

abbrev pub field_count : Fields → ℕ
field_count end = 0
field_count (field k v fs) = suc (field_count fs)

unfoldable mutual
  pub json_eq : Json → Json → Bool
  json_eq null null = true
  json_eq (str s) (str t) = s == t
  json_eq (arr xs) (arr ys) = items_eq xs ys
  json_eq (obj fs) (obj gs) = eqb (field_count fs) (field_count gs) && fields_in fs gs
  json_eq v w = same_number v w

  pub items_eq : Items → Items → Bool
  items_eq nil nil = true
  items_eq (cons v vs) (cons w ws) = json_eq v w && items_eq vs ws
  items_eq _ _ = false

  -- every field of the first stands in the second, with an equal value
  pub fields_in : Fields → Fields → Bool
  fields_in end gs = true
  fields_in (field k v fs) gs =
      elim (get_field k gs) [ none ↦ false | some w ↦ json_eq v w ] && fields_in fs gs

unfoldable pub call_eq : ToolCall → ToolCall → Bool
unfolding json_eq
call_eq a b = a.name == b.name && json_eq a.arguments b.arguments

unfoldable pub calls_eq : List ToolCall → List ToolCall → Bool
unfolding call_eq
calls_eq [] [] = true
calls_eq (a ∷ rest) (b ∷ others) = call_eq a b && calls_eq rest others
calls_eq _ _ = false
