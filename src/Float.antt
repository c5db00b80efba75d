-- ===== src/Float.antt =====
-- Python's floats where the program compares times: an abstract type with the operations that the
-- code calls. Nothing is assumed of them.
pub mod Seconds
use agent_fault_lab.Prelude.{ℕ, Bool, if◌then◌else◌}

pub record Float (F : Type 0) : Type 0 where
  pub is_finite : F → Bool
  pub leb : F → F → Bool
  pub ltb : F → F → Bool
  pub add : F → F → F
  pub sub : F → F → F
  pub zero : F
  -- 3600, the longest grant
  pub hour : F
  -- the constants of the code, in tenths
  pub tenths : ℕ → F

module _ {F : Type 0} (float : Float F) where
  -- Python's `max(a, b)` and `min(a, b)`, which give the first of equal values
  abbrev pub max : F → F → F
  max a b = if float.ltb a b then b else a

  abbrev pub min : F → F → F
  min a b = if float.ltb b a then b else a
