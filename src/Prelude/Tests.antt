-- ===== src/Prelude/Tests.antt =====
-- Boolean tests on the native numbers, the conditional, and splits that keep an equation.
use Prim.Native.Nat.{ℕ, ◌≤◌, ◌<◌, compare, Ordering}
use mathlib.Core.Path.{◌≡◌, refl}
use mathlib.Core.Logic.{◌↔◌, ◌⊎◌, inl, inr}
use mathlib.Core.Bool.{Bool, true, false, ◌&&◌}
use mathlib.Core.Option.{Option, none, some}
use native.Mathlib.Omega.{arith}

abbrev pub ltb : ℕ → ℕ → Bool
ltb a b = elim (compare a b) [ Ordering.lt ↦ true | _ ↦ false ]

abbrev pub leb : ℕ → ℕ → Bool
leb a b = elim (compare a b) [ Ordering.gt ↦ false | _ ↦ true ]

-- `==` on numbers; the operator itself compares texts
abbrev pub eqb : ℕ → ℕ → Bool
eqb a b = elim (compare a b) [ Ordering.eq ↦ true | _ ↦ false ]

infix 1 if◌then◌else◌
abbrev pub if◌then◌else◌ {ℓ} : {A : Type ℓ} → Bool → A → A → A
if true then x else y = x
if false then x else y = y

-- `int(b)`
abbrev pub to_nat : Bool → ℕ
to_nat true = 1
to_nat false = 0

pub eqb_iff : (a b : ℕ) → (eqb a b ≡ true) ↔ (a ≡ b)
eqb_iff a b = ground arith

pub Bool-cases : (b : Bool) → (b ≡ true) ⊎ (b ≡ false)
Bool-cases true = inl refl
Bool-cases false = inr refl

pub Option-cases {ℓ} : {A : Type ℓ} (o : Option A) → (o ≡ none) ⊎ ((a : A) × (o ≡ some a))
Option-cases none = inl refl
Option-cases (some a) = inr (a, refl)

pub leb_true : {a b : ℕ} → a ≤ b → leb a b ≡ true
leb_true h = ground arith

pub ltb_false : {a b : ℕ} → a ≤ b → ltb b a ≡ false
ltb_false h = ground arith

pub eqb_self : (a : ℕ) → eqb a a ≡ true
eqb_self a = ground arith

-- both parts of a conjunction that holds
pub &&_parts : (a b : Bool) → a && b ≡ true → (a ≡ true) × (b ≡ true)
&&_parts true b h = (refl, h)
&&_parts false b h = cc

pub to_nat-≤ : (b : Bool) → to_nat b ≤ 1
to_nat-≤ true = omega arith
to_nat-≤ false = omega arith

pub leb_le : {a b : ℕ} → leb a b ≡ true → a ≤ b
leb_le h = ground arith

pub leb_lt : {a b : ℕ} → leb a b ≡ false → b < a
leb_lt h = ground arith
