-- ===== src/Exceptions.antt =====
-- The exceptions that the modelled code raises and catches. A function that may raise returns a
-- `Result`; one that also changes state returns the state beside it, since what was done before a
-- raise stays done.
use agent_fault_lab.Prelude.{String, ◌≡◌, refl, ap, ◌⊎◌, inl, inr, Bool, true, false}

-- contracts.py, `ContractStage`
pub data ContractStage : Type 0 where
  syntax schema request : ContractStage

pub data Exception : Type 0 where
  value_error : String → Exception
  operation_conflict : Exception
  contract_error : ContractStage → Exception
  validation_error : Exception
  -- any `sqlite3.Error`
  sqlite_error : String → Exception
  file_exists : Exception
  delivery_unavailable : Exception
  provider_error : String → Exception
  assertion_error : Exception
  -- no `ValueError`
  recursion_error : Exception

pub data Result {ℓ} (A : Type ℓ) : Type ℓ where
  ok : A → Result A
  raised : Exception → Result A

-- `if test: raise e`
abbrev pub raise_if : Bool → Exception → Result (Unit {0})
raise_if true e = raised e
raise_if false e = ok tt

infixl 5 ◌>>=◌ ◌>>◌
-- What follows a call runs only if the call returns.
abbrev pub ◌>>=◌ {ℓ μ} : {V : Type ℓ} {W : Type μ} → Result V → (V → Result W) → Result W
raised e >>= rest = raised e
ok value >>= rest = rest value

abbrev pub ◌>>◌ {ℓ} : {W : Type ℓ} → Result (Unit {0}) → Result W → Result W
check >> rest = check >>= λ done. rest

-- Code that changes a state `S` and may raise: the state comes back on both ways out.
abbrev pub Action {ℓ κ} : Type ℓ → Type κ → Type (ℓ ⊔ κ)
Action S A = S → Result A × S

abbrev pub resume {ℓ κ μ} :
    {S : Type ℓ} {A : Type κ} {B : Type μ} → (A → Action S B) → Result A → Action S B
resume f (ok a) s = f a s
resume f (raised e) s = (raised e, s)

abbrev pub and_then {ℓ κ μ} :
    {S : Type ℓ} {A : Type κ} {B : Type μ} → Action S A → (A → Action S B) → Action S B
and_then m f s = resume f (m s).0 (m s).1

-- a bind that returns
pub >>=-eq-ok {ℓ κ} :
    {V : Type ℓ} {W : Type κ} (call : Result V) (rest : V → Result W) {w : W}
    → (call >>= rest) ≡ ok w
    → (v : V) × (call ≡ ok v) × (rest v ≡ ok w)
>>=-eq-ok (raised e) rest h = cc
>>=-eq-ok (ok v) rest h = (v, refl, h)

pub >>=-eq-raised {ℓ κ} :
    {V : Type ℓ} {W : Type κ} (call : Result V) (rest : V → Result W) {e : Exception}
    → (call >>= rest) ≡ raised e
    → (call ≡ raised e) ⊎ ((v : V) × (call ≡ ok v) × (rest v ≡ raised e))
>>=-eq-raised (raised x) rest h = inl (cc h)
>>=-eq-raised (ok v) rest h = inr (v, refl, h)

pub Result-cases {ℓ} :
    {A : Type ℓ} (r : Result A) → ((a : A) × (r ≡ ok a)) ⊎ ((e : Exception) × (r ≡ raised e))
Result-cases (ok a) = inl (a, refl)
Result-cases (raised e) = inr (e, refl)

pub and_then-eq_ok {ℓ κ μ} :
    {S : Type ℓ} {A : Type κ} {B : Type μ} (m : Action S A) (f : A → Action S B) (s s' : S) {b : B}
    → and_then m f s ≡ (ok b, s')
    → (a : A) × (s1 : S) × (m s ≡ (ok a, s1)) × (f a s1 ≡ (ok b, s'))
and_then-eq_ok {S = S} {A = A} m f s s' {b = b} h = go (m s) refl h
  where
    go :
        (p : Result A × S)
        → m s ≡ p
        → resume f p.0 p.1 ≡ (ok b, s')
        → (a : A) × (s1 : S) × (m s ≡ (ok a, s1)) × (f a s1 ≡ (ok b, s'))
    go (ok a, s1) e k = (a, s1, e, k)
    go (raised x, s1) e k = cc (ap (λ q. q.0) k)

-- A check that raises before the action leaves the state as it is.
abbrev pub check_first {ℓ κ} :
    {S : Type ℓ} {A : Type κ} → Result (Unit {0}) → Action S A → Action S A
check_first (ok _) m s = m s
check_first (raised e) m s = (raised e, s)

pub check_first-eq_ok {ℓ κ} :
    {S : Type ℓ} {A : Type κ} (check : Result (Unit {0})) (m : Action S A) (s s' : S) {a : A}
    → check_first check m s ≡ (ok a, s')
    → (check ≡ ok tt) × (m s ≡ (ok a, s'))
check_first-eq_ok (ok _) m s s' h = (refl, h)
check_first-eq_ok (raised e) m s s' h = cc (ap (λ p. p.0) h)
