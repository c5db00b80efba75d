-- ===== src/Sql.antt =====
-- What the program uses of SQLite: rows found and changed by a text column, an INSERT that a
-- UNIQUE column may refuse, and a transaction that keeps nothing of a body that raises.
use agent_fault_lab.Prelude.{
  ℕ, suc, String, ◌≡◌, refl, Bool, true, false, Option, none, some, List, [], ◌∷◌, arith, ◌==◌,
  eq_iff, if◌then◌else◌, any, All,
}
use agent_fault_lab.Exceptions.{sqlite_error, Result, ok, raised}
use mathlib.Core.Option

module _ {ℓ} {R : Type ℓ} (column : R → String) where
  -- SELECT ... WHERE column = ?, `fetchone()`
  unfoldable pub find : String → List R → Option R
  find k [] = none
  find k (r ∷ rows) = if column r == k then some r else find k rows

  -- UPDATE ... WHERE column = ?
  unfoldable pub update : String → (R → R) → List R → List R
  update k f [] = []
  update k f (r ∷ rows) = (if column r == k then f r else r) ∷ update k f rows

  unfoldable pub has : String → List R → Bool
  has k rows = any (λ r. column r == k) rows

  -- SELECT count(*) ... WHERE column = ?
  unfoldable pub count : String → List R → ℕ
  count k [] = 0
  count k (r ∷ rows) = let rest = count k rows in if column r == k then suc rest else rest

  pub find-update :
      (k : String) (f : R → R) (same : (r : R) → column (f r) ≡ column r) (j : String)
      (rows : List R)
      → find j (update k f rows) ≡ (if k == j then Option.map f (find j rows) else find j rows)
  unfolding find update
  find-update k f same j [] = ground arith
  find-update k f same j (r ∷ rows) = ground (
    arith,
    same r,
    find-update k f same j rows,
    eq_iff k j,
    eq_iff (column r) k,
    eq_iff (column r) j,
  )

  pub find-none_of_has : (k : String) (rows : List R) → has k rows ≡ false → find k rows ≡ none
  unfolding find has
  find-none_of_has k [] h = refl
  find-none_of_has k (r ∷ rows) h = ground (arith, find-none_of_has k rows)

  -- Where no row has the key, what holds of every other row holds of all.
  pub All-of_has {κ} :
      {P : R → Type κ} (k : String) (rows : List R)
      → ((r : R) → (column r == k) ≡ false → P r)
      → has k rows ≡ false
      → All P rows
  unfolding has
  All-of_has k [] f h = tt
  All-of_has k (r ∷ rows) f h = (f r (ground arith), All-of_has k rows f (ground arith))

-- INSERT INTO ...; `clash` says that a UNIQUE column refuses the row.
unfoldable pub insert {ℓ} : {R : Type ℓ} → Bool → R → List R → Result (List R)
insert true r rows = raised (sqlite_error "UNIQUE constraint failed")
insert false r rows = ok (r ∷ rows)

pub insert-eq_ok {ℓ} :
    {R : Type ℓ} (clash : Bool) (r : R) (rows rows' : List R)
    → insert clash r rows ≡ ok rows'
    → rows' ≡ r ∷ rows
unfolding insert
insert-eq_ok true r rows rows' h = absurd (cc h)
insert-eq_ok false r rows rows' h = cc h

-- BEGIN ... COMMIT, with ROLLBACK where the body raises
unfoldable pub transaction {ℓ κ} :
    {D : Type ℓ} {A : Type κ} → (D → Result (A × D)) → D → Result A × D
transaction body d = elim (body d) [ ok (a, d') ↦ (ok a, d') | raised e ↦ (raised e, d) ]
