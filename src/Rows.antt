-- ===== src/Rows.antt =====
-- Rows in the order of a text column, rows kept by a test, and how many rows pass one.
use agent_fault_lab.Prelude.{
  ℕ, ◌+◌, String, ◌≡◌, refl, Bool, true, List, [], ◌∷◌, arith, length, All, to_nat, if◌then◌else◌,
}
use text.Mathlib.Text.{is_le}
use Prim.Native.String.{compare}

module _ {ℓ} {R : Type ℓ} where
  abbrev insert_by : (R → String) → R → List R → List R
  insert_by column r [] = r ∷ []
  insert_by column r (q ∷ rows) =
      if is_le (compare (column r) (column q)) then r ∷ q ∷ rows else q ∷ insert_by column r rows

  -- ORDER BY a text column, under the binary collation
  unfoldable pub sort_by : (R → String) → List R → List R
  sort_by column [] = []
  sort_by column (r ∷ rows) = insert_by column r (sort_by column rows)

  unfoldable pub keep : (R → Bool) → List R → List R
  keep p [] = []
  keep p (r ∷ rows) = let rest = keep p rows in if p r then r ∷ rest else rest

  unfoldable pub count_of : (R → Bool) → List R → ℕ
  count_of p [] = 0
  count_of p (r ∷ rows) = to_nat (p r) + count_of p rows

  count_of-insert_by :
      (p : R → Bool) (column : R → String) (r : R) (rows : List R)
      → count_of p (insert_by column r rows) ≡ to_nat (p r) + count_of p rows
  unfolding count_of
  count_of-insert_by p column r [] = refl
  count_of-insert_by p column r (q ∷ rows) = ground (arith, count_of-insert_by p column r rows)

  pub count_of-sort_by :
      (p : R → Bool) (column : R → String) (rows : List R)
      → count_of p (sort_by column rows) ≡ count_of p rows
  unfolding count_of sort_by
  count_of-sort_by p column [] = refl
  count_of-sort_by p column (r ∷ rows) =
      omega
        (arith, count_of-insert_by p column r (sort_by column rows), count_of-sort_by p column rows)

  pub length-keep : (p : R → Bool) (rows : List R) → length (keep p rows) ≡ count_of p rows
  unfolding keep count_of
  length-keep p [] = refl
  length-keep p (r ∷ rows) = ground (arith, length-keep p rows)

  pub keep_all : (p : R → Bool) (rows : List R) → ((r : R) → p r ≡ true) → keep p rows ≡ rows
  unfolding keep
  keep_all p [] h = refl
  keep_all p (r ∷ rows) h = ground (arith, h r, keep_all p rows h)

  pub count_of-same :
      (p q : R → Bool) (rows : List R)
      → All (λ r. p r ≡ q r) rows
      → count_of p rows ≡ count_of q rows
  unfolding count_of
  count_of-same p q [] h = refl
  count_of-same p q (r ∷ rows) h = rw (h.0, count_of-same p q rows h.1)
