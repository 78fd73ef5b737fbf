-- ===== src/Diff/Cells.antt =====
-- The cells of the table of `commonTokens` (app/webui/app.js).
use vocagateway.Base.{
  ℕ, ◌<◌, ◌≡◌, ◌≢◌, sym, ap, ◌∙◌, ◌⊎◌, List, some, length, get_elem?, set, arith, length-set,
  get_elem?-set_self, get_elem?-set_ne,
}
use native.Mathlib.Decide.{ℕ_discrete}
use vocagateway.Diff.Common.{Table, read, write}

-- A table of `rows` rows of `columns` cells each.
pub record HasSize (rows columns : ℕ) (table : Table) : Type 0 where
  pub row_count : length table ≡ rows
  pub row_at :
      (i : ℕ) → i < rows → (row : List ℕ) × (get_elem? table i ≡ some row) × (length row ≡ columns)

-- What a write of `v` at `(i, j)` makes of a table.
pub record Written (table : Table) (i j v : ℕ) (after : Table) : Type 0 where
  pub here : read after i j ≡ some v
  pub elsewhere : (k l : ℕ) → (k ≢ i) ⊎ (l ≢ j) → read after k l ≡ read table k l

module _ {rows columns : ℕ} {table : Table} (size : HasSize rows columns table) where
  set-HasSize :
      (i : ℕ) (row : List ℕ)
      → i < rows
      → length row ≡ columns
      → HasSize rows columns (set table i row)
  set-HasSize i row h n = record {
    row_count = length-set table i row ∙ size.row_count;
    row_at = λ k hk. elim (ℕ_discrete k i) [
      | yes e ↦ (row, rw e (get_elem?-set_self table i row (omega (arith, size.row_count))), n)
      | no ne ↦
          let (old, e, m) = size.row_at k hk in
          (old, get_elem?-set_ne table i k row (λ p. ne (sym p)) ∙ e, m)
    ];
  }

  set-Written :
      (i j v : ℕ) (row : List ℕ)
      → i < rows
      → j < columns
      → get_elem? table i ≡ some row
      → length row ≡ columns
      → Written table i j v (set table i (set row j v))
  unfolding read
  set-Written i j v row hi hj e n =
      let here = get_elem?-set_self table i (set row j v) (omega (arith, size.row_count)) in
      record {
        here = rw here (get_elem?-set_self row j v (omega arith));
        elsewhere = λ k l differ. elim (ℕ_discrete k i) [
          | yes p ↦ rw (p, here, e) (get_elem?-set_ne row j l v (λ q. ground (arith, differ)))
          | no ne ↦ rw (get_elem?-set_ne table i k (set row j v) (λ p. ne (sym p)))
        ];
      }

  -- A write within the table of a number of at most 32 bits succeeds, keeps the size, and changes
  -- that cell only.
  pub write_lem :
      (i j v : ℕ)
      → i < rows
      → j < columns
      → v < 4294967296
      → (after : Table) × (write table i j v ≡ some after)
        × HasSize rows columns after
        × Written table i j v after
  unfolding write
  write_lem i j v hi hj hv =
      let (row, e, n) = size.row_at i hi in
      (
        set table i (set row j v),
        rw e (ap (λ (w : ℕ). some (set table i (set row j w))) (omega arith)),
        set-HasSize i (set row j v) hi (length-set row j v ∙ n),
        set-Written i j v row hi hj e n,
      )
