-- ===== src/Diff/Table.antt =====
-- The loops of `commonTokens` (app/webui/app.js) that fill the table of lengths.
use vocagateway.Base.{
  ℕ, zero, suc, ◌+◌, ◌≤◌, ◌<◌, ◌≡◌, refl, sym, ap, ◌∙◌, ◌⊎◌, inl, inr, List, some, Text, text_eq,
  length, get_elem?, drop, replicate, arith, length-replicate, get_elem?-replicate, get_elem?_of_lt,
  drop-eq-cons, length-drop, max, if◌then◌else◌,
}
use native.Mathlib.Decide.{ℕ_discrete}
use native.Mathlib.Numerals.{add-one}
use vocagateway.Diff.Common.{Table, read, write, empty_table, fill_cell, fill_row, fill_rows}
use vocagateway.Diff.Subsequence.{lcs, lcs-le-length}
use vocagateway.Diff.Cells.{HasSize, write_lem}

module _ (before after : List Text) where
  -- What the cell `(k, l)` is to hold: the length for the suffixes from `k` and from `l`.
  abbrev pub suffix_lcs : ℕ → ℕ → ℕ
  suffix_lcs k l = lcs (drop k before) (drop l after)

  -- The cells that are final when the loops have come down to `(i, j)`: the last column, the rows
  -- below, and row `i` from column `j` on.
  abbrev IsDone : ℕ → ℕ → ℕ → ℕ → Type 0
  IsDone i j k l = (length after ≤ l) ⊎ ((i < k) ⊎ ((k ≡ i) × (j ≤ l)))

  pub record IsFilled (i j : ℕ) (table : Table) : Type 0 where
    pub size : HasSize (length before + 1) (length after + 1) table
    pub cells :
        (k l : ℕ)
        → k ≤ length before
        → l ≤ length after
        → IsDone i j k l
        → read table k l ≡ some (suffix_lcs k l)

  empty_table-IsFilled : IsFilled (length before) 0 (empty_table before after)
  unfolding empty_table read
  empty_table-IsFilled = record {
    size = record {
      row_count = length-replicate _ _;
      row_at = λ i h.
          (replicate (length after + 1) 0, get_elem?-replicate _ i _ h, length-replicate _ 0);
    };
    cells = λ k l hk hl h.
        rw
          (
            get_elem?-replicate (length before + 1) k (replicate {A = ℕ} (length after + 1) 0)
                (omega arith),
            get_elem?-replicate {A = ℕ} (length after + 1) l 0 (omega arith),
          )
          (ap some (sym (zero_at k l hk hl h)));
  }
    where
      zero_at :
          (k l : ℕ)
          → k ≤ length before
          → l ≤ length after
          → IsDone (length before) 0 k l
          → suffix_lcs k l ≡ 0
      zero_at k l hk hl h = omega (
        arith,
        lcs-le-length (drop k before) (drop l after),
        length-drop k before,
        length-drop l after,
      )

  suffix_lcs_lem :
      (i j : ℕ) (x y : Text)
      → get_elem? before i ≡ some x
      → get_elem? after j ≡ some y
      → suffix_lcs i j ≡ (
          if text_eq x y
          then suffix_lcs (suc i) (suc j) + 1
          else max (suffix_lcs (suc i) j) (suffix_lcs i (suc j)))
  unfolding lcs
  suffix_lcs_lem i j x y ex ey = rw (drop-eq-cons before i x ex, drop-eq-cons after j y ey) refl

  -- The lengths fit in 32 bits, since the texts have at most that many tokens.
  module _ (fits : length before < 4294967296) where
    write-IsFilled :
        (i j : ℕ) (table : Table)
        → i < length before
        → j < length after
        → IsFilled i (suc j) table
        → (t : Table) × (write table i j (suffix_lcs i j) ≡ some t) × IsFilled i j t
    write-IsFilled i j table hi hj f =
        let bound : suffix_lcs i j < 4294967296 =
          omega (arith, lcs-le-length (drop i before) (drop j after), length-drop i before) in
        let (t, e, size, w) =
          write_lem f.size i j (suffix_lcs i j) (omega arith) (omega arith) bound in
        (
          t,
          e,
          record {
            size = size;
            cells = λ k l hk hl h. elim (ℕ_discrete k i) [
              | no p ↦ w.elsewhere k l (inl p) ∙ f.cells k l hk hl (ground arith)
              | yes p ↦ elim (ℕ_discrete l j) [
                | no q ↦ w.elsewhere k l (inr q) ∙ f.cells k l hk hl (ground arith)
                | yes q ↦ rw (p, q) w.here
              ]
            ];
          },
        )

    fill_cell-IsFilled :
        (i j : ℕ) (table : Table)
        → i < length before
        → j < length after
        → IsFilled i (suc j) table
        → (t : Table) × (fill_cell before after i j table ≡ some t) × IsFilled i j t
    unfolding fill_cell
    fill_cell-IsFilled i j table hi hj f =
        let (x, ex) = get_elem?_of_lt before i hi in
        let (y, ey) = get_elem?_of_lt after j hj in
        let (t, e, filled) = write-IsFilled i j table hi hj f in
        (
          t,
          rw
              (
                ex,
                ey,
                add-one i,
                add-one j,
                f.cells (suc i) (suc j) (omega arith) (omega arith) (inr (inl (omega arith))),
                f.cells (suc i) j (omega arith) (omega arith) (inr (inl (omega arith))),
                f.cells i (suc j) (omega arith) (omega arith) (inr (inr (refl, omega arith))),
              )
              (ground (arith, suffix_lcs_lem i j x y ex ey, e)),
          filled,
        )

    fill_row-IsFilled :
        (i j : ℕ) (table : Table)
        → i < length before
        → j ≤ length after
        → IsFilled i j table
        → (t : Table) × (fill_row before after i j table ≡ some t) × IsFilled i 0 t
    unfolding fill_row
    fill_row-IsFilled i zero table hi hj f = (table, refl, f)
    fill_row-IsFilled i (suc j) table hi hj f =
        let (t, e, g) = fill_cell-IsFilled i j table hi hj f in
        let (u, e', g') = fill_row-IsFilled i j t hi (omega arith) g in (u, rw e e', g')

    -- The loops succeed, and leave every cell as it is to be.
    fill_rows-IsFilled :
        (i : ℕ) (table : Table)
        → i ≤ length before
        → IsFilled i 0 table
        → (t : Table) × (fill_rows before after i table ≡ some t) × IsFilled 0 0 t
    unfolding fill_rows
    fill_rows-IsFilled zero table hi f = (table, refl, f)
    fill_rows-IsFilled (suc i) table hi f =
        let (t, e, g) =
          fill_row-IsFilled i (length after) table hi (omega arith) (next_row i table f) in
        let (u, e', g') = fill_rows-IsFilled i t (omega arith) g in (u, rw e e', g')
      where
        next_row :
            (i : ℕ) (table : Table) → IsFilled (suc i) 0 table → IsFilled i (length after) table
        next_row i table f = record {
          size = f.size;
          cells = λ k l hk hl h. f.cells k l hk hl (ground arith);
        }

    -- Filled in full, the table holds the length for every pair of suffixes.
    pub fill_rows-eq-lcs :
        (t : Table) × (fill_rows before after (length before) (empty_table before after) ≡ some t)
        × ((k l : ℕ)
            → k ≤ length before
            → l ≤ length after
            → read t k l ≡ some (lcs (drop k before) (drop l after)))
    fill_rows-eq-lcs =
        let (t, e, f) =
          fill_rows-IsFilled (length before) (empty_table before after) (omega arith)
            empty_table-IsFilled in
        (t, e, λ k l hk hl. f.cells k l hk hl (ground arith))
