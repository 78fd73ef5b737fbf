-- ===== src/Diff/Common.antt =====
-- `commonTokens` of app/webui/app.js: the table of longest common subsequences and the walk
-- through it.
use vocagateway.Base.{
  ℕ, zero, suc, ◌+◌, ◌%◌, max, Bool, true, false, ◌&&◌, List, Option, none, some, Text, text_eq,
  ltb, leb, if◌then◌else◌, ◌>>=◌, length, get_elem?, set, replicate,
}

abbrev pub diff_token_limit : ℕ
diff_token_limit = 400

-- `table`, an array of `Uint32Array`s. A read outside it, which would be an error or `undefined`,
-- is `none`.
abbrev pub Table : Type 0
Table = List (List ℕ)

unfoldable pub read : Table → ℕ → ℕ → Option ℕ
read table i j = do row ← get_elem? table i; get_elem? row j

-- An element of a `Uint32Array` keeps the low 32 bits.
unfoldable pub write : Table → ℕ → ℕ → ℕ → Option Table
write table i j v = do row ← get_elem? table i; some (set table i (set row j (v % 4294967296)))

pub record Kept : Type 0 where
  pub before : List Bool
  pub after : List Bool

module _ (before after : List Text) where
  unfoldable pub empty_table : Table
  empty_table = replicate (length before + 1) (replicate (length after + 1) 0)

  -- The body of the two loops that fill the table.
  unfoldable pub fill_cell : ℕ → ℕ → Table → Option Table
  fill_cell i j table = do
    x ← get_elem? before i
    y ← get_elem? after j
    let equal = read table (i + 1) (j + 1) >>= λ d. write table i j (d + 1)
    let differ =
        read table (i + 1) j >>= λ d. read table i (j + 1) >>= λ r. write table i j (max d r)
    if text_eq x y then equal else differ

  -- `for (let j = n - 1; j >= 0; j -= 1)`, on the number of columns left.
  unfoldable pub fill_row : ℕ → ℕ → Table → Option Table
  fill_row i zero table = some table
  fill_row i (suc j) table = fill_cell i j table >>= fill_row i j

  unfoldable pub fill_rows : ℕ → Table → Option Table
  fill_rows zero table = some table
  fill_rows (suc i) table = fill_row i (length after) table >>= fill_rows i

  -- The `while` loop, on fuel. `none` also stands for the fuel running out.
  unfoldable pub walk : ℕ → Table → ℕ → ℕ → Kept → Option Kept
  walk zero table i j kept = none
  walk (suc fuel) table i j kept =
      let step = (do
        x ← get_elem? before i
        y ← get_elem? after j
        let keep =
            walk fuel table (i + 1) (j + 1)
              (record { before = set kept.before i true; after = set kept.after j true })
        let choose = read table (i + 1) j >>= λ down. read table i (j + 1) >>= λ right.
            let skip_before = walk fuel table (i + 1) j kept in
            let skip_after = walk fuel table i (j + 1) kept in
            if leb right down then skip_before else skip_after
        if text_eq x y then keep else choose) in
      if ltb i (length before) && ltb j (length after) then step else some kept

  -- The outer `none` is a fault, which does not happen; the inner one is the `null` of a pair of
  -- texts that is too long to compare.
  unfoldable pub common_tokens : Option (Option Kept)
  unfolding empty_table fill_cell fill_row fill_rows walk read write
  common_tokens =
      let kept : Kept = record {
        before = replicate (length before) false;
        after = replicate (length after) false;
      } in
      let compared = (do
        table ← fill_rows (length before) empty_table
        marked ← walk (length before + length after + 1) table 0 0 kept
        some (some marked)) in
      if ltb diff_token_limit (length before)
      then some none
      else if ltb diff_token_limit (length after)
      then some none
      else compared
