-- ===== src/Families/Picture.antt =====
-- What the grid of model families (app/webui/app.js) is to look like: its rows of tiles, each with
-- the panels of its open families under it.
use vocagateway.Base.{
  ℕ, suc, ◌/◌, ◌%◌, Bool, true, not, ◌&&◌, ◌||◌, List, [], ◌∷◌, ◌++◌, length, ◌==◌, if◌then◌else◌,
  filter,
}
use vocagateway.Families.Grid.{Node, tile, panel, Grid}
use vocagateway.Families.Placing.{panels_of}

-- The place `i` of `count` places is the last of its row.
abbrev pub is_row_end : ℕ → ℕ → ℕ → Bool
is_row_end cols count i = suc i == count || suc i % cols == 0

-- The open families of a row, in order; the first of the list has the place `i`.
unfoldable pub open_in_row : ℕ → (ℕ → Bool) → ℕ → ℕ → List ℕ → List ℕ
open_in_row cols is_open row i [] = []
open_in_row cols is_open row i (t ∷ ts) =
    if i / cols == row && is_open t
    then t ∷ open_in_row cols is_open row (suc i) ts
    else open_in_row cols is_open row (suc i) ts

unfoldable pub rows_from : ℕ → (ℕ → Bool) → List ℕ → ℕ → List ℕ → List Node
unfolding open_in_row
rows_from cols is_open ts i [] = []
rows_from cols is_open ts i (u ∷ us) =
    tile u
      ∷ (if is_row_end cols (length ts) i
          then panels_of (open_in_row cols is_open (i / cols) 0 ts)
          else [])
    ++ rows_from cols is_open ts (suc i) us

-- Row after row: its tiles, then the panels of those that are open.
unfoldable pub picture : ℕ → (ℕ → Bool) → List ℕ → List Node
unfolding rows_from
picture cols is_open ts = rows_from cols is_open ts 0 ts

abbrev pub is_seen : (ℕ → Bool) → Node → Bool
is_seen is_hidden (tile t) = true
is_seen is_hidden (panel p) = not (is_hidden p)

-- What the page shows of the grid: all but the hidden panels.
unfoldable pub seen : Grid → List Node
unfolding filter
seen g = filter (is_seen g.panel_hidden) g.children
