-- ===== src/Families/Grid.antt =====
-- The family grid of app/webui/app.js: tiles, the panel of models of each, and where an open panel
-- is parked. A family is named by a number, which stands for its tile, its `dataset.family` and the
-- id of its panel. All tiles stand in one grid.
use vocagateway.Base.{
  ℕ, suc, ◌+◌, ◌-◌, ◌*◌, ◌/◌, min, Bool, true, false, not, List, [], ◌∷◌, Option, none, some,
  length, get_elem?, ◌==◌, if◌then◌else◌, all, any, filter,
}

pub data Node : Type 0 where
  tile : ℕ → Node
  panel : ℕ → Node

abbrev pub is_tile : ℕ → Node → Bool
is_tile a (tile t) = t == a
is_tile a (panel t) = false

abbrev pub is_panel : ℕ → Node → Bool
is_panel p (tile t) = false
is_panel p (panel t) = t == p

pub record Grid : Type 0 where
  -- the children of the grid, in the order of the document
  pub children : List Node
  -- of a tile: the class `is-open`, and `aria-expanded` of its button
  pub tile_open : ℕ → Bool
  pub aria_expanded : ℕ → Bool
  -- of a panel: `hidden`, and the class `is-open`
  pub panel_hidden : ℕ → Bool
  pub panel_open : ℕ → Bool
  -- `dataset.expanded` of the button for all families, where the page has it
  pub toggle : Option Bool

abbrev pub update : ℕ → Bool → (ℕ → Bool) → ℕ → Bool
update t b f u = if u == t then b else f u

-- `familyTiles`
unfoldable pub tiles : List Node → List ℕ
tiles [] = []
tiles (tile t ∷ cs) = t ∷ tiles cs
tiles (panel p ∷ cs) = tiles cs

-- `familyModelsFor(tile)` is not null.
unfoldable pub has_panel : ℕ → List Node → Bool
unfolding any
has_panel p cs = any (is_panel p) cs

abbrev pub one_later : Option ℕ → Option ℕ
one_later none = none
one_later (some i) = some (suc i)

-- `indexOf`, with `none` for -1.
unfoldable pub index_of : ℕ → List ℕ → Option ℕ
index_of t [] = none
index_of t (u ∷ ts) = if u == t then some 0 else one_later (index_of t ts)

-- `tile.nextElementSibling === models`
unfoldable pub next_is : ℕ → ℕ → List Node → Bool
next_is a p [] = false
next_is a p (c ∷ cs) =
    if is_tile a c then (elim cs [ [] ↦ false | d ∷ _ ↦ is_panel p d ]) else next_is a p cs

unfoldable pub remove_panel : ℕ → List Node → List Node
unfolding filter
remove_panel p cs = filter (λ c. not (is_panel p c)) cs

unfoldable pub insert_after : ℕ → Node → List Node → List Node
insert_after a n [] = []
insert_after a n (c ∷ cs) = if is_tile a c then c ∷ n ∷ cs else c ∷ insert_after a n cs

-- `tile.after(models)`: the panel is taken out where it stands.
unfoldable pub move_after : ℕ → ℕ → List Node → List Node
unfolding insert_after remove_panel
move_after a p cs = insert_after a (panel p) (remove_panel p cs)

-- `if (anchor.nextElementSibling !== models) anchor.after(models)`
unfoldable pub park : ℕ → ℕ → List Node → List Node
unfolding next_is move_after
park a p cs = if next_is a p cs then cs else move_after a p cs

-- The count of the columns that the computed style lists, `|| 1`.
unfoldable pub column_count : ℕ → ℕ
column_count listed = if listed == 0 then 1 else listed

-- The place of the last tile on the visual row of the tile at `index`.
unfoldable pub row_end : ℕ → ℕ → ℕ → ℕ
row_end cols index count = min (count - 1) (index / cols * cols + cols - 1)

-- `placeModelsAfterRow`
unfoldable pub place_after_row : ℕ → ℕ → List Node → List Node
unfolding has_panel index_of row_end park tiles
place_after_row cols t cs =
    let ts = tiles cs in
    if has_panel t cs
    then (elim (index_of t ts) [
      | none ↦ cs
      | some index ↦ elim (get_elem? ts (row_end cols index (length ts))) [
        | none ↦ cs
        | some anchor ↦ park anchor t cs
      ]
    ])
    else cs

-- `restoreModelsAfterTile`
unfoldable pub restore_after_tile : ℕ → List Node → List Node
unfolding has_panel park
restore_after_tile t cs = if has_panel t cs then park t t cs else cs

unfoldable pub set_family_open : ℕ → ℕ → Bool → Grid → Grid
unfolding has_panel place_after_row restore_after_tile
set_family_open cols t opened g =
    let present = has_panel t g.children in
    record g {
      tile_open = update t opened g.tile_open;
      aria_expanded = update t opened g.aria_expanded;
      panel_hidden = if present then update t (not opened) g.panel_hidden else g.panel_hidden;
      panel_open = if present then update t opened g.panel_open else g.panel_open;
      children =
          if opened then place_after_row cols t g.children else restore_after_tile t g.children;
    }

-- `forEach` over tiles.
unfoldable pub set_each : ℕ → Bool → List ℕ → Grid → Grid
set_each cols opened [] g = g
set_each cols opened (t ∷ ts) g = set_each cols opened ts (set_family_open cols t opened g)

abbrev pub reverse_onto : List ℕ → List ℕ → List ℕ
reverse_onto acc [] = acc
reverse_onto acc (t ∷ ts) = reverse_onto (t ∷ acc) ts

abbrev pub put_toggle : Bool → Option Bool → Option Bool
put_toggle expanded none = none
put_toggle expanded (some _) = some expanded

unfoldable pub set_families_expanded : ℕ → Bool → Grid → Grid
unfolding set_each tiles
set_families_expanded cols expanded g =
    let ts = tiles g.children in
    let changed =
      if expanded then set_each cols true (reverse_onto [] ts) g else set_each cols false ts g in
    record changed { toggle = put_toggle expanded changed.toggle }

unfoldable pub sync_families_expand_toggle : Grid → Grid
unfolding tiles all
sync_families_expand_toggle g = elim (tiles g.children) [
  | [] ↦ g
  | t ∷ ts ↦ record g { toggle = put_toggle (all g.tile_open (t ∷ ts)) g.toggle }
]

-- The families that are open, before the list is swapped.
unfoldable pub open_family_names : Grid → List ℕ
unfolding tiles filter
open_family_names g = filter g.tile_open (tiles g.children)

abbrev pub wants : List ℕ → ℕ → Bool
wants names t = any (λ n. n == t) names

unfoldable pub restore_open_families : ℕ → List ℕ → Grid → Grid
unfolding set_each tiles filter sync_families_expand_toggle any
restore_open_families cols [] g = g
restore_open_families cols (n ∷ ns) g =
    sync_families_expand_toggle
      (set_each cols true (filter (wants (n ∷ ns)) (reverse_onto [] (tiles g.children))) g)

unfoldable pub place_each : ℕ → List ℕ → List Node → List Node
place_each cols [] cs = cs
place_each cols (t ∷ ts) cs = place_each cols ts (place_after_row cols t cs)

unfoldable pub relayout_open_family_panels : ℕ → Grid → Grid
unfolding place_each open_family_names
relayout_open_family_panels cols g = record g {
  children = place_each cols (reverse_onto [] (open_family_names g)) g.children;
}

-- The click on a tile's button.
unfoldable pub click_family : ℕ → ℕ → Grid → Grid
unfolding set_family_open sync_families_expand_toggle
click_family cols t g = sync_families_expand_toggle (set_family_open cols t (not (g.tile_open t)) g)

-- The grid as it is served: each panel behind its tile.
abbrev pub default_order : List ℕ → List Node
default_order [] = []
default_order (t ∷ ts) = tile t ∷ panel t ∷ default_order ts

-- What may happen to the grid, each with the number of columns at that time.
pub data Event : Type 0 where
  click : ℕ → ℕ → Event
  -- the button for all families
  expand_all : ℕ → Bool → Event
  -- the names kept over a swap of the list
  restore : ℕ → List ℕ → Event
  -- the filter rail or the window changes the columns
  relayout : ℕ → Event

-- A click that is on no tile of the grid does nothing.
unfoldable pub handle : Event → Grid → Grid
unfolding click_family set_families_expanded restore_open_families relayout_open_family_panels
handle (click cols t) g = if any (λ u. u == t) (tiles g.children) then click_family cols t g else g
handle (expand_all cols expanded) g = set_families_expanded cols expanded g
handle (restore cols names) g = restore_open_families cols names g
handle (relayout cols) g = relayout_open_family_panels cols g
