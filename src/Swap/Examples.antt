-- ===== src/Swap/Examples.antt =====
-- A swap of the list of models of app/webui/app.js.
use vocagateway.Base.{ℕ, ◌≡◌, ◌==◌, refl, Bool, false, not, ◌&&◌, List, [], ◌∷◌, none, some}
use vocagateway.Families.Grid.{Node, tile, panel, Grid, tiles}
use vocagateway.Families.Order.{is_in}
use vocagateway.Swap.Hooks.{Page, swap_list}
use vocagateway.Swap.Kept.{swap_list_lem}

abbrev grid_of : List Node → (ℕ → Bool) → Grid
grid_of nodes opened = record {
  children = nodes;
  tile_open = opened;
  aria_expanded = opened;
  panel_hidden = λ t. not (opened t);
  panel_open = opened;
  toggle = some false;
}

-- Families 1 and 2, of which 2 is open, and a new list of 2 and 3.
abbrev before : Grid
before = grid_of (tile 1 ∷ panel 1 ∷ tile 2 ∷ panel 2 ∷ []) (λ t. t == 2)

abbrev served : Grid
served = grid_of (tile 2 ∷ panel 2 ∷ tile 3 ∷ panel 3 ∷ []) (λ t. false)

abbrev page : Page
page = record {
  grid = some before;
  details = none;
  performance_details_open = false;
  open_model_families = none;
  models_scroll_y = none;
  scroll_y = 640;
  restores = [];
  busy = false;
}

swap_list_lem_example :
    (h : Grid) × ((swap_list 2 served page).grid ≡ some h)
    × ((u : ℕ)
        → h.tile_open u
          ≡ is_in u (tiles served.children)
            && (is_in u (tiles before.children) && before.tile_open u))
    × ((swap_list 2 served page).restores ≡ 640 ∷ 640 ∷ [])
    × ((swap_list 2 served page).open_model_families ≡ none)
swap_list_lem_example = swap_list_lem 2 served before page refl (λ u. refl)
