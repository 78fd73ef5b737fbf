-- ===== src/Families/Examples.antt =====
-- Runs of the family grid of app/webui/app.js, and its theorems at a concrete grid.
use vocagateway.Base.{
  ℕ, Bool, ◌||◌, ◌==◌, ◌≡◌, refl, true, false, List, [], ◌∷◌, none, some, any, arith,
}
use vocagateway.Families.Grid.{
  tile, panel, Grid, tiles, has_panel, place_after_row, set_family_open, set_families_expanded,
  default_order, Event, click, expand_all, restore, relayout, handle,
}
use vocagateway.Families.Order.{count_panel}
use vocagateway.Families.Collapse.{IsGrid}
use vocagateway.Families.Sessions.{run, run_collapse}
use vocagateway.Timers.{has_timer, IsOnly-none}
use vocagateway.Families.Resize
use vocagateway.Families.Resize.{Window}
use vocagateway.Families.Settled.{run-resize_lem}
use vocagateway.Families.Picture.{picture, seen}
use vocagateway.Families.Layout.{IsLaid, run-IsLaid}
use vocagateway.Families.Rows.{IsShown}

abbrev families : List ℕ
families = 1 ∷ 2 ∷ 3 ∷ []

abbrev served : Grid
served = record {
  children = default_order families;
  tile_open = λ _. false;
  aria_expanded = λ _. false;
  panel_hidden = λ _. true;
  panel_open = λ _. false;
  toggle = some false;
}

served-IsGrid : IsGrid served.children
unfolding tiles any count_panel
served-IsGrid = record { apart = refl; owned = refl; once = λ t m. ground arith }

served-IsShown : IsShown served
served-IsShown = record { expanded = λ t. refl; hidden = λ t m. refl; opened = λ t m. refl }

-- Two columns: the panels of the first row stand behind its second tile.
expand_test :
    (set_families_expanded 2 true served).children
    ≡ tile 1 ∷ tile 2 ∷ panel 1 ∷ panel 2 ∷ tile 3 ∷ panel 3 ∷ []
unfolding set_families_expanded set_family_open has_panel place_after_row
expand_test = refl

abbrev session : List Event
session = click 2 1 ∷ expand_all 3 true ∷ relayout 1 ∷ click 1 2 ∷ restore 2 (2 ∷ []) ∷ []

run_collapse_example :
    (tiles (run session served).children ≡ tiles served.children)
    × ((set_families_expanded 2 false (run session served)).children
        ≡ default_order (tiles served.children))
run_collapse_example = run_collapse session 2 served served-IsGrid

-- Four tiles in rows of three: two open families of the first row, then the last tile.
abbrev some_open : ℕ → Bool
some_open t = t == 1 || t == 3

picture_test :
    picture 3 some_open (1 ∷ 2 ∷ 3 ∷ 4 ∷ [])
    ≡ tile 1 ∷ tile 2 ∷ tile 3 ∷ panel 1 ∷ panel 3 ∷ tile 4 ∷ []
unfolding picture
picture_test = refl

-- Of two families of one row, opened from left to right, the right one's panel comes first until the
-- panels are laid out anew.
click_order :
    (seen (run (click 3 1 ∷ click 3 2 ∷ []) served)
      ≡ tile 1 ∷ tile 2 ∷ tile 3 ∷ panel 2 ∷ panel 1 ∷ [])
    × (seen (run (click 3 1 ∷ click 3 2 ∷ relayout 3 ∷ []) served)
        ≡ tile 1 ∷ tile 2 ∷ tile 3 ∷ panel 1 ∷ panel 2 ∷ [])
unfolding seen handle set_family_open has_panel place_after_row
click_order = (refl, refl)

run-IsLaid_example :
    IsLaid 2 (handle (relayout 2) (run session served))
    × ((b : Bool) → IsLaid 2 (handle (expand_all 2 b) (run session served)))
    × ((names : List ℕ)
        → ((u : ℕ) → served.tile_open u ≡ false)
        → IsLaid 2 (handle (restore 2 names) served))
run-IsLaid_example = run-IsLaid session 2 served (omega arith) served-IsGrid served-IsShown

abbrev still : Window
still = record { grid = served; listed = 3; timers = []; resize_timer = none; next_timer = 0 }

-- Two sizes in quick succession, with a click between them.
abbrev dragging : List Resize.Event
dragging = Resize.click 1 ∷ Resize.resize 0 ∷ Resize.click 3 ∷ Resize.resize 2 ∷ []

dragging_once :
    ((Resize.run dragging still).timers ≡ record { id = 1; delay = 100 } ∷ [])
    × (seen (Resize.handle (Resize.fire 1) (Resize.run dragging still)).grid
        ≡ tile 1 ∷ tile 2 ∷ panel 1 ∷ tile 3 ∷ panel 3 ∷ [])
unfolding seen Resize.handle handle set_family_open has_panel place_after_row
dragging_once = (refl, refl)

run-resize_lem_example :
    ((listed : ℕ)
      → ((Resize.handle (Resize.resize listed) (Resize.run dragging still)).timers
          ≡ record { id = (Resize.run dragging still).next_timer; delay = 100 } ∷ [])
        × ((Resize.handle (Resize.resize listed) (Resize.run dragging still)).grid
            ≡ (Resize.run dragging still).grid))
    × ((t : ℕ)
        → has_timer t (Resize.run dragging still).timers ≡ true
        → ((Resize.handle (Resize.fire t) (Resize.run dragging still)).timers ≡ [])
          × IsLaid
              (Resize.columns (Resize.run dragging still))
              (Resize.handle (Resize.fire t) (Resize.run dragging still)).grid)
run-resize_lem_example =
    run-resize_lem dragging still
      (record { only = IsOnly-none none; whole = served-IsGrid; shown = served-IsShown })
