-- ===== src/Swap/Hooks.antt =====
-- The handlers of htmx's events around a request and a swap, of app/webui/app.js.
use vocagateway.Base.{ℕ, Bool, true, false, List, [], ◌∷◌, ◌++◌, Option, none, some}
use vocagateway.Families.Grid.{
  Grid, open_family_names, restore_open_families, sync_families_expand_toggle,
}

-- The element that is swapped or asked for, by its id.
pub data Target : Type 0 where
  operations models_list panel other : Target

pub record Page : Type 0 where
  -- the families, while the list of models is there
  pub grid : Option Grid
  -- `open` of the `.activity-details` in `operations`, where it is there
  pub details : Option Bool
  -- the variable `performanceDetailsOpen`
  pub performance_details_open : Bool
  -- `window.__openModelFamilies` and `window.__modelsScrollY`, where null and not set are alike
  pub open_model_families : Option (List ℕ)
  pub models_scroll_y : Option ℕ
  pub scroll_y : ℕ
  -- the places that the next two frames scroll to
  pub restores : List ℕ
  -- `aria-busy` of the panel
  pub busy : Bool

abbrev pub or_closed : Option Bool → Bool
or_closed none = false
or_closed (some b) = b

abbrev pub names_of : Option Grid → List ℕ
names_of none = []
names_of (some g) = open_family_names g

abbrev pub or_none : Option (List ℕ) → List ℕ
or_none none = []
or_none (some names) = names

unfoldable pub before_swap : Target → Page → Page
unfolding open_family_names
before_swap operations p = record p { performance_details_open = or_closed p.details }
before_swap models_list p = record p {
  open_model_families = some (names_of p.grid);
  models_scroll_y = some p.scroll_y;
}
before_swap panel p = p
before_swap other p = p

abbrev pub map_grid : (Grid → Grid) → Option Grid → Option Grid
map_grid f none = none
map_grid f (some g) = some (f g)

abbrev pub put_details : Bool → Option Bool → Option Bool
put_details b none = none
put_details b (some _) = some b

abbrev pub twice : Option ℕ → List ℕ
twice none = []
twice (some y) = y ∷ y ∷ []

-- The part of `initModelFilters` that touches the families, then what is kept of the list. `cols` is
-- the number of columns of the grid.
unfoldable pub after_swap : ℕ → Target → Page → Page
unfolding restore_open_families sync_families_expand_toggle
after_swap cols operations p = record p {
  details = put_details p.performance_details_open p.details;
}
after_swap cols models_list p = record p {
  grid =
      map_grid
        (λ g.
          restore_open_families cols (or_none p.open_model_families)
            (sync_families_expand_toggle g))
        p.grid;
  open_model_families = none;
  models_scroll_y = none;
  restores = p.restores ++ twice p.models_scroll_y;
}
after_swap cols panel p = record p { grid = map_grid sync_families_expand_toggle p.grid }
after_swap cols other p = p

unfoldable pub before_request : Target → Page → Page
before_request panel p = record p { busy = true }
before_request operations p = p
before_request models_list p = p
before_request other p = p

unfoldable pub after_request : Target → Page → Page
after_request panel p = record p { busy = false }
after_request operations p = p
after_request models_list p = p
after_request other p = p

-- htmx puts a new list of models in place, between the two handlers.
unfoldable pub swap_list : ℕ → Grid → Page → Page
unfolding before_swap after_swap
swap_list cols served p =
    after_swap cols models_list (record (before_swap models_list p) { grid = some served })

-- The same of `operations`, whose details are served closed.
unfoldable pub swap_operations : ℕ → Page → Page
unfolding before_swap after_swap
swap_operations cols p =
    after_swap cols operations (record (before_swap operations p) { details = some false })
