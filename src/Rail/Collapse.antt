-- ===== src/Rail/Collapse.antt =====
-- `isFilterRailCollapsed`, `setFilterRailCollapsed` and their handlers, of app/webui/app.js.
use vocagateway.Base.{
  Bool, true, false, not, List, [], ◌∷◌, Option, none, some, Text, text_eq, if◌then◌else◌, codes,
}

pub record RailToggle : Type 0 where
  pub expanded : Bool
  pub title : Text
  -- the text of `.filter-trigger-label`, where it is there
  pub label : Option Text

pub record SideCollapse : Type 0 where
  pub expanded : Bool
  pub label : Text
  pub title : Text

pub record Rail : Type 0 where
  -- the class `is-filter-collapsed` of the layout
  pub layout : Option Bool
  pub aside_hidden : Option Bool
  pub toggle : Option RailToggle
  pub side : Option SideCollapse
  -- `localStorage` under the rail's key, and whether it can be read and written
  pub stored : Option Text
  pub has_storage : Bool

abbrev pub is_not_zero : Option Text → Bool
is_not_zero none = true
is_not_zero (some t) = not (text_eq t (codes "0"))

unfoldable pub is_filter_rail_collapsed : Rail → Bool
is_filter_rail_collapsed s = if s.has_storage then is_not_zero s.stored else false

abbrev pub put {ℓ} : {A : Type ℓ} → A → Option A → Option A
put a none = none
put a (some _) = some a

abbrev pub rail_toggle : Bool → RailToggle → RailToggle
rail_toggle collapsed t = record {
  expanded = not collapsed;
  title = if collapsed then codes "Show filters" else codes "Hide filters";
  label = put (codes "Filters") t.label;
}

abbrev pub map_toggle : (RailToggle → RailToggle) → Option RailToggle → Option RailToggle
map_toggle f none = none
map_toggle f (some t) = some (f t)

abbrev pub side_collapse : Bool → SideCollapse
side_collapse collapsed = record {
  expanded = not collapsed;
  label = if collapsed then codes "Expand filters" else codes "Collapse filters";
  title = if collapsed then codes "Expand filters" else codes "Collapse filters";
}

unfoldable pub set_filter_rail_collapsed : Bool → Rail → Rail
set_filter_rail_collapsed collapsed s = record s {
  layout = put collapsed s.layout;
  aside_hidden = put collapsed s.aside_hidden;
  toggle = map_toggle (rail_toggle collapsed) s.toggle;
  side = put (side_collapse collapsed) s.side;
  stored = if s.has_storage then some (if collapsed then codes "1" else codes "0") else s.stored;
}

pub data Event : Type 0 where
  -- the two buttons, and the start of the filters after a swap, with the rail as it is served
  click_toggle click_side : Event
  init : Option Bool → Option Bool → Option RailToggle → Option SideCollapse → Event

abbrev pub has_layout : Option Bool → Bool
has_layout none = false
has_layout (some b) = true

-- `initModelFilters`, the part for the rail.
unfoldable pub init_rail : Rail → Rail
unfolding is_filter_rail_collapsed set_filter_rail_collapsed
init_rail s =
    if has_layout s.layout then set_filter_rail_collapsed (is_filter_rail_collapsed s) s else s

unfoldable pub toggle_rail : Rail → Rail
unfolding set_filter_rail_collapsed
toggle_rail s = elim s.layout [
  | none ↦ s
  | some collapsed ↦ set_filter_rail_collapsed (not collapsed) s
]

unfoldable pub handle : Event → Rail → Rail
unfolding init_rail toggle_rail set_filter_rail_collapsed
handle click_toggle s = toggle_rail s
handle click_side s = set_filter_rail_collapsed true s
handle (init layout aside toggle side) s =
    init_rail (record s { layout = layout; aside_hidden = aside; toggle = toggle; side = side })

abbrev pub run : List Event → Rail → Rail
run [] s = s
run (e ∷ es) s = run es (handle e s)
