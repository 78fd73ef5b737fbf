-- ===== src/Setup/Wiring.antt =====
-- `initModelFilters` of app/webui/app.js: it runs after every swap of the panel or of the list, and
-- registers each listener only where the mark `bound` of the element says that it has none yet.
use vocagateway.Base.{
  ℕ, zero, suc, Bool, true, false, not, ◌&&◌, List, [], ◌∷◌, Option, none, some, if◌then◌else◌,
}
use vocagateway.Filters.Form.{
  Form, Chrome, is_some, is_checked, update_filter_chrome, clear_filters,
}
use vocagateway.Filters.Views.{View, Views, is_current, sync_model_views, click_view}
use vocagateway.Rail.Collapse.{Rail, init_rail}
use vocagateway.Families.Grid.{Grid, sync_families_expand_toggle}
use vocagateway.Swap.Hooks.{map_grid}

-- An element or the window: its mark, and how many times its listener is registered.
pub record Control : Type 0 where
  pub bound : Bool
  pub listeners : ℕ

abbrev pub bind : Control → Control
bind c = if c.bound then c else record { bound = true; listeners = suc c.listeners }

abbrev pub bind_option : Option Control → Option Control
bind_option none = none
bind_option (some c) = some (bind c)

unfoldable pub bind_each : List Control → List Control
bind_each [] = []
bind_each (c ∷ cs) = bind c ∷ bind_each cs

-- The elements of the models tab, which are there only while it is shown.
pub record Controls : Type 0 where
  pub clear : Option Control
  pub form : Option Control
  pub rail_toggle : Option Control
  pub side_collapse : Option Control
  pub expand_toggle : Option Control
  pub list : Option Control
  pub searches : List Control

pub record Models : Type 0 where
  pub controls : Controls
  -- the window, which stays
  pub window : Control
  -- `aria-pressed` of the views' buttons
  pub pressed : View → Bool
  pub rail : Rail
  -- the form of the filters, in which the checkboxes of the views lie, and its badge
  pub chrome : Chrome
  -- how many "change" events the clicks on views sent
  pub changes : ℕ
  pub grid : Option Grid

-- `document.getElementById("installed-only-toggle")?.checked`, as a truth value, and the like.
abbrev pub is_installed_only : Option Form → Bool
is_installed_only none = false
is_installed_only (some f) = is_checked f.installed_only

abbrev pub is_recommended_only : Option Form → Bool
is_recommended_only none = false
is_recommended_only (some f) = is_checked f.recommended_only

-- The views with the checkboxes of the form.
abbrev pub views_of : Models → Views
views_of m = record {
  installed_checked = is_installed_only m.chrome.form;
  recommended_checked = is_recommended_only m.chrome.form;
  pressed = m.pressed;
  changes = m.changes;
}

unfoldable pub bind_controls : Controls → Controls
unfolding bind_each
bind_controls c = record {
  clear = bind_option c.clear;
  form = bind_option c.form;
  rail_toggle = bind_option c.rail_toggle;
  side_collapse = bind_option c.side_collapse;
  expand_toggle = bind_option c.expand_toggle;
  list = bind_option c.list;
  searches = bind_each c.searches;
}

unfoldable pub init_model_filters : Models → Models
unfolding sync_model_views bind_controls init_rail update_filter_chrome sync_families_expand_toggle
init_model_filters m = record {
  controls = bind_controls m.controls;
  window = bind m.window;
  pressed = (sync_model_views (views_of m)).pressed;
  rail = init_rail m.rail;
  chrome = update_filter_chrome m.chrome;
  changes = m.changes;
  grid = map_grid sync_families_expand_toggle m.grid;
}

-- Which elements the server's panel has: none of them is marked or has a listener.
pub record Served : Type 0 where
  -- the models tab, or another one
  pub has_models : Bool
  pub searches : ℕ

abbrev pub fresh : Control
fresh = record { bound = false; listeners = 0 }

abbrev pub fresh_if : Bool → Option Control
fresh_if b = if b then some fresh else none

unfoldable pub fresh_each : ℕ → List Control
fresh_each zero = []
fresh_each (suc n) = fresh ∷ fresh_each n

unfoldable pub served_controls : Served → Option Form → Controls
unfolding fresh_each
served_controls v form = record {
  clear = fresh_if v.has_models;
  form = fresh_if (is_some form);
  rail_toggle = fresh_if v.has_models;
  side_collapse = fresh_if v.has_models;
  expand_toggle = fresh_if v.has_models;
  list = fresh_if v.has_models;
  searches = if v.has_models then fresh_each v.searches else [];
}

pub data Event : Type 0 where
  -- htmx puts a new panel in place, or new families into the list, whose controls stay
  swap_panel : Served → (View → Bool) → Rail → Chrome → Option Grid → Event
  swap_list : Option Grid → Event
  -- the user changes the form, or clicks on `filter-clear` or on the button of a view
  change : Form → Event
  click_clear : Event
  click_button : View → Event

abbrev pub put_panel : Served → (View → Bool) → Rail → Chrome → Option Grid → Models → Models
put_panel served pressed rail chrome grid m = record {
  controls = served_controls served chrome.form;
  window = m.window;
  pressed = pressed;
  rail = record rail { stored = m.rail.stored; has_storage = m.rail.has_storage };
  chrome = chrome;
  changes = m.changes;
  grid = grid;
}

abbrev pub listeners_of : Option Control → ℕ
listeners_of none = 0
listeners_of (some c) = c.listeners

-- A listener runs as often as it is registered.
abbrev pub times : ℕ → (Chrome → Chrome) → Chrome → Chrome
times zero f c = c
times (suc n) f c = times n f (f c)

-- What a "change" event in the form does, once the form has new contents.
unfoldable pub change_form : Form → Models → Models
unfolding update_filter_chrome
change_form f m = record m {
  chrome =
      times (listeners_of m.controls.form) update_filter_chrome (record m.chrome { form = some f });
}

abbrev pub can_click : View → Form → Models → Bool
can_click view f m =
    is_some f.installed_only && is_some f.recommended_only && not (is_current view (views_of m))

-- The form with the checkboxes that a click on a view leaves.
abbrev pub picked_form : View → Form → Models → Form
picked_form view f m = record f {
  installed_only = some (click_view view (views_of m)).installed_checked;
  recommended_only = some (click_view view (views_of m)).recommended_checked;
}

unfoldable pub click_in : View → Option Form → Models → Models
unfolding click_view change_form
click_in view none m = m
click_in view (some f) m =
    if can_click view f m
    then record (change_form (picked_form view f m) m) {
      pressed = (click_view view (views_of m)).pressed;
      changes = (click_view view (views_of m)).changes;
    }
    else m

-- The click on a view, which needs the form and both checkboxes.
unfoldable pub click_model_view : View → Models → Models
unfolding click_in
click_model_view view m = click_in view m.chrome.form m

unfoldable pub handle : Event → Models → Models
unfolding init_model_filters served_controls change_form clear_filters click_model_view
handle (swap_panel served pressed rail chrome grid) m =
    init_model_filters (put_panel served pressed rail chrome grid m)
handle (swap_list grid) m = init_model_filters (record m { grid = grid })
handle (change f) m = elim m.chrome.form [ none ↦ m | some _ ↦ change_form f m ]
handle click_clear m = record m {
  chrome = times (listeners_of m.controls.clear) clear_filters m.chrome;
}
handle (click_button view) m = click_model_view view m

abbrev pub run : List Event → Models → Models
run [] m = m
run (e ∷ es) m = run es (handle e m)
