-- ===== src/Setup/Examples.antt =====
-- A visit of the models tab of app/webui/app.js.
use vocagateway.Base.{◌≡◌, refl, Bool, true, false, List, [], ◌∷◌, none, some, codes}
use vocagateway.Filters.Form.{Form, Chrome}
use vocagateway.Filters.Views.{View, IsSynced}
use vocagateway.Rail.Collapse.{Rail}
use vocagateway.Setup.Wiring.{
  Models, Served, Event, swap_panel, swap_list, click_clear, click_button, views_of, run, handle,
}
use vocagateway.Setup.Bound.{IsWired}
use vocagateway.Setup.Once.{is_settled, run-IsWired}

abbrev unpressed : View → Bool
unpressed v = false

abbrev rail : Rail
rail = record {
  layout = some false;
  aside_hidden = none;
  toggle = none;
  side = none;
  stored = none;
  has_storage = true;
}

abbrev filters : Form
filters = record {
  families = [];
  languages = [];
  engines = [];
  max_size = some [];
  installed_only = some false;
  recommended_only = some true;
  search = [];
}

abbrev chrome : Chrome
chrome = record {
  form = some filters;
  rail_active = some false;
  toggle_active = none;
  badge = some (record { text = codes "2"; hidden = false });
  requests = [];
}

-- Another tab, none of whose elements is of the models.
abbrev elsewhere : Models
elsewhere = record {
  controls = record {
    clear = none;
    form = none;
    rail_toggle = none;
    side_collapse = none;
    expand_toggle = none;
    list = none;
    searches = [];
  };
  window = record { bound = false; listeners = 0 };
  pressed = unpressed;
  rail = record rail { layout = none };
  chrome = record chrome { form = none; badge = none };
  changes = 0;
  grid = none;
}

abbrev shell : Served
shell = record { has_models = true; searches = 1 }

-- The tab is opened, the view of what is downloaded is chosen and its list comes; then all filters
-- are cleared, and the list of all models comes.
abbrev visit : List Event
visit =
    swap_panel shell unpressed rail chrome none
    ∷ click_button View.installed
    ∷ swap_list none
    ∷ click_clear
    ∷ swap_list none
    ∷ []

visit_once :
    ((run visit elsewhere).controls.clear ≡ some (record { bound = true; listeners = 1 }))
    × ((run visit elsewhere).window ≡ record { bound = true; listeners = 1 })
    × ((run visit elsewhere).changes ≡ 1)
    × ((run visit elsewhere).pressed View.all ≡ true)
unfolding handle
visit_once = (refl, refl, refl, refl)

-- Until the list comes, the view that was chosen before the filters were cleared stays pressed.
cleared_early :
    ((run (swap_panel shell unpressed rail chrome none ∷ click_clear ∷ []) elsewhere).pressed
        View.recommended
      ≡ true)
    × ((run (swap_panel shell unpressed rail chrome none ∷ click_clear ∷ []) elsewhere).pressed
          View.all
        ≡ false)
unfolding handle
cleared_early = (refl, refl)

run-IsWired_example :
    IsWired (run visit elsewhere)
    × (is_settled false visit ≡ true → IsSynced (views_of (run visit elsewhere)))
run-IsWired_example =
    run-IsWired visit elsewhere
      (record { controls = refl; window = refl; paired = refl; chrome = λ b h. absurd (cc) })
