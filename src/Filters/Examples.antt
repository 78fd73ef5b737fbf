-- ===== src/Filters/Examples.antt =====
-- Runs of the filters of app/webui/app.js.
use vocagateway.Base.{
  ◌≡◌, ◌↔◌, refl, true, false, not, [], ◌∷◌, none, some, codes, value_from, decimal,
}
use vocagateway.Filters.Form.{
  Form, Badge, Chrome, put_flag, current_model_filters, update_filter_chrome,
}
use vocagateway.Filters.Count.{unfiltered, IsCount}
use vocagateway.Filters.Chrome.{update_filter_chrome_lem}
use vocagateway.Filters.Views.{Views, IsSynced, is_pressed}

abbrev polish_form : Form
polish_form = record {
  families = record { value = codes "whisper"; checked = false; hidden = false } ∷ [];
  languages =
      record { value = codes "pl"; checked = true; hidden = false }
      ∷ record { value = codes "en"; checked = false; hidden = true }
      ∷ [];
  engines = [];
  max_size = some (codes "500");
  installed_only = some true;
  recommended_only = none;
  search = codes "pol";
}

abbrev blank_badge : Badge
blank_badge = record { text = []; hidden = true }

abbrev chrome : Chrome
chrome = record {
  form = some polish_form;
  rail_active = some false;
  toggle_active = none;
  badge = some blank_badge;
  requests = [];
}

update_filter_chrome_run :
    (update_filter_chrome chrome).badge ≡ some (record { text = codes "3"; hidden = false })
unfolding update_filter_chrome decimal
update_filter_chrome_run = refl

update_filter_chrome_lem_example :
    (d : Badge) × ((update_filter_chrome chrome).badge ≡ some d)
    × ((d.hidden ≡ true) ↔ (current_model_filters chrome.form ≡ unfiltered))
    × IsCount (current_model_filters chrome.form) (value_from 0 d.text)
    × ((update_filter_chrome chrome).rail_active ≡ put_flag (not d.hidden) chrome.rail_active)
    × ((update_filter_chrome chrome).toggle_active ≡ put_flag (not d.hidden) chrome.toggle_active)
update_filter_chrome_lem_example = update_filter_chrome_lem chrome blank_badge refl

abbrev all_models : Views
all_models = record {
  installed_checked = false;
  recommended_checked = false;
  pressed = is_pressed false false;
  changes = 0;
}

all_models-IsSynced : IsSynced all_models
all_models-IsSynced w = refl
