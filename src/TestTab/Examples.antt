-- ===== src/TestTab/Examples.antt =====
-- Runs of the Pair & test tab of app/webui/app.js, where the two answers come in either order.
use vocagateway.Base.{Bool, Option, ◌≡◌, ◌≢◌, refl, true, false, List, [], ◌∷◌, none, some, codes}
use vocagateway.Languages.Picker.{Choice, Health, is_unsupported}
use vocagateway.Cleanup.Warning.{Capability, Controls}
use vocagateway.TestTab.Events.{
  TestTab, language, Event, health, capabilities, choose, choose_mode, handle, run,
}
use vocagateway.TestTab.Warned.{IsWarned, run-IsWarned}
use vocagateway.TestTab.Stale.{late_health_lem}
use vocagateway.TestTab.Supported.{IsChosen, last_health, run-health-IsChosen}

abbrev detect : Choice
detect = record { value = codes "auto"; is_auto = true; hidden = false; disabled = false }

abbrev english : Choice
english = record { value = codes "en"; is_auto = false; hidden = false; disabled = false }

abbrev controls : Controls
controls = record {
  language = [];
  mode = codes "conservative";
  warning = [];
  warning_hidden = true;
}

abbrev tab : TestTab
tab = record {
  picker = record {
    options = detect ∷ english ∷ [];
    selected = some 0;
    note = [];
    note_hidden = true;
  };
  panel = record {
    capability = record { supported = false; auto_language = true };
    controls = some controls;
    field_hidden = some true;
    tile_hidden = none;
  };
}

-- A model that must be told the language, and a gateway with no language for "auto".
abbrev told : Health
told = record { languages = []; detects_automatically = false; requires_explicit = true }

abbrev any_language : Health
any_language = record { languages = []; detects_automatically = true; requires_explicit = false }

abbrev no_language : Capability
no_language = record { supported = true; auto_language = false }

abbrev hides : TestTab → Option Bool
hides t = elim t.panel.controls [ none ↦ none | some c ↦ some c.warning_hidden ]

-- In one order the warning is gone, in the other it stays.
either_order :
    (hides (run (health (some told) ∷ capabilities (some no_language) ∷ []) tab) ≡ some true)
    × (hides (run (capabilities (some no_language) ∷ health (some told) ∷ []) tab) ≡ some false)
unfolding handle
either_order = (refl, refl)

unsupported_run : (is_unsupported told detect ≡ true) × (is_unsupported told english ≡ false)
unfolding is_unsupported
unsupported_run = (refl, refl)

late_health_lem_example :
    (w : Controls) × ((handle
        (health (some told))
        (handle (capabilities (some no_language)) tab)).panel.controls
      ≡ some w)
    × (w.warning_hidden ≡ false)
    × (language (handle (health (some told)) (handle (capabilities (some no_language)) tab)).picker
        ≢ codes "auto")
late_health_lem_example =
    late_health_lem told no_language tab controls true 0 1 detect english refl refl refl refl refl
      refl refl refl unsupported_run.0 refl unsupported_run.1

abbrev events : List Event
events =
    health (some any_language)
    ∷ choose 1
    ∷ choose_mode (codes "off")
    ∷ health none
    ∷ capabilities (some no_language)
    ∷ choose 0
    ∷ []

run-IsWarned_example : IsWarned (run events (handle (capabilities (some no_language)) tab))
unfolding handle
run-IsWarned_example = run-IsWarned (capabilities (some no_language)) events tab refl refl

run-health-IsChosen_example :
    IsChosen (last_health told events) (run events (handle (health (some told)) tab)).picker
unfolding is_unsupported
run-health-IsChosen_example = run-health-IsChosen told events tab 0 detect refl refl refl refl refl
