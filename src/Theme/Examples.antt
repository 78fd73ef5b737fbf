-- ===== src/Theme/Examples.antt =====
-- Runs of the theme functions of app/webui/app.js, and their theorems at concrete pages.
use vocagateway.Base.{◌≡◌, refl, true, false, List, [], ◌∷◌, none, some, codes}
use vocagateway.Theme.Page.{
  system, Resolved, Browser, init_theme, Event, click, system_change, handle,
}
use vocagateway.Theme.Boot.{boot}
use vocagateway.Theme.Invariant.{IsThemed, run, run-init_theme-IsThemed, boot-eq-init_theme}

abbrev fresh : Browser
fresh = record {
  stored = none;
  system_dark = true;
  page = record {
    theme = Resolved.light;
    preference = system;
    meta = some [];
    favicon = some [];
    apple = none;
    toggle = some (record { preference = system; label = []; title = [] });
  };
}

abbrev session : List Event
session = click ∷ system_change false ∷ click ∷ []

session_test :
    ((run session (init_theme fresh)).page.theme ≡ Resolved.dark)
    × ((run session (init_theme fresh)).stored ≡ some (codes "dark"))
unfolding init_theme handle
session_test = (refl, refl)

run-init_theme-IsThemed_example : IsThemed (run session (init_theme fresh))
run-init_theme-IsThemed_example = run-init_theme-IsThemed session fresh

boot-eq-init_theme_example :
    (boot true fresh).page
    ≡ (let page = (init_theme fresh).page in record page { toggle = fresh.page.toggle })
boot-eq-init_theme_example = boot-eq-init_theme fresh
