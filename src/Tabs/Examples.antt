-- ===== src/Tabs/Examples.antt =====
-- Runs of the tab handlers of app/webui/app.js, and their theorems at a concrete bar.
use vocagateway.Base.{
  ℕ, ◌<◌, ◌≡◌, refl, Bool, true, false, List, [], ◌∷◌, none, some, Text, codes, ◌>>=◌, ◌+◌, arith,
}
use vocagateway.Tabs.Bar.{
  Tab, Bar, left, right, up, down, home, end, key_target, find_from, start, Event, press, open_name,
  handle,
}
use vocagateway.Tabs.Keys.{key_target_lem}
use vocagateway.Tabs.Single.{HasSingle, run, run-start-HasSingle}

abbrev tab : Text → Bool → Tab
tab name active = record {
  name = name;
  id = codes "tab";
  href = some (codes "/ui");
  active = active;
  selected = active;
  in_order = true;
}

abbrev served : Bar
served = record {
  tabs = tab (codes "overview") true ∷ tab (codes "models") false ∷ tab (codes "pair") false ∷ [];
  label = codes "tab-overview";
  panel_href = none;
  fragment = codes "test";
  focus = none;
  loads = [];
}

abbrev events : List Event
events = press right 2 ∷ open_name (codes "nowhere") ∷ press left 0 ∷ []

events_test :
    ((run events (start served)).focus ≡ some 2)
    × ((run events (start served)).fragment ≡ codes "pair")
unfolding start handle
events_test = (refl, refl)

key_target_lem_example :
    ((j : ℕ) → key_target left 0 3 ≡ some j → j < 3)
    × ((key_target right 0 3 >>= λ j. key_target left j 3) ≡ some 0)
    × ((key_target left 0 3 >>= λ j. key_target right j 3) ≡ some 0)
    × ((key_target down 0 3 >>= λ j. key_target up j 3) ≡ some 0)
    × ((key_target up 0 3 >>= λ j. key_target down j 3) ≡ some 0)
    × (key_target home 0 3 ≡ some 0)
    × ((j : ℕ) → key_target end 0 3 ≡ some j → j + 1 ≡ 3)
key_target_lem_example = key_target_lem left 0 3 (omega arith)

run-start-HasSingle_example : HasSingle (run events (start served))
unfolding find_from
run-start-HasSingle_example =
    run-start-HasSingle events served (0, tab (codes "overview") true, refl)
