-- ===== src/Rail/Examples.antt =====
-- Runs of the filters' rail and of the search of app/webui/app.js.
use vocagateway.Base.{
  ◌≡◌, ◌↔◌, refl, true, false, List, [], ◌∷◌, none, some, Text, codes, get_elem?, trim, map, ltb,
  if◌then◌else◌, ◌+◌,
}
use vocagateway.Rail.Collapse.{RailToggle, Rail, Event, click_toggle, init, handle, run}
use vocagateway.Rail.Kept.{init-run}
use vocagateway.Rail.Search.{Row, search_filters, Contains, search_filters-Contains}

abbrev no_rail : Rail
no_rail = record {
  layout = none;
  aside_hidden = none;
  toggle = none;
  side = none;
  stored = none;
  has_storage = true;
}

abbrev show_toggle : RailToggle
show_toggle = record { expanded = false; title = []; label = none }

-- The rail is served open, comes up collapsed, and is opened.
abbrev visit : List Event
visit = init (some false) (some false) (some show_toggle) none ∷ click_toggle ∷ []

visit_open : (run visit no_rail).layout ≡ some false
unfolding handle
visit_open = refl

init-run_example :
    ((handle (init (some true) none none none) (run visit no_rail)).layout ≡ some false)
    × ((t : RailToggle) → (run visit no_rail).toggle ≡ some t → t.expanded ≡ true)
init-run_example = init-run visit no_rail false true none none none refl refl visit_open

-- Lower case for the letters of ASCII.
abbrev lower : Text → Text
lower t = map (λ c. if ltb c 91 then (if ltb 64 c then c + 32 else c) else c) t

abbrev languages : List Row
languages =
    record { content = codes "Polish"; hidden = false }
    ∷ record { content = codes "Danish"; hidden = false }
    ∷ []

abbrev dan : Row
dan = record { content = codes "Danish"; hidden = false }

search_run : get_elem? (search_filters lower (codes " DAN ") languages) 1 ≡ some dan
unfolding search_filters trim
search_run = refl

search_filters-Contains_example :
    (o : Row) × (get_elem? languages 1 ≡ some o)
    × (dan.content ≡ o.content)
    × ((dan.hidden ≡ false) ↔ Contains (lower (trim (codes " DAN "))) (lower o.content))
search_filters-Contains_example =
    search_filters-Contains lower (codes " DAN ") languages 1 dan search_run
