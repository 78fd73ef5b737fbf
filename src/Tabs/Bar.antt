-- ===== src/Tabs/Bar.antt =====
-- `activateTab`, `openTabByName`, the handlers on the tabs, and the choice of the first tab, in
-- app/webui/app.js. A tab is known by its place among `.tab`, which the page never changes.
use vocagateway.Base.{
  ℕ, suc, ◌+◌, ◌-◌, ◌%◌, Bool, true, false, List, [], ◌∷◌, ◌++◌, Option, none, some, Text, text_eq,
  length, get_elem?, ◌==◌, if◌then◌else◌, codes,
}

pub record Tab : Type 0 where
  -- `data-tab`, `id` and `hx-get`
  pub name : Text
  pub id : Text
  pub href : Option Text
  pub active : Bool
  pub selected : Bool
  -- `tabIndex` is 0, not -1
  pub in_order : Bool

pub record Bar : Type 0 where
  pub tabs : List Tab
  -- `aria-labelledby` and `hx-get` of the panel
  pub label : Text
  pub panel_href : Option Text
  -- the fragment of the page's address
  pub fragment : Text
  -- the place of the tab that has the focus, and the partials asked for, oldest first
  pub focus : Option ℕ
  pub loads : List Text

unfoldable pub mark : Bool → Tab → Tab
mark active tab = record tab { active = active; selected = active; in_order = active }

-- The loop over the tabs, from the place `i` on.
unfoldable pub mark_from : ℕ → ℕ → List Tab → List Tab
unfolding mark
mark_from i place [] = []
mark_from i place (t ∷ ts) = mark (i == place) t ∷ mark_from (suc i) place ts

unfoldable pub activate_tab : ℕ → Tab → Bool → Bar → Bar
unfolding mark_from
activate_tab place tab update_location bar = record bar {
  tabs = mark_from 0 place bar.tabs;
  label = if text_eq tab.id [] then bar.label else tab.id;
  fragment = if update_location then tab.name else bar.fragment;
}

-- The first tab that passes a test, with its place.
unfoldable pub find_from : ℕ → (Tab → Bool) → List Tab → Option (ℕ × Tab)
find_from i p [] = none
find_from i p (t ∷ ts) = if p t then some (i, t) else find_from (suc i) p ts

-- `document.querySelector('.tab[data-tab="…"]')`
unfoldable pub find_tab : Text → Bar → Option (ℕ × Tab)
unfolding find_from
find_tab key bar = find_from 0 (λ t. text_eq t.name key) bar.tabs

-- The renamed tab keeps its old name as an alias.
unfoldable pub tab_key : Text → Text
tab_key name = if text_eq name (codes "test") then codes "pair" else name

unfoldable pub load : Option Text → Bar → Bar
load none bar = bar
load (some href) bar =
    if text_eq href [] then bar else record bar { loads = bar.loads ++ href ∷ [] }

unfoldable pub open_tab_by_name : Text → Bar → Bar
unfolding find_tab tab_key activate_tab load
open_tab_by_name name bar = elim (find_tab (tab_key name) bar) [
  | none ↦ bar
  | some (place, tab) ↦ load tab.href (activate_tab place tab true bar)
]

-- The click on a tab; htmx loads its partial.
unfoldable pub click_tab : ℕ → Bar → Bar
unfolding activate_tab load
click_tab place bar = elim (get_elem? bar.tabs place) [
  | none ↦ bar
  | some tab ↦ load tab.href (activate_tab place tab true bar)
]

pub data Key : Type 0 where
  left right up down home end other : Key

-- Where a key leads from the place `index` among `n` tabs. A key of no meaning leads nowhere.
unfoldable pub key_target : Key → ℕ → ℕ → Option ℕ
key_target home index n = some 0
key_target end index n = some (n - 1)
key_target right index n = some ((index + 1 + n) % n)
key_target down index n = some ((index + 1 + n) % n)
key_target left index n = some ((index + n - 1) % n)
key_target up index n = some ((index + n - 1) % n)
key_target other index n = none

-- The key on the tab at a place: the focus moves, and the tab is clicked.
unfoldable pub press_key : Key → ℕ → Bar → Bar
unfolding key_target click_tab
press_key key place bar = elim (key_target key place (length bar.tabs)) [
  | none ↦ bar
  | some next ↦ click_tab next (record bar { focus = some next })
]

-- An attribute that is missing is written as the text `null`.
abbrev pub href_attribute : Option Text → Text
href_attribute none = codes "null"
href_attribute (some href) = href

-- The tab that the address names.
unfoldable pub requested_tab : Bar → Option (ℕ × Tab)
unfolding find_tab tab_key
requested_tab bar =
    let key = tab_key bar.fragment in
    let found = find_tab key bar in if text_eq key [] then none else found

-- The last lines of the script: that tab, or else the one served as active.
unfoldable pub start_at : Option (ℕ × Tab) → Bar → Bar
unfolding find_from activate_tab
start_at (some (place, tab)) bar = record (activate_tab place tab false bar) {
  panel_href = some (href_attribute tab.href);
}
start_at none bar = elim (find_from 0 (λ t. t.active) bar.tabs) [
  | none ↦ bar
  | some (place, tab) ↦ activate_tab place tab false bar
]

unfoldable pub start : Bar → Bar
unfolding requested_tab start_at
start bar = start_at (requested_tab bar) bar

pub data Event : Type 0 where
  click : ℕ → Event
  press : Key → ℕ → Event
  open_name : Text → Event

unfoldable pub handle : Event → Bar → Bar
unfolding click_tab press_key open_tab_by_name
handle (click place) bar = click_tab place bar
handle (press key place) bar = press_key key place bar
handle (open_name name) bar = open_tab_by_name name bar
