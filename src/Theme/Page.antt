-- ===== src/Theme/Page.antt =====
-- The theme functions of app/webui/app.js: the preference in the browser's storage, the system's
-- preference, and the attributes of the page that follow from them.
use vocagateway.Base.{
  Bool, true, false, ◌++◌, Option, none, some, Text, text_eq, codes, if◌then◌else◌,
}

pub data Preference : Type 0 where
  system light dark : Preference

pub data Resolved : Type 0 where
  light dark : Resolved

abbrev pub preference_text : Preference → Text
preference_text system = codes "system"
preference_text Preference.light = codes "light"
preference_text Preference.dark = codes "dark"

abbrev pub resolved_text : Resolved → Text
resolved_text Resolved.light = codes "light"
resolved_text Resolved.dark = codes "dark"

-- What the storage holds under the theme's key: a text, or nothing.
unfoldable pub read_theme_preference : Option Text → Preference
read_theme_preference none = system
read_theme_preference (some pref) =
    if text_eq pref (codes "light")
    then Preference.light
    else if text_eq pref (codes "dark")
    then Preference.dark
    else system

unfoldable pub resolve_theme : Preference → Bool → Resolved
resolve_theme Preference.light system_dark = Resolved.light
resolve_theme Preference.dark system_dark = Resolved.dark
resolve_theme system system_dark = if system_dark then Resolved.dark else Resolved.light

unfoldable pub theme_label : Preference → Resolved → Text
theme_label system resolved =
    codes "Theme: system (" ++ resolved_text resolved ++ codes "). Click for light."
theme_label Preference.light resolved = codes "Theme: light. Click for dark."
theme_label Preference.dark resolved = codes "Theme: dark. Click for system."

unfoldable pub cycle_theme_preference : Preference → Preference
cycle_theme_preference system = Preference.light
cycle_theme_preference Preference.light = Preference.dark
cycle_theme_preference Preference.dark = system

abbrev pub favicon_href : Resolved → Text
favicon_href Resolved.dark = codes "/assets/favicon-dark.svg"
favicon_href Resolved.light = codes "/assets/favicon-light.svg"

abbrev pub meta_color : Resolved → Text
meta_color Resolved.dark = codes "#141614"
meta_color Resolved.light = codes "#f7f6f3"

pub record Toggle : Type 0 where
  pub preference : Preference
  pub label : Text
  pub title : Text

-- The attributes that the theme sets. An element that the page lacks is `none`.
pub record Page : Type 0 where
  pub theme : Resolved
  pub preference : Preference
  pub meta : Option Text
  pub favicon : Option Text
  pub apple : Option Text
  pub toggle : Option Toggle

-- A write to an element, where the page has it.
abbrev pub put {ℓ} : {A : Type ℓ} → A → Option A → Option A
put a none = none
put a (some _) = some a

unfoldable pub set_favicon : Resolved → Page → Page
set_favicon resolved page = record page {
  favicon = put (favicon_href resolved) page.favicon;
  apple = put (favicon_href resolved) page.apple;
}

unfoldable pub apply_theme : Preference → Bool → Page → Page
unfolding set_favicon resolve_theme theme_label
apply_theme preference system_dark page =
    let resolved = resolve_theme preference system_dark in
    let label = theme_label preference resolved in
    let colored = record page {
      theme = resolved;
      preference = preference;
      meta = put (meta_color resolved) page.meta;
    } in
    let with_icon = set_favicon resolved colored in
    record with_icon {
      toggle = put (record { preference = preference; label = label; title = label }) page.toggle;
    }

-- The browser: the stored preference, the system's preference, and the page.
pub record Browser : Type 0 where
  pub stored : Option Text
  pub system_dark : Bool
  pub page : Page

unfoldable pub init_theme : Browser → Browser
unfolding apply_theme read_theme_preference
init_theme b = record b { page = apply_theme (read_theme_preference b.stored) b.system_dark b.page }

pub data Event : Type 0 where
  -- a click on the toggle
  click : Event
  -- the system's preference changes
  system_change : Bool → Event

unfoldable pub click_toggle : Browser → Browser
unfolding apply_theme read_theme_preference cycle_theme_preference
click_toggle b =
    let next = cycle_theme_preference (read_theme_preference b.stored) in
    record b { stored = some (preference_text next); page = apply_theme next b.system_dark b.page }

abbrev pub is_system : Preference → Bool
is_system system = true
is_system Preference.light = false
is_system Preference.dark = false

unfoldable pub on_system_change : Browser → Browser
unfolding apply_theme read_theme_preference
on_system_change b =
    if is_system (read_theme_preference b.stored)
    then record b { page = apply_theme system b.system_dark b.page }
    else b

-- A page without the toggle has no click handler on it.
unfoldable pub handle : Event → Browser → Browser
unfolding click_toggle on_system_change
handle click b = elim b.page.toggle [ none ↦ b | some _ ↦ click_toggle b ]
handle (system_change prefers_dark) b = on_system_change (record b { system_dark = prefers_dark })
