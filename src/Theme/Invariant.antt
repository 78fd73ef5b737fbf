-- ===== src/Theme/Invariant.antt =====
-- The page always shows the theme that the stored preference and the system's preference ask for
-- (app/webui/app.js, app/webui/theme-boot.js).
use vocagateway.Base.{
  ◌≡◌, refl, subst, Bool, true, false, not, ◌&&◌, List, [], ◌∷◌, ◌++◌, Option, none, some, Text,
  text_eq, arith, codes, if◌then◌else◌, Bool-cases, inl, inr,
}
use vocagateway.Theme.Page.{
  Preference, system, Resolved, Page, Browser, Toggle, put, favicon_href, meta_color,
  preference_text, read_theme_preference, resolve_theme, theme_label, cycle_theme_preference,
  apply_theme, init_theme, Event, click, system_change, click_toggle, on_system_change, handle,
  is_system,
}
use vocagateway.Theme.Boot.{boot, boot_preference, boot_resolved}

-- What an element shows, where the page has it.
abbrev pub Shows {ℓ} : {A : Type ℓ} → A → Option A → Type ℓ
Shows a none = Unit
Shows a (some b) = b ≡ a

-- The page shows this preference and this theme.
pub record ShowsResolved (preference : Preference) (resolved : Resolved) (page : Page)
    : Type 0 where
  pub theme : page.theme ≡ resolved
  pub preference_shown : page.preference ≡ preference
  pub meta : Shows (meta_color resolved) page.meta
  pub favicon : Shows (favicon_href resolved) page.favicon
  pub apple : Shows (favicon_href resolved) page.apple
  pub toggle :
      Shows
        (record {
          preference = preference;
          label = theme_label preference resolved;
          title = theme_label preference resolved;
        })
        page.toggle

-- ... under this preference of the system.
abbrev pub ShowsTheme : Preference → Bool → Page → Type 0
ShowsTheme preference system_dark = ShowsResolved preference (resolve_theme preference system_dark)

abbrev pub IsThemed : Browser → Type 0
IsThemed b = ShowsTheme (read_theme_preference b.stored) b.system_dark b.page

Shows-put {ℓ} : {A : Type ℓ} (a : A) (o : Option A) → Shows a (put a o)
Shows-put a none = tt
Shows-put a (some b) = refl

apply_theme-ShowsTheme :
    (preference : Preference) (dark : Bool) (page : Page)
    → ShowsTheme preference dark (apply_theme preference dark page)
unfolding apply_theme
apply_theme-ShowsTheme preference dark page = record {
  theme = refl;
  preference_shown = refl;
  meta = Shows-put _ page.meta;
  favicon = Shows-put _ page.favicon;
  apple = Shows-put _ page.apple;
  toggle = Shows-put _ page.toggle;
}

-- Storing a preference and reading it back gives it again.
read-preference_text : (p : Preference) → read_theme_preference (some (preference_text p)) ≡ p
unfolding read_theme_preference
read-preference_text system = refl
read-preference_text Preference.light = refl
read-preference_text Preference.dark = refl

-- A pinned preference does not depend on the system's.
resolve_theme_pinned :
    (p : Preference) (d e : Bool) → is_system p ≡ false → resolve_theme p d ≡ resolve_theme p e
unfolding resolve_theme
resolve_theme_pinned system d e h = absurd (cc)
resolve_theme_pinned Preference.light d e h = refl
resolve_theme_pinned Preference.dark d e h = refl

init_theme-IsThemed : (b : Browser) → IsThemed (init_theme b)
unfolding init_theme
init_theme-IsThemed b = apply_theme-ShowsTheme (read_theme_preference b.stored) b.system_dark b.page

ShowsTheme-pinned :
    (p : Preference) (d e : Bool) {page : Page}
    → is_system p ≡ false
    → ShowsTheme p d page
    → ShowsTheme p e page
ShowsTheme-pinned p d e {page} pinned h =
    subst (λ r. ShowsResolved p r page) (resolve_theme_pinned p d e pinned) h

is_system_lem : (p : Preference) → is_system p ≡ true → p ≡ system
is_system_lem system h = refl
is_system_lem Preference.light h = absurd (cc)
is_system_lem Preference.dark h = absurd (cc)

-- Each click of the toggle and each change of the system's preference leaves the page showing the
-- theme that the stored preference and the system's ask for.
handle-IsThemed : (e : Event) (b : Browser) → IsThemed b → IsThemed (handle e b)
unfolding handle click_toggle on_system_change
handle-IsThemed click b h = go b.page.toggle refl
  where
    next : Preference
    next = cycle_theme_preference (read_theme_preference b.stored)

    go : (t : Option Toggle) → b.page.toggle ≡ t → IsThemed (handle click b)
    go none e = rw (e, handle) h
    go (some t) e =
        rw (e, handle)
          (rw (read-preference_text next) (apply_theme-ShowsTheme next b.system_dark b.page))
handle-IsThemed (system_change d) b h =
    elim (Bool-cases (is_system (read_theme_preference b.stored))) [
      | inl e ↦ rw e (
          rw (is_system_lem (read_theme_preference b.stored) e)
            (apply_theme-ShowsTheme system d b.page))
      | inr e ↦ rw e (ShowsTheme-pinned (read_theme_preference b.stored) b.system_dark d e h)
    ]

-- A session on the page.
abbrev pub run : List Event → Browser → Browser
run [] b = b
run (e ∷ es) b = run es (handle e b)

run-IsThemed : (es : List Event) (b : Browser) → IsThemed b → IsThemed (run es b)
run-IsThemed [] b h = h
run-IsThemed (e ∷ es) b h = run-IsThemed es (handle e b) (handle-IsThemed e b h)

-- From the start of the page on, whatever its state was, and after any clicks of the toggle and
-- changes of the system's preference, the page shows the theme, the icons and the label that the
-- stored preference and the system's ask for.
pub run-init_theme-IsThemed : (es : List Event) (b : Browser) → IsThemed (run es (init_theme b))
run-init_theme-IsThemed es b = run-IsThemed es (init_theme b) (init_theme-IsThemed b)

-- The label names the preference that the next click stores, and three clicks come back to the
-- first one.
pub cycle_theme_preference_lem :
    (p : Preference) (r : Resolved)
    → ((shown : Text) × (theme_label p r
          ≡ shown
            ++ codes ". Click for "
            ++ preference_text (cycle_theme_preference p)
            ++ codes "."))
      × (cycle_theme_preference (cycle_theme_preference (cycle_theme_preference p)) ≡ p)
unfolding theme_label cycle_theme_preference
cycle_theme_preference_lem system Resolved.light = ((codes "Theme: system (light)", refl), refl)
cycle_theme_preference_lem system Resolved.dark = ((codes "Theme: system (dark)", refl), refl)
cycle_theme_preference_lem Preference.light r = ((codes "Theme: light", refl), refl)
cycle_theme_preference_lem Preference.dark r = ((codes "Theme: dark", refl), refl)

boot_preference-eq-read :
    (stored : Option Text) → boot_preference stored ≡ read_theme_preference stored
unfolding boot_preference read_theme_preference
boot_preference-eq-read none = refl
boot_preference-eq-read (some pref) =
    by_tests (text_eq pref (codes "light")) (text_eq pref (codes "dark"))
      (text_eq pref (codes "system"))
  where
    by_tests :
        (l d s : Bool)
        → (if not l && not d && not s
            then system
            else if l
            then Preference.light
            else if d
            then Preference.dark
            else system)
          ≡ (if l then Preference.light else if d then Preference.dark else system)
    by_tests l d s = ground arith

boot_resolved-eq-resolve : (p : Preference) (d : Bool) → boot_resolved p d ≡ resolve_theme p d
unfolding boot_resolved resolve_theme
boot_resolved-eq-resolve system d = refl
boot_resolved-eq-resolve Preference.light d = refl
boot_resolved-eq-resolve Preference.dark d = refl

-- Before the body is painted the boot script sets what `initTheme` will set, but for the toggle,
-- which is not there yet.
pub boot-eq-init_theme :
    (b : Browser)
    → (boot true b).page
      ≡ (let page = (init_theme b).page in record page { toggle = b.page.toggle })
unfolding boot init_theme apply_theme
boot-eq-init_theme b =
    rw
      (
        boot_preference-eq-read b.stored,
        boot_resolved-eq-resolve (read_theme_preference b.stored) b.system_dark,
      )
      refl

put-put {ℓ} : {A : Type ℓ} (a b : A) (o : Option A) → put a (put b o) ≡ put a o
put-put a b none = refl
put-put a b (some c) = refl

-- Whether or not the storage was readable to the boot script, `initTheme` leaves the same page as
-- without it.
pub init_theme-boot : (r : Bool) (b : Browser) → init_theme (boot r b) ≡ init_theme b
unfolding boot init_theme apply_theme
init_theme-boot true b = simp put-put
init_theme-boot false b = refl
