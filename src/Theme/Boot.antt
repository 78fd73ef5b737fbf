-- ===== src/Theme/Boot.antt =====
-- app/webui/theme-boot.js: the theme before the body is painted.
use vocagateway.Base.{Bool, not, ◌&&◌, Option, none, some, Text, text_eq, codes, if◌then◌else◌}
use vocagateway.Theme.Page.{Preference, system, Resolved, Browser, put, favicon_href, meta_color}

-- The text that `localStorage.getItem` gave, after the test of its three values.
unfoldable pub boot_preference : Option Text → Preference
boot_preference none = system
boot_preference (some pref) =
    if not (text_eq pref (codes "light"))
      && not (text_eq pref (codes "dark"))
      && not (text_eq pref (codes "system"))
    then system
    else if text_eq pref (codes "light")
    then Preference.light
    else if text_eq pref (codes "dark")
    then Preference.dark
    else system

unfoldable pub boot_resolved : Preference → Bool → Resolved
boot_resolved Preference.light system_dark = Resolved.light
boot_resolved Preference.dark system_dark = Resolved.dark
boot_resolved system system_dark = if system_dark then Resolved.dark else Resolved.light

-- `readable` is false where the storage or the media query throws.
unfoldable pub boot : Bool → Browser → Browser
unfolding boot_preference boot_resolved
boot readable b =
    let page = b.page in
    let pref = boot_preference b.stored in
    let resolved = boot_resolved pref b.system_dark in
    if readable
    then record b {
      page = record page {
        theme = resolved;
        preference = pref;
        meta = put (meta_color resolved) page.meta;
        favicon = put (favicon_href resolved) page.favicon;
        apple = put (favicon_href resolved) page.apple;
      };
    }
    else record b { page = record page { theme = Resolved.light; preference = system } }
