-- ===== src/Script/Whole.antt =====
-- What holds of the session, the polling and the list of models together (app/webui/app.js).
use vocagateway.Base.{
  ℕ, ◌<◌, ◌≡◌, refl, sym, ◌∙◌, true, false, List, [], ◌∷◌, Option, none, some, subst,
}
use vocagateway.Session.Guard.{IsGuarded, handle-IsGuarded}
use vocagateway.Families.Grid.{Grid, tiles, sync_families_expand_toggle, restore_open_families}
use vocagateway.Families.Grid
use vocagateway.Families.Collapse.{IsGrid}
use vocagateway.Families.Rows.{IsShown}
use vocagateway.Families.Sessions.{children-sync, handle-IsGrid}
use vocagateway.Families.Shown.{sync-IsShown, handle-IsShown}
use vocagateway.Families.Layout.{IsLaid, restore-IsLaid}
use vocagateway.Families.Opened.{sync_tile}
use vocagateway.Poll.Progress.{Ratios, Card}
use vocagateway.Poll.Timer.{
  Answer, Poller, is_idle, schedule_model_poll, send_poll, receive_poll, remove_at,
}
use vocagateway.Poll.Timer
use vocagateway.Poll.Single.{IsSingle, handle-IsSingle}
use vocagateway.Swap.Hooks.{Page, map_grid, names_of}
use vocagateway.Swap.Hooks
use vocagateway.Script.Events.{
  Script, Event, act, poll, family, download, copy_token, copy_text, handle, run,
}
use vocagateway.Script.Guarded.{
  poll-IsGuarded, diagnostics-IsGuarded, copy_token-IsGuarded, copy_text-IsGuarded,
}

-- The families, where the list is there.
abbrev pub IsGridShown : Option Grid → Type 0
IsGridShown none = Unit {0}
IsGridShown (some g) = IsGrid g.children × IsShown g

pub record IsWhole (s : Script) : Type 0 where
  pub guarded : IsGuarded s.poller.session
  pub single : IsSingle s.poller
  pub shown : IsGridShown s.page.grid

family-IsGridShown :
    (e : Grid.Event) (o : Option Grid) → IsGridShown o → IsGridShown (map_grid (Grid.handle e) o)
family-IsGridShown e none h = tt
family-IsGridShown e (some g) (h, s) = (handle-IsGrid e g h, handle-IsShown e g h s)

-- A list as the server makes it: its families in order and all closed.
pub record IsServed (g : Grid) : Type 0 where
  pub whole : IsGrid g.children
  pub shown : IsShown g
  pub closed : (u : ℕ) → g.tile_open u ≡ false

restored : ℕ → Grid → Page → Grid
restored cols served p =
    restore_open_families cols (names_of p.grid) (sync_families_expand_toggle served)

swap_list_grid :
    (cols : ℕ) (served : Grid) (p : Page)
    → (Hooks.swap_list cols served p).grid ≡ some (restored cols served p)
unfolding Hooks.swap_list restored
swap_list_grid cols served p = refl

synced-IsGrid : (g : Grid) → IsGrid g.children → IsGrid (sync_families_expand_toggle g).children
synced-IsGrid g h = subst IsGrid (sym (children-sync g)) h

restored-IsGridShown :
    (cols : ℕ) (served : Grid) (p : Page)
    → IsServed served
    → IsGridShown (some (restored cols served p))
unfolding restored Grid.handle
restored-IsGridShown cols served p v =
    let g = sync_families_expand_toggle served in
    let e = Grid.Event.restore cols (names_of p.grid) in
    let h = synced-IsGrid served v.whole in
    (handle-IsGrid e g h, handle-IsShown e g h (sync-IsShown served v.shown))

restored-IsLaid :
    (cols : ℕ) (served : Grid) (p : Page)
    → 0 < cols
    → IsServed served
    → IsLaid cols (restored cols served p)
unfolding restored Grid.handle
restored-IsLaid cols served p c v =
    restore-IsLaid cols (names_of p.grid) (sync_families_expand_toggle served) c
      (synced-IsGrid served v.whole) (sync-IsShown served v.shown)
      (λ u. sync_tile served u ∙ v.closed u)

module _ {F : Type 0} (n : Ratios F) where
  -- Each list that is swapped in is as the server makes it.
  abbrev pub AreServed : List (Event F) → Type 0
  AreServed [] = Unit {0}
  AreServed (Event.swap_list cols served cards ∷ es) = IsServed served × AreServed es
  AreServed (act e ∷ es) = AreServed es
  AreServed (poll e ∷ es) = AreServed es
  AreServed (family e ∷ es) = AreServed es
  AreServed (download a ∷ es) = AreServed es
  AreServed (copy_token b ∷ es) = AreServed es
  AreServed (copy_text b ∷ es) = AreServed es

  keep-IsWhole :
      (es : List (Event F)) (s : Script) → AreServed es → IsWhole s → IsWhole (run n es s)
  unfolding handle
  keep-IsWhole [] s v h = h
  keep-IsWhole (act e ∷ es) s v h = keep-IsWhole es (handle n (act e) s) v (record {
    guarded = handle-IsGuarded e s.poller.session h.guarded;
    single = record { at_most_one = h.single.at_most_one; known = h.single.known };
    shown = h.shown;
  })
  keep-IsWhole (poll e ∷ es) s v h = keep-IsWhole es (handle n (poll e) s) v (record {
    guarded = poll-IsGuarded n e s.poller h.guarded;
    single = handle-IsSingle n e s.poller h.single;
    shown = h.shown;
  })
  keep-IsWhole (family e ∷ es) s v h = keep-IsWhole es (handle n (family e) s) v (record {
    guarded = h.guarded;
    single = h.single;
    shown = family-IsGridShown e s.page.grid h.shown;
  })
  keep-IsWhole (Event.swap_list cols served cards ∷ es) s (v, vs) h =
      keep-IsWhole es (handle n (Event.swap_list cols served cards) s) vs (record {
        guarded = poll-IsGuarded n (Timer.Event.after_swap cards true) s.poller h.guarded;
        single = handle-IsSingle n (Timer.Event.after_swap cards true) s.poller h.single;
        shown =
            subst IsGridShown (sym (swap_list_grid cols served s.page))
              (restored-IsGridShown cols served s.page v);
      })
  keep-IsWhole (download a ∷ es) s v h = keep-IsWhole es (handle n (download a) s) v (record {
    guarded =
        diagnostics-IsGuarded a (record { session = s.poller.session; files = s.files }) h.guarded;
    single = record { at_most_one = h.single.at_most_one; known = h.single.known };
    shown = h.shown;
  })
  keep-IsWhole (copy_token b ∷ es) s v h = keep-IsWhole es (handle n (copy_token b) s) v (record {
    guarded = copy_token-IsGuarded b s.poller.session h.guarded;
    single = record { at_most_one = h.single.at_most_one; known = h.single.known };
    shown = h.shown;
  })
  keep-IsWhole (copy_text b ∷ es) s v h = keep-IsWhole es (handle n (copy_text b) s) v (record {
    guarded = copy_text-IsGuarded b s.poller.session h.guarded;
    single = record { at_most_one = h.single.at_most_one; known = h.single.known };
    shown = h.shown;
  })

  -- However the token's handlers, the polling and its answers, clicks on families, swaps of the list,
  -- the download of the diagnostics and the copies follow one another: the page behind the dialog is
  -- inert exactly while the dialog is up, and has a token while it is down; at most one timer of the
  -- polling is set; each tile, button and panel of a family agree; and a new list shows the families
  -- that stay open each under its row. The server sends its lists with all families closed.
  pub run-IsWhole :
      (es : List (Event F)) (s : Script)
      → AreServed es
      → IsWhole s
      → IsWhole (run n es s)
        × ((cols : ℕ) (served : Grid) (cards : List Card)
            → 0 < cols
            → IsServed served
            → (g : Grid) × ((handle n (Event.swap_list cols served cards) (run n es s)).page.grid
                ≡ some g)
              × IsLaid cols g)
  unfolding handle
  run-IsWhole es s v h = (
    keep-IsWhole es s v h,
    λ cols served cards c w. (
      restored cols served (run n es s).page,
      swap_list_grid cols served (run n es s).page,
      restored-IsLaid cols served (run n es s).page c w,
    ),
  )
