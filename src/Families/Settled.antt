-- ===== src/Families/Settled.antt =====
-- After a resize the families are laid out once, for the window as it then is (app/webui/app.js).
use vocagateway.Base.{ℕ, ◌<◌, ◌≡◌, refl, true, List, [], ◌∷◌, Bool-cases, inl, inr, arith}
use vocagateway.Timers.{
  has_timer, fired, fired_last, length-fired, clear_timeout-fired, IsOnly, reset_lem, reset-IsOnly,
}
use vocagateway.Families.Grid.{Grid, column_count}
use vocagateway.Families.Grid
use vocagateway.Families.Collapse.{IsGrid}
use vocagateway.Families.Rows.{IsShown}
use vocagateway.Families.Sessions.{handle-IsGrid}
use vocagateway.Families.Shown.{handle-IsShown}
use vocagateway.Families.Layout.{IsLaid, relayout-IsLaid}
use vocagateway.Families.Resize.{
  Window, Event, resize, fire, click, expand_all, columns, handle, run,
}

column_count_pos : (listed : ℕ) → 0 < column_count listed
unfolding column_count
column_count_pos listed = ground arith

pub record IsSteady (w : Window) : Type 0 where
  pub only : IsOnly w.resize_timer w.timers
  pub whole : IsGrid w.grid.children
  pub shown : IsShown w.grid

abbrev laid_again : ℕ → Window → Window
laid_again t w = record w {
  timers = fired t w.timers;
  grid = Grid.handle (Grid.Event.relayout (columns w)) w.grid;
}

fire_set : (t : ℕ) (w : Window) → has_timer t w.timers ≡ true → handle (fire t) w ≡ laid_again t w
unfolding handle
fire_set t w h = rw h refl

handle-IsSteady : (e : Event) (w : Window) → IsSteady w → IsSteady (handle e w)
unfolding handle
handle-IsSteady (resize listed) w i = record {
  only =
      rw (reset_lem w.resize_timer w.next_timer 100 w.timers i.only)
        (reset-IsOnly w.next_timer 100);
  whole = i.whole;
  shown = i.shown;
}
handle-IsSteady (fire t) w i = elim (Bool-cases (has_timer t w.timers)) [
  | inl e ↦ rw e (record {
    only = record {
      at_most_one = omega (arith, length-fired t w.timers, i.only.at_most_one);
      known = clear_timeout-fired w.resize_timer t w.timers i.only.known;
    };
    whole = handle-IsGrid (Grid.Event.relayout (columns w)) w.grid i.whole;
    shown = handle-IsShown (Grid.Event.relayout (columns w)) w.grid i.whole i.shown;
  })
  | inr e ↦ rw e i
]
handle-IsSteady (click t) w i = record {
  only = i.only;
  whole = handle-IsGrid (Grid.Event.click (columns w) t) w.grid i.whole;
  shown = handle-IsShown (Grid.Event.click (columns w) t) w.grid i.whole i.shown;
}
handle-IsSteady (expand_all b) w i = record {
  only = i.only;
  whole = handle-IsGrid (Grid.Event.expand_all (columns w) b) w.grid i.whole;
  shown = handle-IsShown (Grid.Event.expand_all (columns w) b) w.grid i.whole i.shown;
}

run-IsSteady : (es : List Event) (w : Window) → IsSteady w → IsSteady (run es w)
run-IsSteady [] w i = i
run-IsSteady (e ∷ es) w i = run-IsSteady es (handle e w) (handle-IsSteady e w i)

resized :
    (listed : ℕ) (w : Window)
    → IsSteady w
    → (handle (resize listed) w).timers ≡ record { id = w.next_timer; delay = 100 } ∷ []
unfolding handle
resized listed w i = reset_lem w.resize_timer w.next_timer 100 w.timers i.only

-- However the window is resized and families are clicked: each resize leaves exactly one timer, of
-- 100 milliseconds, and moves no panel. When a timer fires it was the last one, and the panels of
-- the open families then stand under their rows, for the columns that there are by then.
pub run-resize_lem :
    (es : List Event) (w : Window)
    → IsSteady w
    → ((listed : ℕ)
        → ((handle (resize listed) (run es w)).timers
            ≡ record { id = (run es w).next_timer; delay = 100 } ∷ [])
          × ((handle (resize listed) (run es w)).grid ≡ (run es w).grid))
      × ((t : ℕ)
          → has_timer t (run es w).timers ≡ true
          → ((handle (fire t) (run es w)).timers ≡ [])
            × IsLaid (columns (run es w)) (handle (fire t) (run es w)).grid)
unfolding handle
run-resize_lem es w i =
    let u = run es w in
    let j = run-IsSteady es w i in
    (
      λ listed. (resized listed u j, refl),
      λ t h. (
        rw h (fired_last t u.timers j.only.at_most_one h),
        rw h (relayout-IsLaid (columns u) u.grid (column_count_pos u.listed) j.whole j.shown),
      ),
    )
