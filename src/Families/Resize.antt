-- ===== src/Families/Resize.antt =====
-- The families while the window is resized (`initModelFilters` of app/webui/app.js): each "resize"
-- event puts the layout off by 100 milliseconds.
use vocagateway.Base.{ℕ, suc, Bool, List, [], ◌∷◌, ◌++◌, Option, some, if◌then◌else◌, filter}
use vocagateway.Timers.{Timer, clear_timeout, has_timer, fired}
use vocagateway.Families.Grid.{Grid, column_count, relayout_open_family_panels}
use vocagateway.Families.Grid

pub record Window : Type 0 where
  pub grid : Grid
  -- how many columns the computed style of the grid lists
  pub listed : ℕ
  -- the timers that are set, and the variable `resizeTimer`
  pub timers : List Timer
  pub resize_timer : Option ℕ
  pub next_timer : ℕ

pub data Event : Type 0 where
  -- the window has a new size, at which this many columns are listed
  resize : ℕ → Event
  -- the browser fires a timer
  fire : ℕ → Event
  -- a click on a family, and on the button for all families
  click : ℕ → Event
  expand_all : Bool → Event

abbrev pub columns : Window → ℕ
columns w = column_count w.listed

unfoldable pub handle : Event → Window → Window
unfolding relayout_open_family_panels column_count filter Grid.handle
handle (resize listed) w = record w {
  listed = listed;
  timers = clear_timeout w.resize_timer w.timers ++ record { id = w.next_timer; delay = 100 } ∷ [];
  resize_timer = some w.next_timer;
  next_timer = suc w.next_timer;
}
handle (fire t) w =
    if has_timer t w.timers
    then record w {
      timers = fired t w.timers;
      grid = Grid.handle (Grid.Event.relayout (columns w)) w.grid;
    }
    else w
handle (click t) w = record w { grid = Grid.handle (Grid.Event.click (columns w) t) w.grid }
handle (expand_all b) w = record w {
  grid = Grid.handle (Grid.Event.expand_all (columns w) b) w.grid;
}

abbrev pub run : List Event → Window → Window
run [] w = w
run (e ∷ es) w = run es (handle e w)
