-- ===== src/Script/Examples.antt =====
-- A refused token, a swap and a download, on one page of app/webui/app.js.
use vocagateway.Base.{
  ℕ, ◌+◌, ◌/◌, ◌<◌, ◌≡◌, refl, true, false, List, [], ◌∷◌, none, some, min, max, any, codes,
  decimal, arith,
}
use vocagateway.Session.State.{Session, get_token}
use vocagateway.Families.Grid.{Grid, tile, panel, tiles}
use vocagateway.Families.Grid
use vocagateway.Families.Order.{count_panel}
use vocagateway.Families.Layout.{IsLaid}
use vocagateway.Poll.Progress.{pos, Ratios, Card}
use vocagateway.Poll.Timer
use vocagateway.Copy.Messages
use vocagateway.Script.Events.{Script, Event, poll, family, swap_list, download, handle, run}
use vocagateway.Script.Whole.{IsWhole, IsServed, run-IsWhole}

abbrev percents : Ratios ℕ
percents = record {
  nought = 0;
  one = 100;
  smaller = λ a b. min a b;
  larger = λ a b. max a b;
  percent = λ a. pos a;
  width = λ a. decimal a;
  tenths = λ a. (a + 50_000_000) / 100_000_000;
}

abbrev signed_in : Session
signed_in = record {
  token = some (codes "t");
  overlay_hidden = true;
  overlay_aria_hidden = true;
  background_inert = false;
  input = [];
  error = [];
  error_hidden = true;
  toast = [];
  toast_is_error = false;
  toast_hidden = true;
  toast_pending = false;
  active_tab = none;
  requests = [];
}

abbrev two_families : Grid
two_families = record {
  children = tile 1 ∷ panel 1 ∷ tile 2 ∷ panel 2 ∷ [];
  tile_open = λ t. false;
  aria_expanded = λ t. false;
  panel_hidden = λ t. true;
  panel_open = λ t. false;
  toggle = some false;
}

abbrev card : Card
card = record {
  element = 5;
  model_id = codes "tiny";
  value_now = none;
  bar_width = none;
  copy = none;
}

abbrev script : Script
script = record {
  poller = record {
    cards = card ∷ [];
    has_list = true;
    visible = true;
    timers = [];
    model_poll_timer = none;
    next_timer = 0;
    in_flight = [];
    session = signed_in;
    form = none;
    refreshes = [];
  };
  page = record {
    grid = some two_families;
    details = none;
    performance_details_open = false;
    open_model_families = none;
    models_scroll_y = none;
    scroll_y = 0;
    restores = [];
    busy = false;
  };
  files = [];
}

-- A family is opened, the list is swapped, and the next answer of the polling refuses the token, as
-- does that to a download which was under way.
abbrev events : List (Event ℕ)
events =
    family (Grid.Event.click 2 1)
    ∷ swap_list 2 two_families (card ∷ [])
    ∷ poll (Timer.Event.fire 0)
    ∷ poll (Timer.Event.receive 0 (Timer.Answer.refused 401))
    ∷ download Messages.Diagnostics.unauthorized
    ∷ []

events-run :
    ((run percents events script).poller.session.overlay_hidden ≡ false)
    × ((run percents events script).poller.session.token ≡ none)
    × ((run percents events script).files ≡ [])
unfolding handle
events-run = (refl, refl, refl)

two_families-IsServed : IsServed two_families
unfolding tiles any count_panel
two_families-IsServed = record {
  whole = record { apart = refl; owned = refl; once = λ t m. ground arith };
  shown = record { expanded = λ t. refl; hidden = λ t m. refl; opened = λ t m. refl };
  closed = λ t. refl;
}

script-IsWhole : IsWhole script
unfolding get_token
script-IsWhole = record {
  guarded = record { inert = refl; aria = refl; error_shown = refl; token_known = λ e f. cc };
  single = record { at_most_one = omega arith; known = refl };
  shown = (two_families-IsServed.whole, two_families-IsServed.shown);
}

run-IsWhole_example :
    IsWhole (run percents events script)
    × ((cols : ℕ) (served : Grid) (cards : List Card)
        → 0 < cols
        → IsServed served
        → (g : Grid) × ((handle percents
              (swap_list cols served cards)
              (run percents events script)).page.grid
            ≡ some g)
          × IsLaid cols g)
run-IsWhole_example = run-IsWhole percents events script (two_families-IsServed, tt) script-IsWhole
