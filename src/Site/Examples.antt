-- ===== src/Site/Examples.antt =====
-- Runs of the scripts of the static site.
use vocagateway.Base.{◌≡◌, ◌≤◌, refl, true, false, List, [], ◌∷◌, some, codes, arith}
use vocagateway.Site.Reveal
use vocagateway.Site.Reveal.{Node, observe, IsRevealed, run-start-IsRevealed}
use vocagateway.Site.Menu
use vocagateway.Site.Menu.{
  Menu, IsTold, put_label, run-IsTold, click_menu, click_navigation, press, resize,
}
use vocagateway.Site.Faq
use vocagateway.Site.Faq.{Detail, click, fire, fire_toggle, close_others}
use vocagateway.Site.Opened.{count_open, is_settled, run-count_open}

abbrev served_menu : Menu
served_menu = record {
  expanded = false;
  label = some (codes "Open navigation");
  is_open = false;
  toggle_focused = false;
}

abbrev presses : List Menu.Event
presses = click_menu ∷ resize 800 ∷ press true ∷ click_menu ∷ click_navigation true ∷ []

served_menu-IsTold : IsTold served_menu
served_menu-IsTold = record { told = refl; named = refl }

-- The first of three questions is served open, and its event is queued.
abbrev questions : List Detail
questions =
    record { is_open = true; pending = true }
    ∷ record { is_open = false; pending = false }
    ∷ record { is_open = false; pending = false }
    ∷ []

-- Two more are opened before the first event is fired.
abbrev hasty : List Faq.Event
hasty = click 1 ∷ click 2 ∷ fire 0 ∷ fire 1 ∷ fire 2 ∷ []

hasty_settled : is_settled (Faq.run hasty questions) ≡ true
unfolding Faq.handle
hasty_settled = refl

run-count_open_example : count_open (Faq.run hasty questions) ≤ 1
run-count_open_example = run-count_open hasty questions (ground arith) hasty_settled

abbrev three_nodes : List Node
three_nodes =
    record { visible = false; observed = false }
    ∷ record { visible = false; observed = false }
    ∷ record { visible = true; observed = false }
    ∷ []

-- The first element is seen, then the timer fires.
abbrev scrolling : List Reveal.Event
scrolling =
    observe (
      record { place = 0; is_intersecting = true }
      ∷ record { place = 1; is_intersecting = false }
      ∷ [])
    ∷ Reveal.fire
    ∷ []
