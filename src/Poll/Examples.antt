-- ===== src/Poll/Examples.antt =====
-- Runs of the polling of app/webui/app.js, with percents for its numbers.
use vocagateway.Base.{
  ◌+◌, ◌/◌, ◌≡◌, refl, true, false, List, [], ◌∷◌, none, some, min, max, codes, decimal, arith,
}
use vocagateway.Session.State.{Session}
use vocagateway.Poll.Size.{format_bytes, format_bytes_carry}
use vocagateway.Poll.Progress.{
  ℤ, pos, negsuc, LeInt, string_of, Ratios, IsOrdered, Entry, Card, update_cards,
}
use vocagateway.Poll.Timer.{
  entries, Poller, Event, visibility_change, after_swap, fire, receive, handle, run,
}
use vocagateway.Poll.Single.{IsSingle, run-IsSingle}
use vocagateway.Poll.Answers.{AreBounded, update_cards-AreBounded}

abbrev smaller : ℤ → ℤ → ℤ
smaller (pos a) (pos b) = pos (min a b)
smaller (pos a) (negsuc b) = negsuc b
smaller (negsuc a) (pos b) = negsuc a
smaller (negsuc a) (negsuc b) = negsuc (max a b)

abbrev larger : ℤ → ℤ → ℤ
larger (pos a) (pos b) = pos (max a b)
larger (pos a) (negsuc b) = pos a
larger (negsuc a) (pos b) = pos b
larger (negsuc a) (negsuc b) = negsuc (min a b)

abbrev percents : Ratios ℤ
percents = record {
  nought = pos 0;
  one = pos 100;
  smaller = smaller;
  larger = larger;
  percent = λ a. a;
  width = string_of;
  tenths = λ a. (a + 50_000_000) / 100_000_000;
}

smaller_left : (a b : ℤ) → LeInt (smaller a b) a
smaller_left (pos a) (pos b) = omega arith
smaller_left (pos a) (negsuc b) = tt
smaller_left (negsuc a) (pos b) = omega arith
smaller_left (negsuc a) (negsuc b) = omega arith

larger_left : (a b : ℤ) → LeInt a (larger a b)
larger_left (pos a) (pos b) = omega arith
larger_left (pos a) (negsuc b) = omega arith
larger_left (negsuc a) (pos b) = tt
larger_left (negsuc a) (negsuc b) = omega arith

larger_least : (a b c : ℤ) → LeInt a c → LeInt b c → LeInt (larger a b) c
larger_least (pos a) (pos b) (pos c) h k = omega arith
larger_least (pos a) (pos b) (negsuc c) h k = absurd h
larger_least (pos a) (negsuc b) c h k = h
larger_least (negsuc a) (pos b) c h k = k
larger_least (negsuc a) (negsuc b) (pos c) h k = tt
larger_least (negsuc a) (negsuc b) (negsuc c) h k = omega arith

percents-IsOrdered : IsOrdered percents
percents-IsOrdered = record {
  Le = LeInt;
  nought_one = omega arith;
  smaller_left = smaller_left;
  larger_left = larger_left;
  larger_least = larger_least;
  percent_mono = λ a b h. h;
  percent_nought = refl;
  percent_one = refl;
}

format_bytes_run : format_bytes percents.tenths 1_540_000_000 ≡ codes "1.5 GB"
unfolding format_bytes decimal
format_bytes_run = refl

format_bytes_carry_run : format_bytes percents.tenths 999_999 ≡ codes "1000 KB"
format_bytes_carry_run = format_bytes_carry percents.tenths 999_999 (omega arith) (omega arith)

abbrev card : Card
card = record {
  element = 5;
  model_id = codes "tiny";
  value_now = some (pos 40);
  bar_width = some (codes "40.00");
  copy = some [];
}

abbrev tiny : Entry ℤ
tiny = record {
  id = codes "tiny";
  state = codes "downloading";
  progress = some (negsuc 249);
  downloaded_bytes = some 2_000_000;
  total_bytes = none;
}

update_cards-AreBounded_example :
    AreBounded percents (update_cards percents (tiny ∷ []) (card ∷ []) (card ∷ [])).0
update_cards-AreBounded_example =
    update_cards-AreBounded percents percents-IsOrdered (tiny ∷ []) (card ∷ []) (card ∷ [])
      (λ k e. (40, cc, omega arith), tt)

abbrev session : Session
session = record {
  token = some (codes "t");
  overlay_hidden = true;
  overlay_aria_hidden = true;
  background_inert = false;
  input = [];
  error = [];
  error_hidden = true;
  toast = [];
  toast_is_error = false;
  toast_hidden = true;
  toast_pending = false;
  active_tab = none;
  requests = [];
}

abbrev shown : Poller
shown = record {
  cards = card ∷ [];
  has_list = true;
  visible = true;
  timers = [];
  model_poll_timer = none;
  next_timer = 0;
  in_flight = [];
  session = session;
  form = none;
  refreshes = [];
}

shown-IsSingle : IsSingle shown
shown-IsSingle = record { at_most_one = omega arith; known = refl }

-- A request is under way as the page is hidden and shown again.
abbrev away_and_back : List (Event ℤ)
away_and_back =
    after_swap (card ∷ []) true
    ∷ fire 0
    ∷ visibility_change false
    ∷ visibility_change true
    ∷ receive 0 (entries (tiny ∷ []))
    ∷ []

away_and_back-run : (run percents away_and_back shown).timers ≡ record { id = 2; delay = 400 } ∷ []
unfolding handle
away_and_back-run = refl

run-IsSingle_example : IsSingle (run percents away_and_back shown)
run-IsSingle_example = run-IsSingle percents away_and_back shown shown-IsSingle
