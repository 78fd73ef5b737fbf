-- ===== src/Poll/Timer.antt =====
-- The timer and the requests of the polling, of app/webui/app.js.
use vocagateway.Base.{
  ℕ, zero, suc, Bool, true, false, not, ◌&&◌, ◌||◌, List, [], ◌∷◌, ◌++◌, Option, none, some, ◌==◌,
  filter, get_elem?, if◌then◌else◌,
}
use vocagateway.Timers.{Timer, clear_timeout, has_timer, fired}
use vocagateway.Session.State.{Session, session_expired}
use vocagateway.Filters.Form.{Form, Filters, current_model_filters}
use vocagateway.Poll.Progress.{Ratios, Entry, Card, update_cards}

-- What comes of the request: it throws or the answer does not decode, it has a status that is not
-- ok, or it holds the entries.
pub data Answer (F : Type 0) : Type 0 where
  threw : Answer F
  refused : ℕ → Answer F
  entries : List (Entry F) → Answer F

pub record Poller : Type 0 where
  -- the cards of `#models-list` whose state is "downloading", and whether the list is there
  pub cards : List Card
  pub has_list : Bool
  pub visible : Bool
  -- the timers that are set, and the variable `modelPollTimer`
  pub timers : List Timer
  pub model_poll_timer : Option ℕ
  pub next_timer : ℕ
  -- for each request under way, the cards that were there when it was sent
  pub in_flight : List (List Card)
  -- the token and its dialog, the filters, and the requests for the list, the last one first
  pub session : Session
  pub form : Option Form
  pub refreshes : List Filters

abbrev pub is_nil {ℓ} : {A : Type ℓ} → List A → Bool
is_nil [] = true
is_nil (x ∷ xs) = false

-- A page without a download, or that is not visible, is left alone.
abbrev pub is_idle : Poller → Bool
is_idle s = is_nil s.cards || not s.visible

unfoldable pub schedule_model_poll : ℕ → Poller → Poller
unfolding filter
schedule_model_poll delay s =
    let cleared = record s {
      timers = clear_timeout s.model_poll_timer s.timers;
      model_poll_timer = none;
    } in
    if is_idle s then cleared else record cleared {
      timers = cleared.timers ++ record { id = s.next_timer; delay = delay } ∷ [];
      model_poll_timer = some s.next_timer;
      next_timer = suc s.next_timer;
    }

-- `pollModelProgress` up to its request.
unfoldable pub send_poll : Poller → Poller
send_poll s = if is_idle s then s else record s { in_flight = s.in_flight ++ s.cards ∷ [] }

abbrev pub remove_at {ℓ} : {A : Type ℓ} → ℕ → List A → List A
remove_at i [] = []
remove_at zero (x ∷ xs) = xs
remove_at (suc i) (x ∷ xs) = x ∷ remove_at i xs

pub data Event (F : Type 0) : Type 0 where
  -- the page becomes visible or hidden
  visibility_change : Bool → Event F
  -- htmx swapped a part of the page: the downloads that are there now, and whether the list is
  after_swap : List Card → Bool → Event F
  -- the browser fires a timer
  fire : ℕ → Event F
  -- the answer to one of the requests under way
  receive : ℕ → Answer F → Event F

module _ {F : Type 0} (n : Ratios F) where
  -- `pollModelProgress` from its answer on, for the cards it was sent with.
  unfoldable pub receive_poll : List Card → Answer F → Poller → Poller
  unfolding schedule_model_poll update_cards session_expired current_model_filters
  receive_poll sent threw s = schedule_model_poll 2500 s
  receive_poll sent (refused status) s =
      if status == 401
      then record s { session = session_expired s.session }
      else schedule_model_poll 2500 s
  receive_poll sent (entries es) s =
      let updated = record s { cards = (update_cards n es sent s.cards).0 } in
      if (update_cards n es sent s.cards).1 && s.has_list
      then record updated { refreshes = current_model_filters s.form ∷ s.refreshes }
      else schedule_model_poll 400 updated

  unfoldable pub handle : Event F → Poller → Poller
  unfolding schedule_model_poll send_poll receive_poll filter
  handle (visibility_change visible) s = schedule_model_poll 400 (record s { visible = visible })
  handle (after_swap cards has_list) s =
      schedule_model_poll 400 (record s { cards = cards; has_list = has_list })
  handle (fire t) s =
      if has_timer t s.timers then send_poll (record s { timers = fired t s.timers }) else s
  handle (receive i answer) s = elim (get_elem? s.in_flight i) [
    | none ↦ s
    | some sent ↦ receive_poll sent answer (record s { in_flight = remove_at i s.in_flight })
  ]

  abbrev pub run : List (Event F) → Poller → Poller
  run [] s = s
  run (e ∷ es) s = run es (handle e s)
