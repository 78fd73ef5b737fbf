-- ===== src/Site/Faq.antt =====
-- The questions of the static site, of which one is open at a time (web/script.js). Where the
-- state of a <details> element changes, the browser queues its "toggle" event and fires it later,
-- after further clicks perhaps; a second change before that adds no second event.
use vocagateway.Base.{
  ℕ, suc, Bool, false, not, ◌||◌, List, [], ◌∷◌, none, some, ◌==◌, if◌then◌else◌, get_elem?, set,
}

pub record Detail : Type 0 where
  pub is_open : Bool
  -- its "toggle" event is queued
  pub pending : Bool

abbrev pub set_open : Bool → Detail → Detail
set_open value d = record {
  is_open = value;
  pending = if value then not d.is_open || d.pending else d.is_open || d.pending;
}

-- The loop over the other items, from the place `k` on.
unfoldable pub close_others : ℕ → ℕ → List Detail → List Detail
close_others k i [] = []
close_others k i (d ∷ ds) = (if k == i then d else set_open false d) ∷ close_others (suc k) i ds

-- The listener of the item at a place.
unfoldable pub on_toggle : ℕ → List Detail → List Detail
unfolding close_others
on_toggle i ds = elim (get_elem? ds i) [
  | none ↦ ds
  | some d ↦ if d.is_open then close_others 0 i ds else ds
]

pub data Event : Type 0 where
  -- a click on the item at a place
  click : ℕ → Event
  -- the browser fires the item's event
  fire : ℕ → Event

unfoldable pub click_detail : ℕ → List Detail → List Detail
click_detail i ds = elim (get_elem? ds i) [
  | none ↦ ds
  | some d ↦ set ds i (set_open (not d.is_open) d)
]

unfoldable pub fire_toggle : ℕ → List Detail → List Detail
unfolding on_toggle
fire_toggle i ds = elim (get_elem? ds i) [
  | none ↦ ds
  | some d ↦ if d.pending then on_toggle i (set ds i (record d { pending = false })) else ds
]

unfoldable pub handle : Event → List Detail → List Detail
unfolding click_detail fire_toggle
handle (click i) ds = click_detail i ds
handle (fire i) ds = fire_toggle i ds

abbrev pub run : List Event → List Detail → List Detail
run [] ds = ds
run (e ∷ es) ds = run es (handle e ds)
