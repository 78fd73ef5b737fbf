-- ===== src/Site/Reveal.antt =====
-- The clock and the elements that are revealed on scrolling, of the static site (web/script.js).
use vocagateway.Base.{
  ℕ, zero, suc, ◌≡◌, refl, Bool, true, false, not, ◌&&◌, ◌||◌, List, [], ◌∷◌, Option, none, some,
  Text, if◌then◌else◌, decimal, map, arith, Bool-cases, inl, inr,
}

pub record Clock : Type 0 where
  -- the text of `data-local-time`, where it is there, and those of `data-current-year`
  pub time : Option Text
  pub years : List Text

-- `format` is the browser's `Intl.DateTimeFormat`, and `full_year` its `getFullYear`, at a time.
module _ (format : ℕ → Text) (full_year : ℕ → ℕ) where
  abbrev pub put_time : Text → Option Text → Option Text
  put_time text none = none
  put_time text (some _) = some text

  unfoldable pub update_clock : ℕ → Clock → Clock
  update_clock now c = record {
    time = put_time (format now) c.time;
    years = map (λ _. decimal (full_year now)) c.years;
  }

-- An element of the class `reveal`: whether it is `is-visible`, and whether it is observed.
pub record Node : Type 0 where
  pub visible : Bool
  pub observed : Bool

pub record Reveal : Type 0 where
  pub nodes : List Node
  -- the timer of 900 milliseconds is set
  pub pending : Bool

unfoldable pub show_all : List Node → List Node
show_all [] = []
show_all (d ∷ ds) = record d { visible = true } ∷ show_all ds

unfoldable pub observe_all : List Node → List Node
observe_all [] = []
observe_all (d ∷ ds) = record d { observed = true } ∷ observe_all ds

-- One entry of the observer: the element, by its place, and whether it intersects the window.
pub record Sighting : Type 0 where
  pub place : ℕ
  pub is_intersecting : Bool

unfoldable pub reveal_at : ℕ → List Node → List Node
reveal_at place [] = []
reveal_at zero (d ∷ ds) = record { visible = true; observed = false } ∷ ds
reveal_at (suc place) (d ∷ ds) = d ∷ reveal_at place ds

unfoldable pub on_entries : List Sighting → List Node → List Node
unfolding reveal_at
on_entries [] ds = ds
on_entries (e ∷ es) ds =
    let rest = on_entries es in if e.is_intersecting then rest (reveal_at e.place ds) else rest ds

-- `reduce_motion` is the preference, `has_observer` whether the browser has an IntersectionObserver.
unfoldable pub start : Bool → Bool → List Node → Reveal
unfolding show_all observe_all
start reduce_motion has_observer ds =
    if reduce_motion || not has_observer
    then record { nodes = show_all ds; pending = false }
    else record { nodes = observe_all ds; pending = true }

pub data Event : Type 0 where
  observe : List Sighting → Event
  fire : Event

unfoldable pub handle : Event → Reveal → Reveal
unfolding show_all on_entries
handle (observe es) r = record r { nodes = on_entries es r.nodes }
handle fire r = if r.pending then record { nodes = show_all r.nodes; pending = false } else r

abbrev pub run : List Event → Reveal → Reveal
run [] r = r
run (e ∷ es) r = run es (handle e r)

abbrev pub are_visible : List Node → Bool
are_visible [] = true
are_visible (d ∷ ds) = d.visible && are_visible ds

-- Each hidden element is observed.
abbrev pub are_watched : List Node → Bool
are_watched [] = true
are_watched (d ∷ ds) = (d.visible || d.observed) && are_watched ds

-- Each hidden element is observed, and there is none once the timer has fired.
pub record IsRevealed (r : Reveal) : Type 0 where
  pub watched : are_watched r.nodes ≡ true
  pub shown : r.pending ≡ false → are_visible r.nodes ≡ true

are_visible-show_all : (ds : List Node) → are_visible (show_all ds) ≡ true
unfolding show_all
are_visible-show_all [] = refl
are_visible-show_all (d ∷ ds) = are_visible-show_all ds

are_watched-visible : (ds : List Node) → are_visible ds ≡ true → are_watched ds ≡ true
are_watched-visible [] h = refl
are_watched-visible (d ∷ ds) h = ground (arith, are_watched-visible ds)

are_watched-observe_all : (ds : List Node) → are_watched (observe_all ds) ≡ true
unfolding observe_all
are_watched-observe_all [] = refl
are_watched-observe_all (d ∷ ds) = ground (arith, are_watched-observe_all ds)

reveal_at-kept :
    (place : ℕ) (ds : List Node)
    → (are_visible ds ≡ true → are_visible (reveal_at place ds) ≡ true)
      × (are_watched ds ≡ true → are_watched (reveal_at place ds) ≡ true)
unfolding reveal_at
reveal_at-kept place [] = (λ h. h, λ h. h)
reveal_at-kept zero (d ∷ ds) = (λ h. ground arith, λ h. ground arith)
reveal_at-kept (suc place) (d ∷ ds) =
    let (visible, watched) = reveal_at-kept place ds in
    (λ h. ground (arith, visible), λ h. ground (arith, watched))

on_entries-kept :
    (es : List Sighting) (ds : List Node)
    → (are_visible ds ≡ true → are_visible (on_entries es ds) ≡ true)
      × (are_watched ds ≡ true → are_watched (on_entries es ds) ≡ true)
unfolding on_entries
on_entries-kept [] ds = (λ h. h, λ h. h)
on_entries-kept (e ∷ es) ds = elim (Bool-cases e.is_intersecting) [
  | inl i ↦
      let (v, w) = reveal_at-kept e.place ds in
      let (vs, ws) = on_entries-kept es (reveal_at e.place ds) in
      (λ h. rw i (vs (v h)), λ h. rw i (ws (w h)))
  | inr i ↦ let (vs, ws) = on_entries-kept es ds in (λ h. rw i (vs h), λ h. rw i (ws h))
]

start-IsRevealed :
    (reduce_motion has_observer : Bool) (ds : List Node)
    → IsRevealed (start reduce_motion has_observer ds)
unfolding start
start-IsRevealed reduce_motion has_observer ds =
    ground (
      arith,
      are_visible-show_all ds,
      are_watched-visible (show_all ds),
      are_watched-observe_all ds,
    )

handle-IsRevealed : (e : Event) (r : Reveal) → IsRevealed r → IsRevealed (handle e r)
unfolding handle
handle-IsRevealed (observe es) r i =
    let (v, w) = on_entries-kept es r.nodes in
    record { watched = w i.watched; shown = λ h. v (i.shown h) }
handle-IsRevealed fire r i =
    ground (arith, are_visible-show_all r.nodes, are_watched-visible (show_all r.nodes))

run-IsRevealed : (es : List Event) (r : Reveal) → IsRevealed r → IsRevealed (run es r)
run-IsRevealed [] r i = i
run-IsRevealed (e ∷ es) r i = run-IsRevealed es (handle e r) (handle-IsRevealed e r i)

-- On a page that is loaded, with motion reduced or not and with or without an observer, whatever is
-- seen and whenever: each element that is still hidden is observed, and once the timer has fired, or
-- if none was set, all are visible.
pub run-start-IsRevealed :
    (reduce_motion has_observer : Bool) (ds : List Node) (es : List Event)
    → IsRevealed (run es (start reduce_motion has_observer ds))
run-start-IsRevealed reduce_motion has_observer ds es =
    run-IsRevealed es (start reduce_motion has_observer ds)
      (start-IsRevealed reduce_motion has_observer ds)
