-- ===== src/Tabs/Single.antt =====
-- One tab at a time is active (app/webui/app.js).
use vocagateway.Base.{
  ℕ, zero, suc, ◌+◌, ◌≤◌, ◌<◌, ◌≡◌, refl, sym, ap, subst, Bool, true, false, List, [], ◌∷◌, Option,
  none, some, Text, text_eq, length, get_elem?, ◌==◌, arith, Bool-cases, inl, inr,
  lt-length_of_get_elem?,
}
use vocagateway.Tabs.Bar.{
  Tab, Bar, mark, mark_from, activate_tab, find_from, find_tab, tab_key, load, open_tab_by_name,
  click_tab, Key, key_target, press_key, requested_tab, start_at, start, Event, click, press,
  open_name, handle,
}

-- Exactly the tab at `place` is active, selected, and in the order of the tab key.
pub record IsSingle (place : ℕ) (tabs : List Tab) : Type 0 where
  pub inside : place < length tabs
  pub flags :
      (i : ℕ) (t : Tab)
      → get_elem? tabs i ≡ some t
      → (t.active ≡ (i == place)) × (t.selected ≡ (i == place)) × (t.in_order ≡ (i == place))

abbrev pub HasSingle : Bar → Type 0
HasSingle bar = (place : ℕ) × IsSingle place bar.tabs

length-mark_from : (i place : ℕ) (ts : List Tab) → length (mark_from i place ts) ≡ length ts
unfolding mark_from
length-mark_from i place [] = refl
length-mark_from i place (t ∷ ts) = ap suc (length-mark_from (suc i) place ts)

flags-mark_from :
    (i place j : ℕ) (ts : List Tab) (t : Tab)
    → get_elem? (mark_from i place ts) j ≡ some t
    → (t.active ≡ (i + j == place))
      × (t.selected ≡ (i + j == place))
      × (t.in_order ≡ (i + j == place))
unfolding mark_from mark
flags-mark_from i place j [] t h = absurd (cc)
flags-mark_from i place zero (u ∷ ts) t h = ground arith
flags-mark_from i place (suc j) (u ∷ ts) t h =
    ground (arith, flags-mark_from (suc i) place j ts t h)

activate_tab-IsSingle :
    (place : ℕ) (tab : Tab) (b : Bool) (bar : Bar)
    → place < length bar.tabs
    → IsSingle place (activate_tab place tab b bar).tabs
unfolding activate_tab
activate_tab-IsSingle place tab b bar h = record {
  inside = rw (length-mark_from 0 place bar.tabs) h;
  flags = λ i t e. ground (arith, flags-mark_from 0 place i bar.tabs t e);
}

find_from_lem :
    (i : ℕ) (p : Tab → Bool) (ts : List Tab) (k : ℕ) (t : Tab)
    → find_from i p ts ≡ some (k, t)
    → (i ≤ k) × (k < i + length ts) × (p t ≡ true)
unfolding find_from
find_from_lem i p [] k t h = absurd (cc)
find_from_lem i p (u ∷ ts) k t h = ground (arith, find_from_lem (suc i) p ts k t)

tabs-load : (href : Option Text) (bar : Bar) → (load href bar).tabs ≡ bar.tabs
unfolding load
tabs-load none bar = refl
tabs-load (some href) bar = ground arith

load-HasSingle : (href : Option Text) (bar : Bar) → HasSingle bar → HasSingle (load href bar)
load-HasSingle href bar (place, h) = (place, subst (IsSingle place) (sym (tabs-load href bar)) h)

-- What follows on finding a tab, or not.
found-HasSingle :
    (place : ℕ) (tab : Tab) (bar : Bar)
    → place < length bar.tabs
    → HasSingle (load tab.href (activate_tab place tab true bar))
found-HasSingle place tab bar h =
    load-HasSingle tab.href (activate_tab place tab true bar)
      (place, activate_tab-IsSingle place tab true bar h)

find_tab-lt-length :
    (key : Text) (bar : Bar) (place : ℕ) (tab : Tab)
    → find_tab key bar ≡ some (place, tab)
    → place < length bar.tabs
unfolding find_tab
find_tab-lt-length key bar place tab e = omega (arith, find_from_lem 0 _ bar.tabs place tab e)

open_tab_by_name-HasSingle :
    (name : Text) (bar : Bar) → HasSingle bar → HasSingle (open_tab_by_name name bar)
unfolding open_tab_by_name
open_tab_by_name-HasSingle name bar h = go (find_tab (tab_key name) bar) refl
  where
    go :
        (o : Option (ℕ × Tab))
        → find_tab (tab_key name) bar ≡ o
        → HasSingle (open_tab_by_name name bar)
    go none e = rw (e, open_tab_by_name) h
    go (some (place, tab)) e =
        rw (e, open_tab_by_name)
          (found-HasSingle place tab bar (find_tab-lt-length (tab_key name) bar place tab e))

click_tab-HasSingle : (place : ℕ) (bar : Bar) → HasSingle bar → HasSingle (click_tab place bar)
unfolding click_tab
click_tab-HasSingle place bar h = go (get_elem? bar.tabs place) refl
  where
    go : (o : Option Tab) → get_elem? bar.tabs place ≡ o → HasSingle (click_tab place bar)
    go none e = rw (e, click_tab) h
    go (some tab) e =
        rw (e, click_tab)
          (found-HasSingle place tab bar (lt-length_of_get_elem? bar.tabs place tab e))

press_key-HasSingle :
    (key : Key) (place : ℕ) (bar : Bar) → HasSingle bar → HasSingle (press_key key place bar)
unfolding press_key
press_key-HasSingle key place bar h = go (key_target key place (length bar.tabs)) refl
  where
    go :
        (o : Option ℕ)
        → key_target key place (length bar.tabs) ≡ o
        → HasSingle (press_key key place bar)
    go none e = rw (e, press_key) h
    go (some next) e =
        rw (e, press_key) (click_tab-HasSingle next (record bar { focus = some next }) h)

handle-HasSingle : (e : Event) (bar : Bar) → HasSingle bar → HasSingle (handle e bar)
unfolding handle
handle-HasSingle (click place) bar h = click_tab-HasSingle place bar h
handle-HasSingle (press key place) bar h = press_key-HasSingle key place bar h
handle-HasSingle (open_name name) bar h = open_tab_by_name-HasSingle name bar h

-- A session on the page.
abbrev pub run : List Event → Bar → Bar
run [] bar = bar
run (e ∷ es) bar = run es (handle e bar)

run-HasSingle : (es : List Event) (bar : Bar) → HasSingle bar → HasSingle (run es bar)
run-HasSingle [] bar h = h
run-HasSingle (e ∷ es) bar h = run-HasSingle es (handle e bar) (handle-HasSingle e bar h)

-- The page is served with some tab marked active, perhaps with more.
abbrev pub IsServed : Bar → Type 0
IsServed bar =
    (place : ℕ) × (tab : Tab) × (find_from 0 (λ t. t.active) bar.tabs ≡ some (place, tab))

start_at-HasSingle :
    (o : Option (ℕ × Tab)) (bar : Bar)
    → requested_tab bar ≡ o
    → IsServed bar
    → HasSingle (start_at o bar)
unfolding start_at requested_tab
start_at-HasSingle none bar e (place, tab, served) =
    rw (served, start_at)
      (
        place,
        activate_tab-IsSingle place tab false bar
            (omega (arith, find_from_lem 0 (λ t. t.active) bar.tabs place tab served)),
      )
start_at-HasSingle (some (place, tab)) bar e v =
    elim (Bool-cases (text_eq (tab_key bar.fragment) [])) [
      | inl empty ↦ absurd (cc)
      | inr given ↦ (
        place,
        activate_tab-IsSingle place tab false bar
            (find_tab-lt-length (tab_key bar.fragment) bar place tab (rw given at e)),
      )
    ]

start-HasSingle : (bar : Bar) → IsServed bar → HasSingle (start bar)
unfolding start
start-HasSingle bar v = start_at-HasSingle (requested_tab bar) bar refl v

-- From the start of the page on, whatever the address names, and after any clicks, keys and calls
-- by name, exactly one tab is active, and it alone is selected and in the order of the tab key.
pub run-start-HasSingle :
    (es : List Event) (bar : Bar) → IsServed bar → HasSingle (run es (start bar))
run-start-HasSingle es bar v = run-HasSingle es (start bar) (start-HasSingle bar v)
