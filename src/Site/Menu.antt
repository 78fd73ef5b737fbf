-- ===== src/Site/Menu.antt =====
-- The menu of the static site on a narrow window (web/script.js).
use vocagateway.Base.{
  ℕ, ◌≡◌, refl, sym, Bool, true, false, ◌&&◌, List, [], ◌∷◌, Option, none, some, Text, ltb,
  if◌then◌else◌, codes,
}

pub record Menu : Type 0 where
  -- the toggle's `aria-expanded` is "true"
  pub expanded : Bool
  -- the hidden label of the toggle, where it has one
  pub label : Option Text
  -- the class `is-open` of the navigation
  pub is_open : Bool
  pub toggle_focused : Bool

abbrev pub put_label : Text → Option Text → Option Text
put_label text none = none
put_label text (some _) = some text

unfoldable pub close_navigation : Bool → Menu → Menu
close_navigation return_focus m = record {
  expanded = false;
  label = put_label (codes "Open navigation") m.label;
  is_open = false;
  toggle_focused = if return_focus then true else m.toggle_focused;
}

unfoldable pub open_navigation : Menu → Menu
open_navigation m = record m {
  expanded = true;
  label = put_label (codes "Close navigation") m.label;
  is_open = true;
}

pub data Event : Type 0 where
  click_menu : Event
  -- a click in the navigation, and whether it is on a link
  click_navigation : Bool → Event
  -- a key, and whether it is Escape
  press : Bool → Event
  -- the window's new width
  resize : ℕ → Event
  -- the focus goes to the toggle or away from it
  move_focus : Bool → Event

unfoldable pub handle : Event → Menu → Menu
unfolding close_navigation open_navigation
handle click_menu m = if m.expanded then close_navigation false m else open_navigation m
handle (click_navigation on_link) m = if on_link then close_navigation false m else m
handle (press is_escape) m = if is_escape && m.expanded then close_navigation true m else m
handle (resize width) m = if ltb 920 width && m.expanded then close_navigation false m else m
handle (move_focus to_toggle) m = record m { toggle_focused = to_toggle }

abbrev pub run : List Event → Menu → Menu
run [] m = m
run (e ∷ es) m = run es (handle e m)

-- What assistive technology is told agrees with what is shown.
pub record IsTold (m : Menu) : Type 0 where
  pub told : m.expanded ≡ m.is_open
  pub named :
      m.label
      ≡ put_label (if m.is_open then codes "Close navigation" else codes "Open navigation") m.label

put_label_twice : (s t : Text) (o : Option Text) → put_label s (put_label t o) ≡ put_label s o
put_label_twice s t none = refl
put_label_twice s t (some _) = refl

close_navigation-IsTold : (b : Bool) (m : Menu) → IsTold (close_navigation b m)
unfolding close_navigation
close_navigation-IsTold b m = record {
  told = refl;
  named = sym (put_label_twice (codes "Open navigation") (codes "Open navigation") m.label);
}

open_navigation-IsTold : (m : Menu) → IsTold (open_navigation m)
unfolding open_navigation
open_navigation-IsTold m = record {
  told = refl;
  named = sym (put_label_twice (codes "Close navigation") (codes "Close navigation") m.label);
}

choose-IsTold : (b : Bool) (m n : Menu) → IsTold m → IsTold n → IsTold (if b then m else n)
choose-IsTold true m n p q = p
choose-IsTold false m n p q = q

handle-IsTold : (e : Event) (m : Menu) → IsTold m → IsTold (handle e m)
unfolding handle
handle-IsTold click_menu m t =
    choose-IsTold m.expanded _ _ (close_navigation-IsTold false m) (open_navigation-IsTold m)
handle-IsTold (click_navigation on_link) m t =
    choose-IsTold on_link _ _ (close_navigation-IsTold false m) t
handle-IsTold (press is_escape) m t =
    choose-IsTold (is_escape && m.expanded) _ _ (close_navigation-IsTold true m) t
handle-IsTold (resize width) m t =
    choose-IsTold (ltb 920 width && m.expanded) _ _ (close_navigation-IsTold false m) t
handle-IsTold (move_focus to_toggle) m t = record { told = t.told; named = t.named }

-- After any clicks, keys and changes of the window's width, the toggle's state and its label tell
-- whether the navigation is open.
pub run-IsTold : (es : List Event) (m : Menu) → IsTold m → IsTold (run es m)
run-IsTold [] m t = t
run-IsTold (e ∷ es) m t = run-IsTold es (handle e m) (handle-IsTold e m t)
