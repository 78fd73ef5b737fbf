-- ===== src/Families/Shown.antt =====
-- The tiles, their buttons and their panels agree through any session (app/webui/app.js).
use vocagateway.Base.{
  ℕ, ◌≡◌, Bool, true, false, not, Option, List, [], ◌∷◌, ◌==◌, ==_iff, filter, arith, Bool-cases,
  inl, inr,
}
use vocagateway.Families.Grid.{
  Grid, tiles, set_family_open, set_each, sync_families_expand_toggle, wants, reverse_onto,
  open_family_names, Event, click, expand_all, restore, relayout, handle,
}
use vocagateway.Families.Order.{is_in, tiles-set_family_open}
use vocagateway.Families.Collapse.{IsGrid}
use vocagateway.Families.Rows.{IsShown, set_family_open_lem}
use vocagateway.Families.Sessions.{
  set_family_open-IsGrid, handle-IsGrid, children-sync, tiles-place_each, run,
}

-- A tile that the grid has not shows nothing.
set_family_open_elsewhere :
    (cols t : ℕ) (b : Bool) (g : Grid)
    → is_in t (tiles g.children) ≡ false
    → IsShown g
    → IsShown (set_family_open cols t b g)
unfolding set_family_open
set_family_open_elsewhere cols t b g n s =
    let same = tiles-set_family_open cols t b g in
    record {
      expanded = λ u. ground (arith, s.expanded u);
      hidden = λ u m.
          let here : is_in u (tiles g.children) ≡ true = rw same at m in
          let differ : (u == t) ≡ false = ground (arith, ==_iff u t) in
          ground (arith, s.hidden u here);
      opened = λ u m.
          let here : is_in u (tiles g.children) ≡ true = rw same at m in
          let differ : (u == t) ≡ false = ground (arith, ==_iff u t) in
          ground (arith, s.opened u here);
    }

pub set_family_open-IsShown :
    (cols t : ℕ) (b : Bool) (g : Grid)
    → IsGrid g.children
    → IsShown g
    → IsShown (set_family_open cols t b g)
set_family_open-IsShown cols t b g h s = elim (Bool-cases (is_in t (tiles g.children))) [
  | inl e ↦ (set_family_open_lem cols t b g h e s).0
  | inr e ↦ set_family_open_elsewhere cols t b g e s
]

pub set_each-IsShown :
    (cols : ℕ) (b : Bool) (ts : List ℕ) (g : Grid)
    → IsGrid g.children
    → IsShown g
    → IsShown (set_each cols b ts g)
unfolding set_each
set_each-IsShown cols b [] g h s = s
set_each-IsShown cols b (t ∷ ts) g h s =
    set_each-IsShown cols b ts (set_family_open cols t b g) (set_family_open-IsGrid cols t b g h)
      (set_family_open-IsShown cols t b g h s)

pub sync-IsShown : (g : Grid) → IsShown g → IsShown (sync_families_expand_toggle g)
unfolding sync_families_expand_toggle
sync-IsShown g s = record {
  expanded = λ t. ground (arith, s.expanded t);
  hidden = λ t m. ground (arith, s.hidden t (rw (children-sync g) at m));
  opened = λ t m. ground (arith, s.opened t (rw (children-sync g) at m));
}

-- The button for all families is no part of it.
put_toggle-IsShown : (o : Option Bool) (g : Grid) → IsShown g → IsShown (record g { toggle = o })
put_toggle-IsShown o g s = record { expanded = s.expanded; hidden = s.hidden; opened = s.opened }

pub handle-IsShown : (e : Event) (g : Grid) → IsGrid g.children → IsShown g → IsShown (handle e g)
unfolding handle
handle-IsShown (click cols t) g h s = elim (Bool-cases (is_in t (tiles g.children))) [
  | inr e ↦ rw e s
  | inl e ↦ rw e (
      sync-IsShown (set_family_open cols t (not (g.tile_open t)) g)
        (set_family_open-IsShown cols t (not (g.tile_open t)) g h s))
]
handle-IsShown (expand_all cols true) g h s =
    let ts = reverse_onto [] (tiles g.children) in
    put_toggle-IsShown _ (set_each cols true ts g) (set_each-IsShown cols true ts g h s)
handle-IsShown (expand_all cols false) g h s =
    let ts = tiles g.children in
    put_toggle-IsShown _ (set_each cols false ts g) (set_each-IsShown cols false ts g h s)
handle-IsShown (restore cols []) g h s = s
handle-IsShown (restore cols (n ∷ ns)) g h s =
    let ts = filter (wants (n ∷ ns)) (reverse_onto [] (tiles g.children)) in
    sync-IsShown (set_each cols true ts g) (set_each-IsShown cols true ts g h s)
handle-IsShown (relayout cols) g h s =
    let same = tiles-place_each cols (reverse_onto [] (open_family_names g)) g.children in
    record {
      expanded = s.expanded;
      hidden = λ t m. s.hidden t (rw same at m);
      opened = λ t m. s.opened t (rw same at m);
    }

pub run-IsShown : (es : List Event) (g : Grid) → IsGrid g.children → IsShown g → IsShown (run es g)
run-IsShown [] g h s = s
run-IsShown (e ∷ es) g h s =
    run-IsShown es (handle e g) (handle-IsGrid e g h) (handle-IsShown e g h s)
