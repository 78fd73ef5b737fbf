-- ===== src/Families/Sessions.antt =====
-- The grid keeps its families and their panels through any session (app/webui/app.js).
use vocagateway.Base.{
  ℕ, zero, suc, ◌≡◌, refl, sym, ap, ◌∙◌, Bool, true, false, not, List, [], ◌∷◌, Option, none, some,
  length, get_elem?, any, filter, arith, Bool-cases, inl, inr, subst,
}
use vocagateway.Families.Grid.{
  Node, tile, panel, Grid, tiles, has_panel, index_of, remove_panel, insert_after, move_after, park,
  row_end, place_after_row, restore_after_tile, set_family_open, set_each, set_families_expanded,
  sync_families_expand_toggle, place_each, open_family_names, default_order, wants, reverse_onto,
  Event, click, expand_all, restore, relayout, handle,
}
use vocagateway.Families.Order.{
  is_in, count-move_after, park-eq-move_after, tiles-move_after, tiles-set_family_open,
  tiles-set_each, tiles-place_after_row,
}
use vocagateway.Families.Collapse.{IsGrid, panels_in, children-collapse}

panels_in-remove_any :
    (p : ℕ) (ts : List ℕ) (cs : List Node)
    → panels_in ts cs ≡ true
    → panels_in ts (remove_panel p cs) ≡ true
unfolding remove_panel
panels_in-remove_any p ts [] h = refl
panels_in-remove_any p ts (tile t ∷ cs) h = panels_in-remove_any p ts cs h
panels_in-remove_any p ts (panel q ∷ cs) h = ground (arith, panels_in-remove_any p ts cs)

panels_in-insert_after :
    (a p : ℕ) (ts : List ℕ) (cs : List Node)
    → is_in p ts ≡ true
    → panels_in ts cs ≡ true
    → panels_in ts (insert_after a (panel p) cs) ≡ true
unfolding insert_after
panels_in-insert_after a p ts [] i h = refl
panels_in-insert_after a p ts (tile t ∷ cs) i h = ground (arith, panels_in-insert_after a p ts cs)
panels_in-insert_after a p ts (panel q ∷ cs) i h = ground (arith, panels_in-insert_after a p ts cs)

has_panel-is_in :
    (p : ℕ) (ts : List ℕ) (cs : List Node)
    → has_panel p cs ≡ true
    → panels_in ts cs ≡ true
    → is_in p ts ≡ true
unfolding has_panel any
has_panel-is_in p ts [] h o = absurd (cc)
has_panel-is_in p ts (tile t ∷ cs) h o = has_panel-is_in p ts cs h o
has_panel-is_in p ts (panel q ∷ cs) h o = ground (arith, has_panel-is_in p ts cs)

pub get_elem?-is_in : (ts : List ℕ) (k a : ℕ) → get_elem? ts k ≡ some a → is_in a ts ≡ true
unfolding any
get_elem?-is_in [] k a h = absurd (cc)
get_elem?-is_in (t ∷ ts) zero a h = ground arith
get_elem?-is_in (t ∷ ts) (suc k) a h = ground (arith, get_elem?-is_in ts k a)

move_after-IsGrid :
    (a p : ℕ) (cs : List Node)
    → is_in a (tiles cs) ≡ true
    → is_in p (tiles cs) ≡ true
    → IsGrid cs
    → IsGrid (move_after a p cs)
move_after-IsGrid a p cs ia ip h = record {
  apart = rw (tiles-move_after a p cs) h.apart;
  owned = rw (tiles-move_after a p cs) (
      unfold move_after in
      panels_in-insert_after a p (tiles cs) (remove_panel p cs) ip
        (panels_in-remove_any p (tiles cs) cs h.owned));
  once = λ t m.
      count-move_after a p t cs ia (h.once p ip) ∙ h.once t (rw (tiles-move_after a p cs) at m);
}

park-IsGrid :
    (a p : ℕ) (cs : List Node)
    → is_in a (tiles cs) ≡ true
    → is_in p (tiles cs) ≡ true
    → IsGrid cs
    → IsGrid (park a p cs)
park-IsGrid a p cs ia ip h =
    subst IsGrid (sym (park-eq-move_after a p cs (h.once p ip))) (move_after-IsGrid a p cs ia ip h)

pub place_after_row-IsGrid :
    (cols t : ℕ) (cs : List Node) → IsGrid cs → IsGrid (place_after_row cols t cs)
unfolding place_after_row
place_after_row-IsGrid cols t cs h = elim (Bool-cases (has_panel t cs)) [
  | inr e ↦ rw e h
  | inl e ↦ rw e (at_index (index_of t (tiles cs)) (has_panel-is_in t (tiles cs) cs e h.owned))
]
  where
    at_anchor :
        (o : Option ℕ)
        → ((a : ℕ) → o ≡ some a → is_in a (tiles cs) ≡ true)
        → is_in t (tiles cs) ≡ true
        → IsGrid (elim o [ none ↦ cs | some a ↦ park a t cs ])
    at_anchor none f i = h
    at_anchor (some a) f i = park-IsGrid a t cs (f a refl) i h

    at_index :
        (o : Option ℕ)
        → is_in t (tiles cs) ≡ true
        → IsGrid (elim o [
          | none ↦ cs
          | some index ↦ elim (get_elem? (tiles cs) (row_end cols index (length (tiles cs)))) [
            | none ↦ cs
            | some a ↦ park a t cs
          ]
        ])
    at_index none i = h
    at_index (some index) i =
        at_anchor (get_elem? (tiles cs) (row_end cols index (length (tiles cs))))
          (get_elem?-is_in (tiles cs) (row_end cols index (length (tiles cs)))) i

restore_after_tile-IsGrid : (t : ℕ) (cs : List Node) → IsGrid cs → IsGrid (restore_after_tile t cs)
unfolding restore_after_tile
restore_after_tile-IsGrid t cs h = elim (Bool-cases (has_panel t cs)) [
  | inr e ↦ rw e h
  | inl e ↦ let i = has_panel-is_in t (tiles cs) cs e h.owned in rw e (park-IsGrid t t cs i i h)
]

pub set_family_open-IsGrid :
    (cols t : ℕ) (b : Bool) (g : Grid)
    → IsGrid g.children
    → IsGrid (set_family_open cols t b g).children
unfolding set_family_open
set_family_open-IsGrid cols t true g h = place_after_row-IsGrid cols t g.children h
set_family_open-IsGrid cols t false g h = restore_after_tile-IsGrid t g.children h

pub set_each-IsGrid :
    (cols : ℕ) (b : Bool) (ts : List ℕ) (g : Grid)
    → IsGrid g.children
    → IsGrid (set_each cols b ts g).children
unfolding set_each
set_each-IsGrid cols b [] g h = h
set_each-IsGrid cols b (t ∷ ts) g h =
    set_each-IsGrid cols b ts (set_family_open cols t b g) (set_family_open-IsGrid cols t b g h)

pub place_each-IsGrid :
    (cols : ℕ) (ts : List ℕ) (cs : List Node) → IsGrid cs → IsGrid (place_each cols ts cs)
unfolding place_each
place_each-IsGrid cols [] cs h = h
place_each-IsGrid cols (t ∷ ts) cs h =
    place_each-IsGrid cols ts (place_after_row cols t cs) (place_after_row-IsGrid cols t cs h)

pub children-sync : (g : Grid) → (sync_families_expand_toggle g).children ≡ g.children
unfolding sync_families_expand_toggle
children-sync g = ground arith

pub handle-IsGrid : (e : Event) (g : Grid) → IsGrid g.children → IsGrid (handle e g).children
unfolding handle
handle-IsGrid (click cols t) g h = elim (Bool-cases (is_in t (tiles g.children))) [
  | inr e ↦ rw e h
  | inl e ↦ rw e (
      rw (children-sync (set_family_open cols t (not (g.tile_open t)) g))
        (set_family_open-IsGrid cols t _ g h))
]
handle-IsGrid (expand_all cols true) g h =
    set_each-IsGrid cols true (reverse_onto [] (tiles g.children)) g h
handle-IsGrid (expand_all cols false) g h = set_each-IsGrid cols false (tiles g.children) g h
handle-IsGrid (restore cols []) g h = h
handle-IsGrid (restore cols (n ∷ ns)) g h =
    rw
      (children-sync
        (set_each cols true (filter (wants (n ∷ ns)) (reverse_onto [] (tiles g.children))) g))
      (set_each-IsGrid cols true (filter (wants (n ∷ ns)) (reverse_onto [] (tiles g.children))) g h)
handle-IsGrid (relayout cols) g h =
    place_each-IsGrid cols (reverse_onto [] (open_family_names g)) g.children h

pub tiles-place_each :
    (cols : ℕ) (ts : List ℕ) (cs : List Node) → tiles (place_each cols ts cs) ≡ tiles cs
unfolding place_each
tiles-place_each cols [] cs = refl
tiles-place_each cols (t ∷ ts) cs =
    tiles-place_each cols ts (place_after_row cols t cs) ∙ tiles-place_after_row cols t cs

pub tiles-handle : (e : Event) (g : Grid) → tiles (handle e g).children ≡ tiles g.children
unfolding handle
tiles-handle (click cols t) g = elim (Bool-cases (is_in t (tiles g.children))) [
  | inr e ↦ rw e refl
  | inl e ↦ rw e (
      rw (children-sync (set_family_open cols t (not (g.tile_open t)) g))
        (tiles-set_family_open cols t (not (g.tile_open t)) g))
]
tiles-handle (expand_all cols true) g =
    tiles-set_each cols true (reverse_onto [] (tiles g.children)) g
tiles-handle (expand_all cols false) g = tiles-set_each cols false (tiles g.children) g
tiles-handle (restore cols []) g = refl
tiles-handle (restore cols (n ∷ ns)) g =
    let ts = filter (wants (n ∷ ns)) (reverse_onto [] (tiles g.children)) in
    rw (children-sync (set_each cols true ts g)) (tiles-set_each cols true ts g)
tiles-handle (relayout cols) g =
    tiles-place_each cols (reverse_onto [] (open_family_names g)) g.children

-- A session on the page.
abbrev pub run : List Event → Grid → Grid
run [] g = g
run (e ∷ es) g = run es (handle e g)

pub run-IsGrid : (es : List Event) (g : Grid) → IsGrid g.children → IsGrid (run es g).children
run-IsGrid [] g h = h
run-IsGrid (e ∷ es) g h = run-IsGrid es (handle e g) (handle-IsGrid e g h)

-- Whatever is clicked, expanded, restored and laid out anew, with any numbers of columns, the tiles
-- keep their order, and collapsing all families then brings every panel back behind its own tile.
pub run_collapse :
    (es : List Event) (cols : ℕ) (g : Grid)
    → IsGrid g.children
    → (tiles (run es g).children ≡ tiles g.children)
      × ((set_families_expanded cols false (run es g)).children ≡ default_order (tiles g.children))
run_collapse es cols g h = (
  tiles-run es g,
  children-collapse cols (run es g) (run-IsGrid es g h) ∙ ap default_order (tiles-run es g),
)
  where
    tiles-run : (es : List Event) (g : Grid) → tiles (run es g).children ≡ tiles g.children
    tiles-run [] g = refl
    tiles-run (e ∷ es) g = tiles-run es (handle e g) ∙ tiles-handle e g
