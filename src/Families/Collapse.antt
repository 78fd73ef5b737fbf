-- ===== src/Families/Collapse.antt =====
-- Collapsing every family brings the grid back to the order in which it was served
-- (app/webui/app.js).
use vocagateway.Base.{
  ℕ, ◌≡◌, refl, ap, ◌∙◌, Bool, true, false, not, ◌&&◌, List, [], ◌∷◌, ◌++◌, ◌==◌, any, arith,
}
use vocagateway.Families.Grid.{
  Node, tile, panel, Grid, tiles, remove_panel, insert_after, move_after, restore_after_tile,
  set_family_open, set_each, set_families_expanded, default_order,
}
use vocagateway.Families.Order.{
  count_panel, is_in, has_panel_lem, count-move_after, park-eq-move_after, tiles-set_family_open,
  tiles-remove_panel,
}

-- Each panel belongs to one of these families.
abbrev pub panels_in : List ℕ → List Node → Bool
panels_in ts [] = true
panels_in ts (tile t ∷ cs) = panels_in ts cs
panels_in ts (panel p ∷ cs) = is_in p ts && panels_in ts cs

abbrev pub only_panels : List Node → Bool
only_panels [] = true
only_panels (tile t ∷ cs) = false
only_panels (panel p ∷ cs) = only_panels cs

abbrev pub distinct : List ℕ → Bool
distinct [] = true
distinct (t ∷ ts) = not (is_in t ts) && distinct ts

-- The moves of a collapse, one after the other.
close_all : List ℕ → List Node → List Node
close_all [] cs = cs
close_all (t ∷ ts) cs = close_all ts (move_after t t cs)

remove_all : List ℕ → List Node → List Node
remove_all [] cs = cs
remove_all (t ∷ ts) cs = remove_all ts (remove_panel t cs)

remove_panel-append :
    (p : ℕ) (xs ys : List Node) → remove_panel p (xs ++ ys) ≡ remove_panel p xs ++ remove_panel p ys
unfolding remove_panel
remove_panel-append p [] ys = refl
remove_panel-append p (x ∷ xs) ys = ground (arith, remove_panel-append p xs ys)

pub insert_after-append :
    (a : ℕ) (n : Node) (xs ys : List Node)
    → only_panels xs ≡ true
    → insert_after a n (xs ++ ys) ≡ xs ++ insert_after a n ys
unfolding insert_after
insert_after-append a n [] ys h = refl
insert_after-append a n (tile t ∷ xs) ys h = absurd (cc)
insert_after-append a n (panel p ∷ xs) ys h = ground (arith, insert_after-append a n xs ys)

only_panels-remove :
    (p : ℕ) (xs : List Node) → only_panels xs ≡ true → only_panels (remove_panel p xs) ≡ true
unfolding remove_panel
only_panels-remove p [] h = refl
only_panels-remove p (tile t ∷ xs) h = absurd (cc)
only_panels-remove p (panel q ∷ xs) h = ground (arith, only_panels-remove p xs)

panels_in-remove :
    (t : ℕ) (ts : List ℕ) (xs : List Node)
    → panels_in (t ∷ ts) xs ≡ true
    → panels_in ts (remove_panel t xs) ≡ true
unfolding remove_panel any
panels_in-remove t ts [] h = refl
panels_in-remove t ts (tile u ∷ xs) h = panels_in-remove t ts xs h
panels_in-remove t ts (panel q ∷ xs) h = ground (arith, panels_in-remove t ts xs)

panels_in-append :
    (ts : List ℕ) (xs ys : List Node)
    → panels_in ts (xs ++ ys) ≡ true
    → (panels_in ts xs ≡ true) × (panels_in ts ys ≡ true)
panels_in-append ts [] ys h = (refl, h)
panels_in-append ts (tile t ∷ xs) ys h = panels_in-append ts xs ys h
panels_in-append ts (panel p ∷ xs) ys h = ground (arith, panels_in-append ts xs ys)

move_after-split :
    (t : ℕ) (xs ys : List Node)
    → only_panels xs ≡ true
    → move_after t t (xs ++ tile t ∷ ys) ≡ remove_panel t xs ++ tile t ∷ panel t ∷ remove_panel t ys
unfolding move_after
move_after-split t xs ys o =
    rw
      (
        remove_panel-append t xs (tile t ∷ ys),
        insert_after-append t (panel t) (remove_panel t xs) (remove_panel t (tile t ∷ ys))
            (only_panels-remove t xs o),
      )
      (ap (remove_panel t xs ++◌) (unfold remove_panel insert_after in ground arith))

move_after-wedge :
    (u t : ℕ) (xs ys : List Node)
    → only_panels xs ≡ true
    → (u == t) ≡ false
    → move_after u u (xs ++ tile t ∷ panel t ∷ ys)
      ≡ remove_panel u xs ++ tile t ∷ panel t ∷ move_after u u ys
unfolding move_after
move_after-wedge u t xs ys h n =
    rw
      (
        remove_panel-append u xs (tile t ∷ panel t ∷ ys),
        insert_after-append u (panel u) (remove_panel u xs) (remove_panel u (tile t ∷ panel t ∷ ys))
            (only_panels-remove u xs h),
      )
      (ap (remove_panel u xs ++◌) (unfold remove_panel insert_after in ground arith))

-- Collapsing the others leaves a family that is in place alone, and takes their panels out of what
-- stands before it.
close_all-wedge :
    (ts : List ℕ) (xs ys : List Node) (t : ℕ)
    → only_panels xs ≡ true
    → is_in t ts ≡ false
    → close_all ts (xs ++ tile t ∷ panel t ∷ ys)
      ≡ remove_all ts xs ++ tile t ∷ panel t ∷ close_all ts ys
unfolding close_all remove_all any
close_all-wedge [] xs ys t h n = refl
close_all-wedge (u ∷ ts) xs ys t h n = rw (move_after-wedge u t xs ys h (ground arith)) (
    close_all-wedge ts (remove_panel u xs) (move_after u u ys) t (only_panels-remove u xs h)
      (ground arith))

remove_all-nil :
    (ts : List ℕ) (xs : List Node)
    → only_panels xs ≡ true
    → panels_in ts xs ≡ true
    → remove_all ts xs ≡ []
unfolding remove_all
remove_all-nil [] [] h p = refl
remove_all-nil [] (tile t ∷ xs) h p = absurd (cc)
remove_all-nil [] (panel q ∷ xs) h p = absurd (unfold any in cc)
remove_all-nil (t ∷ ts) xs h p =
    remove_all-nil ts (remove_panel t xs) (only_panels-remove t xs h) (panels_in-remove t ts xs p)

split_at_tile :
    (t : ℕ) (ts : List ℕ) (cs : List Node)
    → tiles cs ≡ t ∷ ts
    → (xs : List Node) × (ys : List Node) × (cs ≡ xs ++ tile t ∷ ys)
      × (only_panels xs ≡ true)
      × (tiles ys ≡ ts)
unfolding tiles
split_at_tile t ts [] h = absurd (cc)
split_at_tile t ts (tile u ∷ cs) h = ([], cs, cc, refl, cc)
split_at_tile t ts (panel p ∷ cs) h =
    let (xs, ys, e, o, r) = split_at_tile t ts cs h in (panel p ∷ xs, ys, ap (panel p ∷◌) e, o, r)

close_all-eq-default :
    (ts : List ℕ) (cs : List Node)
    → tiles cs ≡ ts
    → distinct ts ≡ true
    → panels_in ts cs ≡ true
    → close_all ts cs ≡ default_order ts
unfolding close_all
close_all-eq-default [] [] e d p = refl
close_all-eq-default [] (tile t ∷ cs) e d p = absurd (unfold tiles in cc)
close_all-eq-default [] (panel q ∷ cs) e d p = absurd (unfold any in cc)
close_all-eq-default (t ∷ ts) cs e d p =
    let (xs, ys, split, o, r) = split_at_tile t ts cs e in
    let rest = panels_in-append (t ∷ ts) xs (tile t ∷ ys) (rw split at p) in
    let fresh : is_in t ts ≡ false = ground arith in
    rw
      (
        split,
        move_after-split t xs ys o,
        close_all-wedge ts (remove_panel t xs) (remove_panel t ys) t (only_panels-remove t xs o)
            fresh,
        remove_all-nil ts (remove_panel t xs) (only_panels-remove t xs o)
            (panels_in-remove t ts xs rest.0),
      )
      (ap (λ zs. tile t ∷ panel t ∷ zs)
        (close_all-eq-default ts (remove_panel t ys) (tiles-remove_panel t ys ∙ r) (ground arith)
          (panels_in-remove t ts ys rest.1)))

-- A grid as it is served and as it stays: no family twice, each panel of a family of the grid, and
-- each family's panel there once.
pub record IsGrid (cs : List Node) : Type 0 where
  pub apart : distinct (tiles cs) ≡ true
  pub owned : panels_in (tiles cs) cs ≡ true
  pub once : (t : ℕ) → is_in t (tiles cs) ≡ true → count_panel t cs ≡ 1

children-set_each-false :
    (cols : ℕ) (ts : List ℕ) (g : Grid)
    → ((t : ℕ)
        → is_in t ts ≡ true
        → (is_in t (tiles g.children) ≡ true) × (count_panel t g.children ≡ 1))
    → (set_each cols false ts g).children ≡ close_all ts g.children
unfolding set_each close_all
children-set_each-false cols [] g h = refl
children-set_each-false cols (t ∷ ts) g h =
    let (inside, one) = h t (self_in t ts) in
    let moved : (set_family_open cols t false g).children ≡ move_after t t g.children =
      children-close cols t g one in
    rw (← moved) (
      children-set_each-false cols ts (set_family_open cols t false g) (λ u m.
        let (i, o) = h u (later_in t u ts m) in
        (
          rw (tiles-set_family_open cols t false g) i,
          rw moved (count-move_after t t u g.children inside one ∙ o),
        )))
  where
    self_in : (t : ℕ) (ts : List ℕ) → is_in t (t ∷ ts) ≡ true
    self_in t ts = unfold any in ground arith

    later_in : (t u : ℕ) (ts : List ℕ) → is_in u ts ≡ true → is_in u (t ∷ ts) ≡ true
    later_in t u ts m = unfold any in ground arith

    children-close :
        (cols t : ℕ) (g : Grid)
        → count_panel t g.children ≡ 1
        → (set_family_open cols t false g).children ≡ move_after t t g.children
    children-close cols t g one =
        unfold set_family_open restore_after_tile in
        rw (has_panel_lem t g.children one) (park-eq-move_after t t g.children one)

-- Collapsing all families, in whatever order their panels are parked, brings back the order in
-- which the grid was served: each panel behind its own tile.
pub children-collapse :
    (cols : ℕ) (g : Grid)
    → IsGrid g.children
    → (set_families_expanded cols false g).children ≡ default_order (tiles g.children)
unfolding set_families_expanded
children-collapse cols g h =
    children-set_each-false cols (tiles g.children) g (λ t m. (m, h.once t m))
    ∙ close_all-eq-default (tiles g.children) g.children refl h.apart h.owned
