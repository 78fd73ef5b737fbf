-- ===== src/Families/Layout.antt =====
-- What the page shows once the open panels of the model families are laid out anew
-- (app/webui/app.js).
use vocagateway.Base.{
  ℕ, ◌<◌, ◌≡◌, refl, sym, ap, ◌∙◌, Bool, true, false, not, List, [], ◌∷◌, any, filter, arith,
}
use vocagateway.Families.Grid.{
  Node, tile, panel, Grid, tiles, set_family_open, set_each, set_families_expanded, place_each,
  relayout_open_family_panels, reverse_onto, open_family_names, wants, restore_open_families, Event,
  expand_all, restore, relayout, handle,
}
use vocagateway.Families.Order.{is_in, tiles-set_each}
use vocagateway.Families.Collapse.{IsGrid, panels_in}
use vocagateway.Families.Rows.{IsShown}
use vocagateway.Families.Sessions.{handle-IsGrid, tiles-handle, children-sync, run-IsGrid, run}
use vocagateway.Families.Shown.{handle-IsShown, run-IsShown}
use vocagateway.Families.Opened.{
  is_in-filter, is_in-reverse_onto, set_each_tile, restore_tile, or_false,
}
use vocagateway.Families.Placing.{keep, placed, place_each-placed}
use vocagateway.Families.Anchors.{keep-placed}
use vocagateway.Families.Members.{
  distinct-filter, are_in-filter, filter_ext, filter_all, filter_none, filter-reverse_onto,
}
use vocagateway.Families.Picture.{picture, seen}
use vocagateway.Families.Arrange.{spread-picture}

-- The panels that are not hidden are those of the open families.
seen-keep_from :
    (g : Grid) (ts : List ℕ) (cs : List Node)
    → ((t : ℕ) → is_in t ts ≡ true → g.panel_hidden t ≡ not (g.tile_open t))
    → panels_in ts cs ≡ true
    → seen (record g { children = cs }) ≡ keep (filter g.tile_open ts) cs
unfolding seen keep filter
seen-keep_from g ts [] s o = refl
seen-keep_from g ts (tile t ∷ cs) s o = ap (tile t ∷◌) (seen-keep_from g ts cs s o)
seen-keep_from g ts (panel p ∷ cs) s o =
    ground (arith, seen-keep_from g ts cs s, is_in-filter g.tile_open ts p, s p)

seen-keep :
    (g : Grid)
    → IsGrid g.children
    → IsShown g
    → seen g ≡ keep (filter g.tile_open (tiles g.children)) g.children
seen-keep g h s = seen-keep_from g (tiles g.children) g.children s.hidden h.owned

-- Laid out for this number of columns.
abbrev pub IsLaid : ℕ → Grid → Type 0
IsLaid cols g = seen g ≡ picture cols g.tile_open (tiles g.children)

placed-picture :
    (cols : ℕ) (is_open : ℕ → Bool) (cs : List Node)
    → 0 < cols
    → IsGrid cs
    → keep (filter is_open (tiles cs)) (placed cols (filter is_open (tiles cs)) cs)
      ≡ picture cols is_open (tiles cs)
placed-picture cols is_open cs c h =
    keep-placed cols (filter is_open (tiles cs)) cs c h (distinct-filter is_open (tiles cs) h.apart)
      (are_in-filter is_open (tiles cs))
    ∙ spread-picture cols is_open (tiles cs) c h.apart

-- A grid whose open panels were parked one after the other is laid out.
placed-IsLaid :
    (cols : ℕ) (ps : List ℕ) (cs : List Node) (g : Grid)
    → 0 < cols
    → IsGrid cs
    → IsGrid g.children
    → IsShown g
    → tiles g.children ≡ tiles cs
    → ps ≡ filter g.tile_open (tiles cs)
    → g.children ≡ placed cols ps cs
    → IsLaid cols g
placed-IsLaid cols ps cs g c hc h s same e at =
    seen-keep g h s
    ∙ ap (λ ts. keep (filter g.tile_open ts) g.children) same
    ∙ ap (keep (filter g.tile_open (tiles cs))) (at ∙ ap (λ qs. placed cols qs cs) e)
    ∙ placed-picture cols g.tile_open cs c hc
    ∙ ap (picture cols g.tile_open) (sym same)

children-set_each :
    (cols : ℕ) (ts : List ℕ) (g : Grid)
    → (set_each cols true ts g).children ≡ place_each cols ts g.children
unfolding set_each place_each set_family_open
children-set_each cols [] g = refl
children-set_each cols (t ∷ ts) g = children-set_each cols ts (set_family_open cols t true g)

pub relayout-IsLaid :
    (cols : ℕ) (g : Grid)
    → 0 < cols
    → IsGrid g.children
    → IsShown g
    → IsLaid cols (handle (relayout cols) g)
unfolding handle relayout_open_family_panels open_family_names
relayout-IsLaid cols g c h s =
    placed-IsLaid cols (filter g.tile_open (tiles g.children)) g.children (handle (relayout cols) g)
      c h (handle-IsGrid (relayout cols) g h) (handle-IsShown (relayout cols) g h s)
      (tiles-handle (relayout cols) g) refl
      (place_each-placed cols (filter g.tile_open (tiles g.children)) g.children)

expand-IsLaid :
    (cols : ℕ) (g : Grid)
    → 0 < cols
    → IsGrid g.children
    → IsShown g
    → IsLaid cols (handle (expand_all cols true) g)
unfolding handle set_families_expanded
expand-IsLaid cols g c h s =
    let ts = tiles g.children in
    let rs = reverse_onto [] ts in
    placed-IsLaid cols ts g.children (handle (expand_all cols true) g) c h
      (handle-IsGrid (expand_all cols true) g h) (handle-IsShown (expand_all cols true) g h s)
      (tiles-handle (expand_all cols true) g)
      (sym (
        filter_ext (set_each cols true rs g).tile_open (λ _. true) ts
          (λ t m. set_each_tile cols true rs g t ∙ rw (is_in-reverse_onto [] ts t, m) refl)
        ∙ filter_all ts))
      (children-set_each cols rs g ∙ place_each-placed cols ts g.children)

collapsed_tile :
    (k t : ℕ) (g : Grid)
    → is_in t (tiles (handle (expand_all k false) g).children) ≡ true
    → (handle (expand_all k false) g).tile_open t ≡ false
unfolding handle set_families_expanded
collapsed_tile k t g m =
    let ts = tiles g.children in
    let there : is_in t ts ≡ true = rw (tiles-set_each k false ts g) at m in
    set_each_tile k false ts g t ∙ rw there refl

collapse-IsLaid :
    (cols k : ℕ) (g : Grid)
    → 0 < cols
    → IsGrid g.children
    → IsShown g
    → IsLaid cols (handle (expand_all k false) g)
unfolding placed
collapse-IsLaid cols k g c h s =
    let after = handle (expand_all k false) g in
    let kept = handle-IsGrid (expand_all k false) g h in
    placed-IsLaid cols [] after.children after c kept kept
      (handle-IsShown (expand_all k false) g h s) refl
      (sym (
        filter_ext after.tile_open (λ _. false) (tiles after.children)
          (λ t m. collapsed_tile k t g m)
        ∙ filter_none (tiles after.children)))
      refl

restored :
    (cols : ℕ) (names : List ℕ) (g : Grid)
    → (handle (restore cols names) g).children
      ≡ placed cols (filter (wants names) (tiles g.children)) g.children
unfolding handle restore_open_families placed any
restored cols [] g = sym (ap (λ ps. placed cols ps g.children) (filter_none (tiles g.children)))
restored cols (n ∷ ns) g =
    let ts = tiles g.children in
    let ws = filter (wants (n ∷ ns)) (reverse_onto [] ts) in
    children-sync (set_each cols true ws g)
    ∙ children-set_each cols ws g
    ∙ ap (λ us. place_each cols us g.children) (filter-reverse_onto (wants (n ∷ ns)) [] ts)
    ∙ place_each-placed cols (filter (wants (n ∷ ns)) ts) g.children

pub restore-IsLaid :
    (cols : ℕ) (names : List ℕ) (g : Grid)
    → 0 < cols
    → IsGrid g.children
    → IsShown g
    → ((u : ℕ) → g.tile_open u ≡ false)
    → IsLaid cols (handle (restore cols names) g)
unfolding handle
restore-IsLaid cols names g c h s closed =
    let ts = tiles g.children in
    placed-IsLaid cols (filter (wants names) ts) g.children (handle (restore cols names) g) c h
      (handle-IsGrid (restore cols names) g h) (handle-IsShown (restore cols names) g h s)
      (tiles-handle (restore cols names) g)
      (sym (
        filter_ext (handle (restore cols names) g).tile_open (wants names) ts
          (λ t m. restore_tile cols names g t ∙ rw (m, closed t) (or_false (wants names t)))))
      (restored cols names g)

-- After any session on the families: as soon as the panels are laid out anew, or all families are
-- expanded or collapsed, the page shows row after row of tiles, and under each row the panels of its
-- open families in their order, for the columns of that moment. So it does once the families that
-- were open are restored in a grid that is served collapsed.
pub run-IsLaid :
    (es : List Event) (cols : ℕ) (g : Grid)
    → 0 < cols
    → IsGrid g.children
    → IsShown g
    → IsLaid cols (handle (relayout cols) (run es g))
      × ((b : Bool) → IsLaid cols (handle (expand_all cols b) (run es g)))
      × ((names : List ℕ)
          → ((u : ℕ) → g.tile_open u ≡ false)
          → IsLaid cols (handle (restore cols names) g))
run-IsLaid es cols g c h s =
    let kept = run-IsGrid es g h in
    let shown = run-IsShown es g h s in
    (
      relayout-IsLaid cols (run es g) c kept shown,
      λ b. elim b as (λ x. IsLaid cols (handle (expand_all cols x) (run es g))) [
        | true ↦ expand-IsLaid cols (run es g) c kept shown
        | false ↦ collapse-IsLaid cols cols (run es g) c kept shown
      ],
      λ names closed. restore-IsLaid cols names g c h s closed,
    )
