-- ===== src/Families/Rows.antt =====
-- Where an open panel stands, and that the page shows which families are open (app/webui/app.js).
use vocagateway.Base.{
  ℕ, suc, ◌+◌, ◌*◌, ◌/◌, ◌≤◌, ◌<◌, ◌≡◌, ◌≢◌, refl, Bool, true, not, List, [], ◌∷◌, Option, none,
  some, length, get_elem?, ◌==◌, any, arith, Bool-cases, inl, inr, get_elem?_of_lt, ◌⊎◌,
}
use vocagateway.Families.Grid.{
  Node, tile, panel, Grid, tiles, index_of, one_later, next_is, remove_panel, insert_after,
  move_after, row_end, place_after_row, set_family_open,
}
use vocagateway.Families.Order.{
  is_in, tiles-set_family_open, has_panel_lem, park-eq-move_after, tiles-remove_panel,
}
use vocagateway.Families.Collapse.{IsGrid}
use vocagateway.Families.Sessions.{get_elem?-is_in}

next_is-insert_after :
    (a p : ℕ) (cs : List Node)
    → is_in a (tiles cs) ≡ true
    → next_is a p (insert_after a (panel p) cs) ≡ true
unfolding next_is insert_after tiles any
next_is-insert_after a p [] h = absurd (cc)
next_is-insert_after a p (tile t ∷ cs) h = ground (arith, next_is-insert_after a p cs)
next_is-insert_after a p (panel q ∷ cs) h = ground (arith, next_is-insert_after a p cs)

-- The end of the row: the tiles from `i / cols * cols` on, `cols` of them, are the row of the tile
-- at `i`, unless the tiles end first.
abbrev pub EndsRow : ℕ → ℕ → ℕ → ℕ → Type 0
EndsRow cols i n e =
    (i ≤ e)
    × (e < n)
    × (e < i / cols * cols + cols)
    × ((suc e ≡ n) ⊎ (suc e ≡ i / cols * cols + cols))

pub row_end_lem : (cols i n : ℕ) → 0 < cols → i < n → EndsRow cols i n (row_end cols i n)
unfolding row_end
row_end_lem cols i n c h = let below : i < i / cols * cols + cols = grind arith in omega arith

pub one_later_lem :
    (o : Option ℕ) (i : ℕ) → one_later o ≡ some i → (k : ℕ) × (o ≡ some k) × (suc k ≡ i)
one_later_lem none i h = absurd (cc)
one_later_lem (some k) i h = (k, refl, cc)

pub index_of_lem :
    (t : ℕ) (ts : List ℕ) (i : ℕ) → index_of t ts ≡ some i → (i < length ts) × (is_in t ts ≡ true)
unfolding index_of any
index_of_lem t [] i h = absurd (cc)
index_of_lem t (u ∷ ts) i h = elim (Bool-cases (u == t)) [
  | inl e ↦ ground (arith, e)
  | inr e ↦
      let (k, at, s) = one_later_lem (index_of t ts) i (rw e at h) in
      ground (arith, index_of_lem t ts k at)
]

-- Opening a family parks its panel right behind the last tile of the family's row.
pub place_after_row_lem :
    (cols t i : ℕ) (cs : List Node)
    → 0 < cols
    → IsGrid cs
    → index_of t (tiles cs) ≡ some i
    → (e : ℕ) × (anchor : ℕ) × EndsRow cols i (length (tiles cs)) e
      × (get_elem? (tiles cs) e ≡ some anchor)
      × (next_is anchor t (place_after_row cols t cs) ≡ true)
unfolding place_after_row
place_after_row_lem cols t i cs c h at =
    let n = length (tiles cs) in
    let (inside, present) = index_of_lem t (tiles cs) i at in
    let ends = row_end_lem cols i n c inside in
    let (anchor, a) = get_elem?_of_lt (tiles cs) (row_end cols i n) (ends.1) in
    let ia = get_elem?-is_in (tiles cs) (row_end cols i n) anchor a in
    let one = h.once t present in
    (
      row_end cols i n,
      anchor,
      ends,
      a,
      rw (has_panel_lem t cs one, at, a, park-eq-move_after anchor t cs one)
          (unfold move_after in
            next_is-insert_after anchor t (remove_panel t cs) (rw (tiles-remove_panel t cs) ia)),
    )

-- What the page says of the families: a tile's button and its panel agree with the tile.
pub record IsShown (g : Grid) : Type 0 where
  pub expanded : (t : ℕ) → g.aria_expanded t ≡ g.tile_open t
  pub hidden : (t : ℕ) → is_in t (tiles g.children) ≡ true → g.panel_hidden t ≡ not (g.tile_open t)
  pub opened : (t : ℕ) → is_in t (tiles g.children) ≡ true → g.panel_open t ≡ g.tile_open t

-- Opening or closing a family changes its tile, its button and its panel together, and those of no
-- other family.
pub set_family_open_lem :
    (cols t : ℕ) (b : Bool) (g : Grid)
    → IsGrid g.children
    → is_in t (tiles g.children) ≡ true
    → IsShown g
    → IsShown (set_family_open cols t b g)
      × ((set_family_open cols t b g).tile_open t ≡ b)
      × ((u : ℕ) → u ≢ t → (set_family_open cols t b g).tile_open u ≡ g.tile_open u)
unfolding set_family_open
set_family_open_lem cols t b g h i s =
    let present = has_panel_lem t g.children (h.once t i) in
    let same = tiles-set_family_open cols t b g in
    (
      record {
        expanded = λ u. ground (arith, s.expanded u);
        hidden = λ u m. rw present (ground (arith, s.hidden u (rw same at m)));
        opened = λ u m. rw present (ground (arith, s.opened u (rw same at m)));
      },
      ground arith,
      λ u ne. ground arith,
    )
