-- ===== src/Families/Anchors.antt =====
-- The tile behind which `placeModelsAfterRow` of app/webui/app.js parks a panel.
use vocagateway.Base.{
  ℕ, suc, ◌<◌, ◌≡◌, refl, ap, ◌∙◌, Bool, true, List, [], ◌∷◌, Option, none, some, length, get_elem?,
  get_elem?_of_lt, ◌==◌, any, arith, Bool-cases, inl, inr, ◌&&◌,
}
use vocagateway.Families.Grid.{
  Node, panel, tiles, index_of, row_end, place_after_row, move_after, insert_after,
}
use vocagateway.Families.Order.{is_in, has_panel_lem, park-eq-move_after, tiles-place_after_row}
use vocagateway.Families.Collapse.{IsGrid, distinct}
use vocagateway.Families.Rows.{row_end_lem, index_of_lem}
use vocagateway.Families.Sessions.{get_elem?-is_in, place_after_row-IsGrid}
use vocagateway.Families.Placing.{
  keep, spread, placed, insert_after-spread, keep-move_after, keep_none,
}

abbrev or_nought : Option ℕ → ℕ
or_nought none = 0
or_nought (some a) = a

abbrev pub anchor_at : ℕ → List ℕ → Option ℕ → ℕ
anchor_at cols ts none = 0
anchor_at cols ts (some i) = or_nought (get_elem? ts (row_end cols i (length ts)))

unfoldable pub anchor_of : ℕ → List ℕ → ℕ → ℕ
unfolding index_of row_end
anchor_of cols ts t = anchor_at cols ts (index_of t ts)

pub index_of-some : (t : ℕ) (ts : List ℕ) → is_in t ts ≡ true → (i : ℕ) × (index_of t ts ≡ some i)
unfolding index_of any
index_of-some t [] h = absurd (cc)
index_of-some t (u ∷ ts) h = elim (Bool-cases (u == t)) [
  | inl e ↦ (0, rw e refl)
  | inr e ↦ let (i, at) = index_of-some t ts (ground arith) in (suc i, rw (e, at) refl)
]

-- Where the tile and its anchor are.
pub anchor_of_lem :
    (cols t : ℕ) (ts : List ℕ)
    → 0 < cols
    → is_in t ts ≡ true
    → (i : ℕ) × (index_of t ts ≡ some i)
      × (i < length ts)
      × (get_elem? ts (row_end cols i (length ts)) ≡ some (anchor_of cols ts t))
unfolding anchor_of
anchor_of_lem cols t ts c h =
    let (i, at) = index_of-some t ts h in
    let inside = (index_of_lem t ts i at).0 in
    let ends = row_end_lem cols i (length ts) c inside in
    let (a, e) = get_elem?_of_lt ts (row_end cols i (length ts)) (ends.1) in
    (i, at, inside, rw (at, e) refl)

place_after_row-move_after :
    (cols t : ℕ) (cs : List Node)
    → 0 < cols
    → IsGrid cs
    → is_in t (tiles cs) ≡ true
    → place_after_row cols t cs ≡ move_after (anchor_of cols (tiles cs) t) t cs
unfolding place_after_row
place_after_row-move_after cols t cs c h i =
    let (k, at, inside, a) = anchor_of_lem cols t (tiles cs) c i in
    let one = h.once t i in
    rw (has_panel_lem t cs one, at, a) (park-eq-move_after (anchor_of cols (tiles cs) t) t cs one)

place_after_row-same :
    (cols t : ℕ) (ts : List ℕ) (cs : List Node)
    → 0 < cols
    → IsGrid cs
    → tiles cs ≡ ts
    → is_in t ts ≡ true
    → place_after_row cols t cs ≡ move_after (anchor_of cols ts t) t cs
place_after_row-same cols t ts cs c h e i =
    place_after_row-move_after cols t cs c h (ap (is_in t) e ∙ i)
    ∙ ap (λ us. move_after (anchor_of cols us t) t cs) e

-- All of the families are of the grid.
abbrev pub are_in : List ℕ → List ℕ → Bool
are_in ts [] = true
are_in ts (p ∷ ps) = is_in p ts && are_in ts ps

tiles-placed : (cols : ℕ) (ps : List ℕ) (cs : List Node) → tiles (placed cols ps cs) ≡ tiles cs
unfolding placed
tiles-placed cols [] cs = refl
tiles-placed cols (t ∷ ps) cs =
    tiles-place_after_row cols t (placed cols ps cs) ∙ tiles-placed cols ps cs

placed-IsGrid : (cols : ℕ) (ps : List ℕ) (cs : List Node) → IsGrid cs → IsGrid (placed cols ps cs)
unfolding placed
placed-IsGrid cols [] cs h = h
placed-IsGrid cols (t ∷ ps) cs h =
    place_after_row-IsGrid cols t (placed cols ps cs) (placed-IsGrid cols ps cs h)

-- However the panels stood before: once those of `ps` are parked, each stands behind its anchor.
pub keep-placed :
    (cols : ℕ) (ps : List ℕ) (cs : List Node)
    → 0 < cols
    → IsGrid cs
    → distinct ps ≡ true
    → are_in (tiles cs) ps ≡ true
    → keep ps (placed cols ps cs) ≡ spread (anchor_of cols (tiles cs)) ps (tiles cs)
unfolding placed
keep-placed cols [] cs c h d i = keep_none (anchor_of cols (tiles cs)) cs
keep-placed cols (t ∷ ps) cs c h d i =
    let ts = tiles cs in
    let before = placed cols ps cs in
    let same = tiles-placed cols ps cs in
    let inside : is_in t ts ≡ true = ground arith in
    let (k, at, low, a) = anchor_of_lem cols t ts c inside in
    let ia = get_elem?-is_in ts (row_end cols k (length ts)) (anchor_of cols ts t) a in
    let moved = place_after_row-same cols t ts before c (placed-IsGrid cols ps cs h) same inside in
    ap (keep (t ∷ ps)) moved
    ∙ keep-move_after ps (anchor_of cols ts t) t before (ground arith)
    ∙ ap (insert_after (anchor_of cols ts t) (panel t))
        (keep-placed cols ps cs c h (ground arith) (ground arith))
    ∙ insert_after-spread (anchor_of cols ts) t ps ts h.apart ia
