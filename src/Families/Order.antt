-- ===== src/Families/Order.antt =====
-- Parking a panel moves nothing else (app/webui/app.js).
use vocagateway.Base.{
  ℕ, suc, ◌<◌, ◌≡◌, ◌≢◌, refl, ap, ◌∙◌, Bool, true, false, List, [], ◌∷◌, ◌==◌, if◌then◌else◌, any,
  arith, Bool-cases, inl, inr,
}
use vocagateway.Families.Grid.{
  Node, tile, panel, is_panel, Grid, tiles, has_panel, next_is, remove_panel, insert_after,
  move_after, park, place_after_row, restore_after_tile, set_family_open, set_each,
}

pub tiles-remove_panel : (p : ℕ) (cs : List Node) → tiles (remove_panel p cs) ≡ tiles cs
unfolding tiles remove_panel
tiles-remove_panel p [] = refl
tiles-remove_panel p (tile t ∷ cs) = ap (t ∷◌) (tiles-remove_panel p cs)
tiles-remove_panel p (panel q ∷ cs) = ground (arith, tiles-remove_panel p cs)

tiles-insert_after : (a p : ℕ) (cs : List Node) → tiles (insert_after a (panel p) cs) ≡ tiles cs
unfolding tiles insert_after
tiles-insert_after a p [] = refl
tiles-insert_after a p (tile t ∷ cs) = ground (arith, tiles-insert_after a p cs)
tiles-insert_after a p (panel q ∷ cs) = tiles-insert_after a p cs

pub tiles-move_after : (a p : ℕ) (cs : List Node) → tiles (move_after a p cs) ≡ tiles cs
unfolding move_after
tiles-move_after a p cs = tiles-insert_after a p (remove_panel p cs) ∙ tiles-remove_panel p cs

tiles-park : (a p : ℕ) (cs : List Node) → tiles (park a p cs) ≡ tiles cs
unfolding park
tiles-park a p cs =
    ground (arith, tiles-insert_after a p (remove_panel p cs), tiles-remove_panel p cs)

pub tiles-place_after_row :
    (cols t : ℕ) (cs : List Node) → tiles (place_after_row cols t cs) ≡ tiles cs
unfolding place_after_row
tiles-place_after_row cols t cs = grind (arith, tiles-park)

tiles-restore_after_tile : (t : ℕ) (cs : List Node) → tiles (restore_after_tile t cs) ≡ tiles cs
unfolding restore_after_tile
tiles-restore_after_tile t cs = ground (arith, tiles-park t t cs)

pub tiles-set_family_open :
    (cols t : ℕ) (b : Bool) (g : Grid)
    → tiles (set_family_open cols t b g).children ≡ tiles g.children
unfolding set_family_open
tiles-set_family_open cols t true g = tiles-place_after_row cols t g.children
tiles-set_family_open cols t false g = tiles-restore_after_tile t g.children

pub tiles-set_each :
    (cols : ℕ) (b : Bool) (ts : List ℕ) (g : Grid)
    → tiles (set_each cols b ts g).children ≡ tiles g.children
unfolding set_each
tiles-set_each cols b [] g = refl
tiles-set_each cols b (t ∷ ts) g =
    tiles-set_each cols b ts (set_family_open cols t b g) ∙ tiles-set_family_open cols t b g

-- How often a panel stands in the grid.
unfoldable pub count_panel : ℕ → List Node → ℕ
count_panel p [] = 0
count_panel p (c ∷ cs) = if is_panel p c then suc (count_panel p cs) else count_panel p cs

abbrev pub is_in : ℕ → List ℕ → Bool
is_in t ts = any (λ u. u == t) ts

pub has_panel_lem : (p : ℕ) (cs : List Node) → count_panel p cs ≡ 1 → has_panel p cs ≡ true
unfolding has_panel count_panel
has_panel_lem p [] h = absurd (omega arith)
has_panel_lem p (c ∷ cs) h = ground (arith, has_panel_lem p cs)

count-remove_self : (p : ℕ) (cs : List Node) → count_panel p (remove_panel p cs) ≡ 0
unfolding count_panel remove_panel
count-remove_self p [] = refl
count-remove_self p (c ∷ cs) = ground (arith, count-remove_self p cs)

count-remove_ne :
    (p q : ℕ) (cs : List Node) → q ≢ p → count_panel q (remove_panel p cs) ≡ count_panel q cs
unfolding count_panel remove_panel
count-remove_ne p q [] h = refl
count-remove_ne p q (tile t ∷ cs) h = count-remove_ne p q cs h
count-remove_ne p q (panel r ∷ cs) h = ground (arith, count-remove_ne p q cs h)

count-insert_after :
    (a p q : ℕ) (cs : List Node)
    → is_in a (tiles cs) ≡ true
    → count_panel q (insert_after a (panel p) cs)
      ≡ (if p == q then suc (count_panel q cs) else count_panel q cs)
unfolding count_panel insert_after tiles any
count-insert_after a p q [] h = absurd (cc)
count-insert_after a p q (tile t ∷ cs) h = ground (arith, count-insert_after a p q cs)
count-insert_after a p q (panel r ∷ cs) h = ground (arith, count-insert_after a p q cs)

remove_panel_none : (p : ℕ) (cs : List Node) → count_panel p cs ≡ 0 → remove_panel p cs ≡ cs
unfolding count_panel remove_panel
remove_panel_none p [] h = refl
remove_panel_none p (c ∷ cs) h = ground (arith, remove_panel_none p cs)

-- A move of a panel that stands once, to a tile of the grid, loses and doubles no panel.
pub count-move_after :
    (a p q : ℕ) (cs : List Node)
    → is_in a (tiles cs) ≡ true
    → count_panel p cs ≡ 1
    → count_panel q (move_after a p cs) ≡ count_panel q cs
unfolding move_after
count-move_after a p q cs h e = elim (Bool-cases (p == q)) [
  | inl same ↦ ground (
    arith,
    same,
    count-insert_after a p q (remove_panel p cs) (rw (tiles-remove_panel p cs) h),
    count-remove_self p cs,
  )
  | inr differ ↦ ground (
    arith,
    differ,
    count-insert_after a p q (remove_panel p cs) (rw (tiles-remove_panel p cs) h),
    count-remove_ne p q cs,
  )
]

next_is-count : (a p : ℕ) (cs : List Node) → next_is a p cs ≡ true → 0 < count_panel p cs
unfolding next_is count_panel
next_is-count a p [] h = absurd (cc)
next_is-count a p (c ∷ []) h = ground arith
next_is-count a p (c ∷ d ∷ cs) h = ground (arith, next_is-count a p (d ∷ cs))

in_place :
    (a p : ℕ) (cs : List Node)
    → next_is a p cs ≡ true
    → count_panel p cs ≡ 1
    → insert_after a (panel p) (remove_panel p cs) ≡ cs
unfolding next_is count_panel remove_panel insert_after
in_place a p [] n h = absurd (cc)
in_place a p (tile t ∷ []) n h = absurd (ground arith)
in_place a p (tile t ∷ tile u ∷ cs) n h = ground (arith, in_place a p (tile u ∷ cs))
in_place a p (tile t ∷ panel q ∷ cs) n h =
    ground (arith, in_place a p (panel q ∷ cs), remove_panel_none p cs)
in_place a p (panel q ∷ cs) n h = ground (arith, in_place a p cs, next_is-count a p cs)

-- Where the panel is in its place already, moving it there would change nothing.
pub park-eq-move_after :
    (a p : ℕ) (cs : List Node) → count_panel p cs ≡ 1 → park a p cs ≡ move_after a p cs
unfolding park move_after
park-eq-move_after a p cs h = ground (arith, in_place a p cs)
