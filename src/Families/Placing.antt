-- ===== src/Families/Placing.antt =====
-- Parking open panels one after the other, from the last family to the first, puts the panels of one
-- anchor behind it in the order of the families (app/webui/app.js).
use vocagateway.Base.{
  ℕ, ◌≡◌, refl, ap, ◌∙◌, Bool, true, false, List, [], ◌∷◌, ◌++◌, ◌==◌, if◌then◌else◌, any, filter,
  arith, Bool-cases, inl, inr, ==_iff,
}
use vocagateway.Families.Grid.{
  Node, tile, panel, tiles, remove_panel, insert_after, move_after, place_after_row, place_each,
  reverse_onto,
}
use vocagateway.Families.Order.{is_in}
use vocagateway.Families.Collapse.{distinct, only_panels, insert_after-append}

-- The tiles, and the panels of the families `ps`.
abbrev pub is_kept : List ℕ → Node → Bool
is_kept ps (tile t) = true
is_kept ps (panel p) = is_in p ps

unfoldable pub keep : List ℕ → List Node → List Node
unfolding filter any
keep ps cs = filter (is_kept ps) cs

abbrev pub panels_of : List ℕ → List Node
panels_of [] = []
panels_of (p ∷ ps) = panel p ∷ panels_of ps

-- The families whose panels stand behind the tile `u`.
unfoldable pub behind : (ℕ → ℕ) → ℕ → List ℕ → List ℕ
behind anchor u [] = []
behind anchor u (t ∷ ps) = if anchor t == u then t ∷ behind anchor u ps else behind anchor u ps

unfoldable pub spread : (ℕ → ℕ) → List ℕ → List ℕ → List Node
unfolding behind
spread anchor ps [] = []
spread anchor ps (u ∷ us) = tile u ∷ panels_of (behind anchor u ps) ++ spread anchor ps us

only_panels-panels_of : (ps : List ℕ) → only_panels (panels_of ps) ≡ true
only_panels-panels_of [] = refl
only_panels-panels_of (p ∷ ps) = only_panels-panels_of ps

spread_elsewhere :
    (anchor : ℕ → ℕ) (t : ℕ) (ps us : List ℕ)
    → is_in (anchor t) us ≡ false
    → spread anchor (t ∷ ps) us ≡ spread anchor ps us
unfolding spread behind any
spread_elsewhere anchor t ps [] h = refl
spread_elsewhere anchor t ps (u ∷ us) h = ground (arith, spread_elsewhere anchor t ps us)

pub insert_after-spread :
    (anchor : ℕ → ℕ) (t : ℕ) (ps us : List ℕ)
    → distinct us ≡ true
    → is_in (anchor t) us ≡ true
    → insert_after (anchor t) (panel t) (spread anchor ps us) ≡ spread anchor (t ∷ ps) us
unfolding spread behind any insert_after
insert_after-spread anchor t ps [] d i = absurd (cc)
insert_after-spread anchor t ps (u ∷ us) d i = elim (Bool-cases (anchor t == u)) [
  | inl e ↦
      let same = (==_iff (anchor t) u).0 e in
      let fresh : is_in (anchor t) us ≡ false = rw same (ground arith) in
      ground (arith, e, ==_iff (anchor t) u, spread_elsewhere anchor t ps us)
  | inr e ↦ ground (
    arith,
    e,
    ==_iff (anchor t) u,
    insert_after-spread anchor t ps us,
    insert_after-append (anchor t) (panel t) (panels_of (behind anchor u ps)) (spread anchor ps us)
        (only_panels-panels_of (behind anchor u ps)),
  )
]

keep-insert_after :
    (ps : List ℕ) (a t : ℕ) (cs : List Node)
    → is_in t ps ≡ true
    → keep ps (insert_after a (panel t) cs) ≡ insert_after a (panel t) (keep ps cs)
unfolding keep insert_after
keep-insert_after ps a t [] i = refl
keep-insert_after ps a t (tile u ∷ cs) i = ground (arith, keep-insert_after ps a t cs)
keep-insert_after ps a t (panel q ∷ cs) i = ground (arith, keep-insert_after ps a t cs)

keep-remove_panel :
    (ps : List ℕ) (t : ℕ) (cs : List Node)
    → is_in t ps ≡ false
    → keep (t ∷ ps) (remove_panel t cs) ≡ keep ps cs
unfolding keep remove_panel any
keep-remove_panel ps t [] n = refl
keep-remove_panel ps t (tile u ∷ cs) n = ap (tile u ∷◌) (keep-remove_panel ps t cs n)
keep-remove_panel ps t (panel q ∷ cs) n = elim (Bool-cases (q == t)) [
  | inl e ↦ ground (arith, e, ==_iff q t, keep-remove_panel ps t cs)
  | inr e ↦ ground (arith, e, keep-remove_panel ps t cs)
]

pub keep-move_after :
    (ps : List ℕ) (a t : ℕ) (cs : List Node)
    → is_in t ps ≡ false
    → keep (t ∷ ps) (move_after a t cs) ≡ insert_after a (panel t) (keep ps cs)
unfolding move_after
keep-move_after ps a t cs n =
    keep-insert_after (t ∷ ps) a t (remove_panel t cs) (unfold any in ground (arith, ==_iff t t))
    ∙ ap (λ ds. insert_after a (panel t) ds) (keep-remove_panel ps t cs n)

pub keep_none : (anchor : ℕ → ℕ) (cs : List Node) → keep [] cs ≡ spread anchor [] (tiles cs)
unfolding keep spread tiles behind any
keep_none anchor [] = refl
keep_none anchor (tile t ∷ cs) = ap (tile t ∷◌) (keep_none anchor cs)
keep_none anchor (panel p ∷ cs) = keep_none anchor cs

-- The panels of `ps`, parked from the last family to the first.
unfoldable pub placed : ℕ → List ℕ → List Node → List Node
unfolding place_after_row
placed cols [] cs = cs
placed cols (t ∷ ps) cs = place_after_row cols t (placed cols ps cs)

place_each-reverse_onto :
    (cols : ℕ) (acc ps : List ℕ) (cs : List Node)
    → place_each cols (reverse_onto acc ps) cs ≡ place_each cols acc (placed cols ps cs)
unfolding placed place_each
place_each-reverse_onto cols acc [] cs = refl
place_each-reverse_onto cols acc (t ∷ ps) cs = place_each-reverse_onto cols (t ∷ acc) ps cs

pub place_each-placed :
    (cols : ℕ) (ps : List ℕ) (cs : List Node)
    → place_each cols (reverse_onto [] ps) cs ≡ placed cols ps cs
unfolding place_each
place_each-placed cols ps cs = place_each-reverse_onto cols [] ps cs
