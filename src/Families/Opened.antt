-- ===== src/Families/Opened.antt =====
-- Which families are open after a change of several (app/webui/app.js).
use vocagateway.Base.{
  ℕ, ◌≡◌, refl, ap, ◌∙◌, Bool, true, false, ◌&&◌, ◌||◌, List, [], ◌∷◌, ◌==◌, ==_iff, if◌then◌else◌,
  any, filter, arith, Bool-cases, inl, inr,
}
use vocagateway.Families.Grid.{
  Grid, tiles, set_family_open, set_each, reverse_onto, wants, restore_open_families,
  sync_families_expand_toggle,
}
use vocagateway.Families.Order.{is_in}

set_family_open_tile :
    (cols t u : ℕ) (b : Bool) (g : Grid)
    → (set_family_open cols t b g).tile_open u ≡ (if u == t then b else g.tile_open u)
unfolding set_family_open
set_family_open_tile cols t u b g = refl

pub set_each_tile :
    (cols : ℕ) (b : Bool) (ts : List ℕ) (g : Grid) (u : ℕ)
    → (set_each cols b ts g).tile_open u ≡ (if is_in u ts then b else g.tile_open u)
unfolding set_each any
set_each_tile cols b [] g u = refl
set_each_tile cols b (t ∷ ts) g u = ground (
  arith,
  set_each_tile cols b ts (set_family_open cols t b g) u,
  set_family_open_tile cols t u b g,
  ==_iff u t,
  ==_iff t u,
)

pub is_in-filter : (p : ℕ → Bool) (ts : List ℕ) (u : ℕ) → is_in u (filter p ts) ≡ is_in u ts && p u
unfolding any filter
is_in-filter p [] u = refl
is_in-filter p (t ∷ ts) u = elim (Bool-cases (t == u)) [
  | inl e ↦ ground (arith, is_in-filter p ts u, ap p ((==_iff t u).0 e))
  | inr e ↦ ground (arith, is_in-filter p ts u)
]

pub is_in-reverse_onto :
    (acc ts : List ℕ) (u : ℕ) → is_in u (reverse_onto acc ts) ≡ is_in u ts || is_in u acc
unfolding any
is_in-reverse_onto acc [] u = refl
is_in-reverse_onto acc (t ∷ ts) u = ground (arith, is_in-reverse_onto (t ∷ acc) ts u)

pub sync_tile : (g : Grid) (u : ℕ) → (sync_families_expand_toggle g).tile_open u ≡ g.tile_open u
unfolding sync_families_expand_toggle
sync_tile g u = ground arith

pub or_false : (b : Bool) → b || false ≡ b
or_false true = refl
or_false false = refl

then_true : (a b : Bool) → (if a then true else b) ≡ a || b
then_true true b = refl
then_true false b = refl

pub restore_tile :
    (cols : ℕ) (names : List ℕ) (g : Grid) (u : ℕ)
    → (restore_open_families cols names g).tile_open u
      ≡ (is_in u (tiles g.children) && is_in u names) || g.tile_open u
unfolding restore_open_families
restore_tile cols [] g u = ground arith
restore_tile cols (n ∷ ns) g u =
    let ts = filter (wants (n ∷ ns)) (reverse_onto [] (tiles g.children)) in
    sync_tile (set_each cols true ts g) u
    ∙ set_each_tile cols true ts g u
    ∙ then_true (is_in u ts) (g.tile_open u)
    ∙ ap (λ b. b || g.tile_open u)
        (is_in-filter (wants (n ∷ ns)) (reverse_onto [] (tiles g.children)) u
          ∙ ap (λ b. b && is_in u (n ∷ ns))
              (is_in-reverse_onto [] (tiles g.children) u ∙ or_false (is_in u (tiles g.children))))
