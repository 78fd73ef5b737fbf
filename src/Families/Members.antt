-- ===== src/Families/Members.antt =====
-- Lists of families, and those of them that a test keeps (app/webui/app.js).
use vocagateway.Base.{
  ℕ, ◌≡◌, refl, ap, ◌∙◌, Bool, true, false, List, [], ◌∷◌, ==_iff, any, filter, arith, Bool-cases,
  inl, inr,
}
use vocagateway.Families.Grid.{reverse_onto}
use vocagateway.Families.Order.{is_in}
use vocagateway.Families.Collapse.{distinct}
use vocagateway.Families.Opened.{is_in-filter}
use vocagateway.Families.Anchors.{are_in}

pub distinct-filter :
    (p : ℕ → Bool) (ts : List ℕ) → distinct ts ≡ true → distinct (filter p ts) ≡ true
unfolding filter
distinct-filter p [] d = refl
distinct-filter p (u ∷ ts) d = ground (arith, distinct-filter p ts, is_in-filter p ts u)

are_in-later : (us ts : List ℕ) (t : ℕ) → are_in ts us ≡ true → are_in (t ∷ ts) us ≡ true
unfolding any
are_in-later [] ts t h = refl
are_in-later (u ∷ us) ts t h = ground (arith, are_in-later us ts t)

pub are_in-filter : (p : ℕ → Bool) (ts : List ℕ) → are_in ts (filter p ts) ≡ true
unfolding filter any
are_in-filter p [] = refl
are_in-filter p (u ∷ ts) =
    ground (arith, ==_iff u u, are_in-later (filter p ts) ts u, are_in-filter p ts)

pub filter_ext :
    (p q : ℕ → Bool) (ts : List ℕ)
    → ((t : ℕ) → is_in t ts ≡ true → p t ≡ q t)
    → filter p ts ≡ filter q ts
unfolding filter any
filter_ext p q [] h = refl
filter_ext p q (t ∷ ts) h =
    let here = h t (unfold any in ground (arith, ==_iff t t)) in
    ground (arith, here, filter_ext p q ts (λ u m. h u (unfold any in ground arith)))

pub filter_all : (ts : List ℕ) → filter (λ _. true) ts ≡ ts
unfolding filter
filter_all [] = refl
filter_all (t ∷ ts) = ap (t ∷◌) (filter_all ts)

pub filter_none : (ts : List ℕ) → filter (λ _. false) ts ≡ []
unfolding filter
filter_none [] = refl
filter_none (t ∷ ts) = filter_none ts

pub filter-reverse_onto :
    (p : ℕ → Bool) (acc ts : List ℕ)
    → filter p (reverse_onto acc ts) ≡ reverse_onto (filter p acc) (filter p ts)
unfolding filter
filter-reverse_onto p acc [] = refl
filter-reverse_onto p acc (t ∷ ts) = elim (Bool-cases (p t)) [
  | inl e ↦ filter-reverse_onto p (t ∷ acc) ts ∙ rw e refl
  | inr e ↦ filter-reverse_onto p (t ∷ acc) ts ∙ rw e refl
]
