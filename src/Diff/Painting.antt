-- ===== src/Diff/Painting.antt =====
-- What the elements that `paintDiff` of app/webui/app.js fills show.
use vocagateway.Base.{
  ℕ, suc, ◌≡◌, refl, Bool, true, false, not, List, [], ◌∷◌, Option, none, some, Text, length, map,
  arith, trim, filter, drop, drop-eq-cons_inv,
}
use vocagateway.Diff.Subsequence.{pick}
use vocagateway.Diff.Tokens.{concat}
use vocagateway.Diff.Paint.{MarkClass, Child, text_node, span, is_marked, paint_from}

abbrev pub child_text : Child → Text
child_text (text_node t) = t
child_text (span c t) = t

abbrev pub is_span : Child → Bool
is_span (text_node t) = false
is_span (span c t) = true

-- The text that the element shows, and the tokens in it that are not marked.
abbrev pub content : List Child → Text
content children = concat (map child_text children)

unfoldable pub plain : List Child → List Text
plain [] = []
plain (text_node t ∷ rest) = t ∷ plain rest
plain (span c t ∷ rest) = plain rest

pub content-paint_from :
    (i : ℕ) (kept : Option (List Bool)) (c : MarkClass) (tokens : List Text)
    → content (paint_from i kept c tokens) ≡ concat tokens
unfolding paint_from concat
content-paint_from i kept c [] = refl
content-paint_from i kept c (t ∷ ts) = ground (arith, content-paint_from (suc i) kept c ts)

-- With a mark for each token, what is marked is what was not kept.
pub paint_from-marks :
    (i : ℕ) (bs rest : List Bool) (c : MarkClass) (tokens : List Text)
    → drop i bs ≡ rest
    → length rest ≡ length tokens
    → (plain (paint_from i (some bs) c tokens) ≡ pick rest tokens)
      × (length (filter is_span (paint_from i (some bs) c tokens)) ≡ length (filter not rest))
unfolding paint_from plain pick filter is_marked
paint_from-marks i bs [] c [] d h = (refl, refl)
paint_from-marks i bs [] c (t ∷ ts) d h = absurd (omega arith)
paint_from-marks i bs (b ∷ rest) c [] d h = absurd (omega arith)
paint_from-marks i bs (b ∷ rest) c (t ∷ ts) d h =
    let (e, d', _) = drop-eq-cons_inv bs i b rest d in
    let ih = paint_from-marks (suc i) bs rest c ts d' (omega arith) in ground (arith, e, ih)

pub paint_from-none :
    (i : ℕ) (c : MarkClass) (tokens : List Text)
    → length (filter is_span (paint_from i none c tokens)) ≡ 0
unfolding paint_from filter
paint_from-none i c [] = refl
paint_from-none i c (t ∷ ts) = paint_from-none (suc i) c ts

pub map-trim-pick :
    (bs : List Bool) (ts : List Text) → map trim (pick bs ts) ≡ pick bs (map trim ts)
unfolding pick
map-trim-pick [] ts = refl
map-trim-pick (b ∷ bs) [] = refl
map-trim-pick (b ∷ bs) (t ∷ ts) = ground (arith, map-trim-pick bs ts)
