-- ===== src/Diff/Results.antt =====
-- What the word diff of app/webui/app.js (`paintComparison`) shows.
use native.Mathlib.Decide.{dec_le}
use vocagateway.Base.{
  ◌≤◌, ◌<◌, ◌≡◌, refl, sym, ap, ◌∙◌, ◌⊎◌, inl, inr, List, Option, none, some, Text, length, map,
  arith, trim, filter, length-map, drop_while, is_space,
}
use vocagateway.Diff.Subsequence.{Subsequence, pick}
use vocagateway.Diff.Common.{Kept, diff_token_limit}
use vocagateway.Diff.Walk.{common_tokens-eq-null}
use vocagateway.Diff.Tokens.{tokenize, tokenize_lem}
use vocagateway.Diff.Paint.{
  diff_add, diff_remove, paint_diff, Comparison, count_edits, paint_comparison, kept_before,
  kept_after,
}
use vocagateway.Diff.Longest.{IsLongest, common_tokens-IsLongest}
use vocagateway.Diff.Painting.{
  is_span, content, plain, content-paint_from, paint_from-marks, paint_from-none, map-trim-pick,
}

-- The painting of both texts for some outcome of the comparison.
abbrev painted : Text → Text → Option Kept → Comparison
painted before after kept = record {
  transcript = paint_diff (tokenize after) (kept_after kept) diff_add;
  original = paint_diff (tokenize before) (kept_before kept) diff_remove;
  edits = count_edits kept;
}

trimmed : Text → List Text
trimmed text = map trim (tokenize text)

length-trimmed : (text : Text) → length (trimmed text) ≡ length (tokenize text)
unfolding trimmed
length-trimmed text = length-map (tokenize text) trim

comparison_null :
    (before after : Text)
    → (diff_token_limit < length (tokenize before)) ⊎ (diff_token_limit < length (tokenize after))
    → paint_comparison before after ≡ some (painted before after none)
unfolding paint_comparison
comparison_null before after over =
    rw
      (common_tokens-eq-null (map trim (tokenize before)) (map trim (tokenize after))
        (omega (arith, length-map (tokenize before) trim, length-map (tokenize after) trim)))
      refl

-- The outcome: `null` beyond the limit, a longest common subsequence up to it.
comparison_cases :
    (before after : Text)
    → ((diff_token_limit < length (tokenize before)) ⊎ (diff_token_limit < length (tokenize after)))
        × (paint_comparison before after ≡ some (painted before after none))
      ⊎ (kept : Kept) × (paint_comparison before after ≡ some (painted before after (some kept)))
        × IsLongest (trimmed before) (trimmed after) kept
unfolding paint_comparison trimmed
comparison_cases before after = elim (dec_le (length (tokenize before)) diff_token_limit) [
  | no p ↦ inl (inl (omega arith), comparison_null before after (inl (omega arith)))
  | yes p ↦ elim (dec_le (length (tokenize after)) diff_token_limit) [
    | no q ↦ inl (inr (omega arith), comparison_null before after (inr (omega arith)))
    | yes q ↦
        let (kept, e, l) =
          common_tokens-IsLongest (map trim (tokenize before)) (map trim (tokenize after))
            (omega (arith, length-map (tokenize before) trim))
            (omega (arith, length-map (tokenize after) trim)) in
        inr (kept, rw e refl, l)
  ]
]

-- The comparison always succeeds. Each element shows its own text whole, without the spaces in
-- front, and the number of edits is the number of marks in the corrected text.
pub paint_comparison_lem :
    (before after : Text)
    → (c : Comparison) × (paint_comparison before after ≡ some c)
      × (content c.transcript ≡ drop_while is_space after)
      × (content c.original ≡ drop_while is_space before)
      × (c.edits ≡ length (filter is_span c.transcript))
unfolding paint_diff filter trimmed
paint_comparison_lem before after = elim (comparison_cases before after) [
  | inl (over, e) ↦ (
    painted before after none,
    e,
    content-paint_from 0 none diff_add (tokenize after) ∙ (tokenize_lem after).0,
    content-paint_from 0 none diff_remove (tokenize before) ∙ (tokenize_lem before).0,
    sym (paint_from-none 0 diff_add (tokenize after)),
  )
  | inr (kept, e, l) ↦ (
    painted before after (some kept),
    e,
    content-paint_from 0 (some kept.after) diff_add (tokenize after) ∙ (tokenize_lem after).0,
    content-paint_from 0 (some kept.before) diff_remove (tokenize before) ∙ (tokenize_lem before).0,
    sym
        (paint_from-marks 0 kept.after kept.after diff_add (tokenize after) refl
          (l.length_after ∙ length-trimmed after)).1,
  )
]

-- Up to the limit, the tokens left unmarked read the same on both sides, but for the spaces behind
-- them, and no more of the two texts could be left unmarked.
pub paint_comparison-plain :
    (before after : Text)
    → length (tokenize before) ≤ diff_token_limit
    → length (tokenize after) ≤ diff_token_limit
    → (c : Comparison) × (paint_comparison before after ≡ some c)
      × (map trim (plain c.original) ≡ map trim (plain c.transcript))
      × ((zs : List Text)
          → Subsequence zs (map trim (tokenize before))
          → Subsequence zs (map trim (tokenize after))
          → length zs ≤ length (plain c.transcript))
unfolding paint_diff trimmed
paint_comparison-plain before after hb ha = elim (comparison_cases before after) [
  | inl (over, e) ↦ absurd (omega arith)
  | inr (kept, e, l) ↦
      let old =
        paint_from-marks 0 kept.before kept.before diff_remove (tokenize before) refl
          (l.length_before ∙ length-trimmed before) in
      let new =
        paint_from-marks 0 kept.after kept.after diff_add (tokenize after) refl
          (l.length_after ∙ length-trimmed after) in
      (
        painted before after (some kept),
        e,
        rw
            (
              old.0,
              new.0,
              map-trim-pick kept.before (tokenize before),
              map-trim-pick kept.after (tokenize after),
            )
            l.same,
        λ zs s t. rw new.0 (
            omega (
              arith,
              l.longest zs s t,
              length-map (pick kept.after (tokenize after)) trim,
              ap length (map-trim-pick kept.after (tokenize after)),
            )),
      )
]

-- Beyond the limit on either side nothing is marked, and no edit is counted.
pub paint_comparison_over :
    (before after : Text)
    → (diff_token_limit < length (tokenize before)) ⊎ (diff_token_limit < length (tokenize after))
    → (c : Comparison) × (paint_comparison before after ≡ some c) × (c.edits ≡ 0)
paint_comparison_over before after over =
    (painted before after none, comparison_null before after over, refl)
