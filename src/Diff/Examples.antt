-- ===== src/Diff/Examples.antt =====
-- Runs of the word diff of app/webui/app.js, and its theorems at concrete texts.
use vocagateway.Base.{
  ◌≤◌, ◌≡◌, refl, List, [], ◌∷◌, some, Text, length, map, arith, trim, filter, drop_while, is_space,
  codes, true, false, take_while, take_while,
}
use vocagateway.Diff.Subsequence.{Subsequence, marks}
use vocagateway.Diff.Walk.{common_tokens-eq-marks}
use vocagateway.Diff.Common.{Kept, common_tokens}
use vocagateway.Diff.Tokens.{tokenize, concat, tokenize_lem, All, IsToken, AreSplit}
use vocagateway.Diff.Paint.{diff_add, diff_remove, text_node, span, Comparison, paint_comparison}
use vocagateway.Diff.Longest.{IsLongest, common_tokens-IsLongest}
use vocagateway.Diff.Painting.{content, plain, is_span}
use vocagateway.Diff.Results.{paint_comparison_lem, paint_comparison-plain}

abbrev spoken : Text
spoken = codes " we cant ship it"

abbrev corrected : Text
corrected = codes "We can't ship it"

abbrev spoken_words : List Text
spoken_words = codes "we" ∷ codes "cant" ∷ codes "ship" ∷ codes "it" ∷ []

abbrev corrected_words : List Text
corrected_words = codes "We" ∷ codes "can't" ∷ codes "ship" ∷ codes "it" ∷ []

common_tokens_test :
    common_tokens spoken_words corrected_words
    ≡ some (
        some (record {
          before = false ∷ false ∷ true ∷ true ∷ [];
          after = false ∷ false ∷ true ∷ true ∷ [];
        }))
unfolding common_tokens
common_tokens_test = refl

paint_comparison_test :
    paint_comparison spoken corrected
    ≡ some (record {
      transcript =
          span diff_add (codes "We ")
          ∷ span diff_add (codes "can't ")
          ∷ text_node (codes "ship ")
          ∷ text_node (codes "it")
          ∷ [];
      original =
          span diff_remove (codes "we ")
          ∷ span diff_remove (codes "cant ")
          ∷ text_node (codes "ship ")
          ∷ text_node (codes "it")
          ∷ [];
      edits = 2;
    })
unfolding paint_comparison common_tokens tokenize filter drop_while is_space trim take_while
paint_comparison_test = refl

tokenize_lem_example :
    (concat (tokenize spoken) ≡ drop_while is_space spoken)
    × All IsToken (tokenize spoken)
    × AreSplit (tokenize spoken)
tokenize_lem_example = tokenize_lem spoken

common_tokens-IsLongest_example :
    (kept : Kept) × (common_tokens spoken_words corrected_words ≡ some (some kept))
    × IsLongest spoken_words corrected_words kept
common_tokens-IsLongest_example =
    common_tokens-IsLongest spoken_words corrected_words (omega arith) (omega arith)

paint_comparison_lem_example :
    (c : Comparison) × (paint_comparison spoken corrected ≡ some c)
    × (content c.transcript ≡ drop_while is_space corrected)
    × (content c.original ≡ drop_while is_space spoken)
    × (c.edits ≡ length (filter is_span c.transcript))
paint_comparison_lem_example = paint_comparison_lem spoken corrected

paint_comparison-plain_example :
    (c : Comparison) × (paint_comparison spoken corrected ≡ some c)
    × (map trim (plain c.original) ≡ map trim (plain c.transcript))
    × ((zs : List Text)
        → Subsequence zs (map trim (tokenize spoken))
        → Subsequence zs (map trim (tokenize corrected))
        → length zs ≤ length (plain c.transcript))
unfolding tokenize take_while drop_while is_space
paint_comparison-plain_example = paint_comparison-plain spoken corrected (omega arith) (omega arith)

common_tokens-eq-marks_example :
    common_tokens spoken_words corrected_words
    ≡ some (
        some (record {
          before = (marks spoken_words corrected_words).0;
          after = (marks spoken_words corrected_words).1;
        }))
common_tokens-eq-marks_example =
    common_tokens-eq-marks spoken_words corrected_words (omega arith) (omega arith)
