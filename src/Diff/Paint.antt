-- ===== src/Diff/Paint.antt =====
-- `paintDiff` and `paintComparison` of app/webui/app.js: which words of the two texts are marked,
-- and the number of edits.
use vocagateway.Base.{
  ℕ, suc, Bool, true, false, not, List, [], ◌∷◌, Option, none, some, Text, length, map, get_elem?,
  if◌then◌else◌, ◌>>=◌, trim, filter,
}
use vocagateway.Diff.Common.{Kept, common_tokens}
use vocagateway.Diff.Tokens.{tokenize}

pub data MarkClass : Type 0 where
  diff_add diff_remove : MarkClass

-- The children of a painted element: text nodes, and `span`s with a class.
pub data Child : Type 0 where
  text_node : Text → Child
  span : MarkClass → Text → Child

-- `kept && !kept[index]`: no marks where there was no comparison, and a mark for an index that
-- `kept` lacks.
unfoldable pub is_marked : Option (List Bool) → ℕ → Bool
is_marked none index = false
is_marked (some kept) index = elim (get_elem? kept index) [ none ↦ true | some b ↦ not b ]

-- The loop of `paintDiff` from an index on; what the target held is cleared first.
unfoldable pub paint_from : ℕ → Option (List Bool) → MarkClass → List Text → List Child
unfolding is_marked
paint_from index kept mark_class [] = []
paint_from index kept mark_class (token ∷ tokens) =
    (if is_marked kept index then span mark_class token else text_node token)
    ∷ paint_from (suc index) kept mark_class tokens

unfoldable pub paint_diff : List Text → Option (List Bool) → MarkClass → List Child
unfolding paint_from
paint_diff tokens kept mark_class = paint_from 0 kept mark_class tokens

pub record Comparison : Type 0 where
  pub transcript : List Child
  pub original : List Child
  pub edits : ℕ

abbrev pub kept_before : Option Kept → Option (List Bool)
kept_before none = none
kept_before (some k) = some k.before

abbrev pub kept_after : Option Kept → Option (List Bool)
kept_after none = none
kept_after (some k) = some k.after

abbrev pub count_edits : Option Kept → ℕ
count_edits none = 0
count_edits (some k) = length (filter not k.after)

-- `none` is a fault in the comparison, which does not happen (Diff/Results).
unfoldable pub paint_comparison : Text → Text → Option Comparison
unfolding paint_diff
paint_comparison before after = do
  let before_tokens = tokenize before
  let after_tokens = tokenize after
  kept ← common_tokens (map trim before_tokens) (map trim after_tokens)
  some (record {
    transcript = paint_diff after_tokens (kept_after kept) diff_add;
    original = paint_diff before_tokens (kept_before kept) diff_remove;
    edits = count_edits kept;
  })
