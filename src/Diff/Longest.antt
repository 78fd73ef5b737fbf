-- ===== src/Diff/Longest.antt =====
-- The result of `commonTokens` of app/webui/app.js is a longest common subsequence.
use vocagateway.Base.{
  suc, ◌≤◌, ◌≡◌, refl, ap, List, [], ◌∷◌, some, Text, length, arith, length-replicate,
}
use vocagateway.Diff.Subsequence.{Subsequence, pick, marks, pick-marks, Subsequence-le-lcs}
use vocagateway.Diff.Common.{Kept, common_tokens, diff_token_limit}
use vocagateway.Diff.Walk.{common_tokens-eq-marks}

-- The marks of a longest common subsequence of two token lists.
pub record IsLongest (before after : List Text) (kept : Kept) : Type 0 where
  pub length_before : length kept.before ≡ length before
  pub length_after : length kept.after ≡ length after
  pub same : pick kept.before before ≡ pick kept.after after
  pub longest :
      (zs : List Text)
      → Subsequence zs before
      → Subsequence zs after
      → length zs ≤ length (pick kept.after after)

length-marks :
    (xs ys : List Text)
    → (length (marks xs ys).0 ≡ length xs) × (length (marks xs ys).1 ≡ length ys)
unfolding marks
length-marks [] ys = (refl, length-replicate _ _)
length-marks (x ∷ xs) [] = (ap suc (length-replicate _ _), refl)
length-marks (x ∷ xs) (y ∷ ys) =
    ground (arith, length-marks xs ys, length-marks xs (y ∷ ys), length-marks (x ∷ xs) ys)

-- Up to 400 tokens on each side the comparison succeeds, and the tokens it keeps in the two lists
-- are the same ones, in order, and a longest common subsequence.
pub common_tokens-IsLongest :
    (before after : List Text)
    → length before ≤ diff_token_limit
    → length after ≤ diff_token_limit
    → (kept : Kept) × (common_tokens before after ≡ some (some kept)) × IsLongest before after kept
common_tokens-IsLongest before after hb ha = (
  record { before = (marks before after).0; after = (marks before after).1 },
  common_tokens-eq-marks before after hb ha,
  record {
    length_before = (length-marks before after).0;
    length_after = (length-marks before after).1;
    same = (pick-marks before after).0;
    longest = λ zs s t.
        omega (arith, Subsequence-le-lcs zs before after s t, (pick-marks before after).1);
  },
)
