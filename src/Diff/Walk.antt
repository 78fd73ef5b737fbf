-- ===== src/Diff/Walk.antt =====
-- The walk of `commonTokens` (app/webui/app.js) through the filled table.
use native.Mathlib.Numerals.{add-one}
use vocagateway.Base.{
  ℕ, zero, suc, ◌+◌, ◌≤◌, ◌<◌, ◌≡◌, refl, sym, ◌∙◌, Bool, true, false, List, [], ◌∷◌, ◌++◌, some,
  none, Text, text_eq, leb, length, set, drop, replicate, arith, append_assoc, length-append,
  set-append-cons, Bool-cases, inl, drop-eq-nil, drop-eq-cons_inv, inr, lt→ltb, ◌⊎◌,
}
use vocagateway.Diff.Common.{Table, read, Kept, walk, common_tokens, diff_token_limit}
use vocagateway.Diff.Subsequence.{lcs, marks}
use vocagateway.Diff.Table.{fill_rows-eq-lcs}

-- The marks made so far, and none from there on.
abbrev marked : List Bool → List Bool → List Text → List Text → Kept
marked bs cs xs ys = record {
  before = bs ++ replicate (length xs) false;
  after = cs ++ replicate (length ys) false;
}

abbrev finished : List Bool → List Bool → List Bool × List Bool → Kept
finished bs cs m = record { before = bs ++ m.0; after = cs ++ m.1 }

-- One more mark stands at the end of those made, or at the head of those to come.
shift : (b : Bool) (bs cs : List Bool) → (bs ++ b ∷ []) ++ cs ≡ bs ++ b ∷ cs
shift b bs cs = append_assoc bs (b ∷ []) cs

length-snoc : (b : Bool) (bs : List Bool) {n : ℕ} → length bs ≡ n → length (bs ++ b ∷ []) ≡ suc n
length-snoc b bs h = omega (arith, length-append bs (b ∷ []))

set-mark :
    (bs cs : List Bool) {n : ℕ}
    → length bs ≡ n
    → set (bs ++ false ∷ cs) n true ≡ (bs ++ true ∷ []) ++ cs
set-mark bs cs h = rw (← h) (set-append-cons bs cs false true ∙ sym (shift true bs cs))

-- The place of the walk: what is left of a list from an index on, with its marks up to there.
record At (list : List Text) (i : ℕ) (rest : List Text) (bs : List Bool) : Type 0 where
  suffix : drop i list ≡ rest
  inside : i ≤ length list
  count : length bs ≡ i

At-next :
    {list rest : List Text} {i : ℕ} {bs : List Bool} {x : Text} (b : Bool)
    → At list i (x ∷ rest) bs
    → At list (suc i) rest (bs ++ b ∷ [])
At-next {list} {rest} {i} {bs} {x} b p =
    let (_, d, l) = drop-eq-cons_inv list i x rest p.suffix in
    record { suffix = d; inside = l; count = length-snoc b bs p.count }

module _ (before after : List Text) (table : Table)
    (holds : (k l : ℕ)
      → k ≤ length before
      → l ≤ length after
      → read table k l ≡ some (lcs (drop k before) (drop l after))) where
  walk-marks :
      (fuel i j : ℕ) (xs ys : List Text) (bs cs : List Bool)
      → At before i xs bs
      → At after j ys cs
      → length xs + length ys < fuel
      → walk before after fuel table i j (marked bs cs xs ys) ≡ some (finished bs cs (marks xs ys))
  unfolding walk marks
  walk-marks zero i j xs ys bs cs p q h = absurd (omega arith)
  walk-marks (suc fuel) i j [] ys bs cs p q h = ground (arith, drop-eq-nil before i p.suffix)
  walk-marks (suc fuel) i j (x ∷ xs) [] bs cs p q h = ground (arith, drop-eq-nil after j q.suffix)
  walk-marks (suc fuel) i j (x ∷ xs) (y ∷ ys) bs cs p q h =
      let (ex, dx, lx) = drop-eq-cons_inv before i x xs p.suffix in
      let (ey, dy, ly) = drop-eq-cons_inv after j y ys q.suffix in
      rw
        (
          lt→ltb _ _ lx,
          lt→ltb _ _ ly,
          ex,
          ey,
          add-one i,
          add-one j,
          holds (suc i) j (omega arith) (omega arith),
          holds i (suc j) (omega arith) (omega arith),
          dx,
          dy,
          p.suffix,
          q.suffix,
        )
        (elim (Bool-cases (text_eq x y)) [
          | inl e ↦
              rw e rw
                (
                  set-mark bs (replicate (length xs) false) p.count,
                  set-mark cs (replicate (length ys) false) q.count,
                )
                (rw (shift true bs (marks xs ys).0, shift true cs (marks xs ys).1) at
                  (walk-marks fuel (suc i) (suc j) xs ys (bs ++ true ∷ []) (cs ++ true ∷ [])
                    (At-next true p) (At-next true q) (omega arith)))
          | inr e ↦ rw e (elim (Bool-cases (leb (lcs (x ∷ xs) ys) (lcs xs (y ∷ ys)))) [
            | inl l ↦
                rw l rw
                  (
                    shift false bs (replicate (length xs) false),
                    shift false bs (marks xs (y ∷ ys)).0,
                  )
                  at
                  (walk-marks fuel (suc i) j xs (y ∷ ys) (bs ++ false ∷ []) cs (At-next false p) q
                    (omega arith))
            | inr l ↦
                rw l rw
                  (
                    shift false cs (replicate (length ys) false),
                    shift false cs (marks (x ∷ xs) ys).1,
                  )
                  at
                  (walk-marks fuel i (suc j) (x ∷ xs) ys bs (cs ++ false ∷ []) p (At-next false q)
                    (omega arith))
          ])
        ])

-- Up to the limit, `commonTokens` reads and writes within the table only, its walk ends, and the
-- result is the recursive marking.
pub common_tokens-eq-marks :
    (before after : List Text)
    → length before ≤ diff_token_limit
    → length after ≤ diff_token_limit
    → common_tokens before after
      ≡ some (some (record { before = (marks before after).0; after = (marks before after).1 }))
unfolding common_tokens
common_tokens-eq-marks before after hb ha =
    let (table, e, holds) = fill_rows-eq-lcs before after (omega arith) in
    let found =
      walk-marks before after table holds (length before + length after + 1) 0 0 before after [] []
        (record { suffix = refl; inside = omega arith; count = refl })
        (record { suffix = refl; inside = omega arith; count = refl }) (omega arith) in
    rw e (ground (arith, found))

-- Beyond the limit on either side it answers `null`.
pub common_tokens-eq-null :
    (before after : List Text)
    → (diff_token_limit < length before) ⊎ (diff_token_limit < length after)
    → common_tokens before after ≡ some none
unfolding common_tokens
common_tokens-eq-null before after h = ground arith
