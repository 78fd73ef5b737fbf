-- ===== src/Diff/Subsequence.antt =====
-- What a longest common subsequence is, and the recursive form of the marking of app/webui/app.js
-- (`commonTokens`) on the suffixes of the two token lists.
use vocagateway.Base.{
  ℕ, suc, ◌+◌, ◌≤◌, max, ◌≡◌, refl, Bool, true, false, List, [], ◌∷◌, Text, text_eq, text_eq_iff,
  text_eq_refl, leb, if◌then◌else◌, Bool-cases, inl, inr, length, replicate, arith,
}
use mathlib.Core.Logic.{◌⊎◌}

-- `zs` is what is left of the list after some of its items are struck out.
pub data Subsequence : List Text → List Text → Type 0 where
  done : Subsequence [] []
  skip : {zs xs : List Text} (x : Text) → Subsequence zs xs → Subsequence zs (x ∷ xs)
  keep : {zs xs : List Text} (x : Text) → Subsequence zs xs → Subsequence (x ∷ zs) (x ∷ xs)

-- The items that are marked.
unfoldable pub pick : List Bool → List Text → List Text
pick [] xs = []
pick (b ∷ bs) [] = []
pick (b ∷ bs) (x ∷ xs) = let rest = pick bs xs in if b then x ∷ rest else rest

unfoldable pub lcs : List Text → List Text → ℕ
lcs [] ys = 0
lcs (x ∷ xs) [] = 0
lcs (x ∷ xs) (y ∷ ys) =
    let equal = lcs xs ys + 1 in
    let differ = max (lcs xs (y ∷ ys)) (lcs (x ∷ xs) ys) in if text_eq x y then equal else differ

-- The marks of both lists.
unfoldable pub marks : List Text → List Text → List Bool × List Bool
marks [] ys = ([], replicate (length ys) false)
marks (x ∷ xs) [] = (replicate (suc (length xs)) false, [])
marks (x ∷ xs) (y ∷ ys) =
    let both = marks xs ys in
    let skip_x = marks xs (y ∷ ys) in
    let skip_y = marks (x ∷ xs) ys in
    if text_eq x y
    then (true ∷ both.0, true ∷ both.1)
    else if leb (lcs (x ∷ xs) ys) (lcs xs (y ∷ ys))
    then (false ∷ skip_x.0, skip_x.1)
    else (skip_y.0, false ∷ skip_y.1)

pub lcs-nil : (xs : List Text) → lcs xs [] ≡ 0
unfolding lcs
lcs-nil [] = refl
lcs-nil (x ∷ xs) = refl

pick-none : (xs : List Text) → pick (replicate (length xs) false) xs ≡ []
unfolding pick
pick-none [] = refl
pick-none (x ∷ xs) = pick-none xs

pub pick-Subsequence : (bs : List Bool) (xs : List Text) → Subsequence (pick bs xs) xs
unfolding pick
pick-Subsequence bs [] = empty bs
  where
    empty : (bs : List Bool) → Subsequence (pick bs []) []
    empty [] = done
    empty (b ∷ bs) = done
pick-Subsequence [] (x ∷ xs) = skip x (pick-Subsequence [] xs)
pick-Subsequence (true ∷ bs) (x ∷ xs) = keep x (pick-Subsequence bs xs)
pick-Subsequence (false ∷ bs) (x ∷ xs) = skip x (pick-Subsequence bs xs)

-- The two lists keep the same tokens, as many as `lcs` says.
pub pick-marks :
    (xs ys : List Text)
    → (pick (marks xs ys).0 xs ≡ pick (marks xs ys).1 ys)
      × (length (pick (marks xs ys).1 ys) ≡ lcs xs ys)
unfolding marks lcs pick
pick-marks [] ys = ground (arith, pick-none ys)
pick-marks (x ∷ xs) [] = ground (arith, pick-none xs)
pick-marks (x ∷ xs) (y ∷ ys) = elim (Bool-cases (text_eq x y)) [
  | inl e ↦ rw e (ground (arith, (text_eq_iff x y).0 e, pick-marks xs ys))
  | inr e ↦ rw e (elim (Bool-cases (leb (lcs (x ∷ xs) ys) (lcs xs (y ∷ ys)))) [
    | inl l ↦ rw l (ground (arith, pick-marks xs (y ∷ ys)))
    | inr l ↦ rw l (ground (arith, pick-marks (x ∷ xs) ys))
  ])
]

Subsequence-nil : {zs : List Text} → Subsequence zs [] → zs ≡ []
Subsequence-nil done = refl

-- A subsequence leaves the first item out, or begins with it.
Subsequence-cons :
    {zs xs : List Text} {x : Text}
    → Subsequence zs (x ∷ xs)
    → Subsequence zs xs ⊎ ((rest : List Text) × (zs ≡ x ∷ rest) × Subsequence rest xs)
Subsequence-cons (skip x s) = inl s
Subsequence-cons (keep {zs} x s) = inr (zs, refl, s)

Subsequence-tail : {z : Text} {zs xs : List Text} → Subsequence (z ∷ zs) xs → Subsequence zs xs
Subsequence-tail (skip x s) = skip x (Subsequence-tail s)
Subsequence-tail (keep x s) = skip x s

Subsequence-tails :
    {z x : Text} {zs xs : List Text} → Subsequence (z ∷ zs) (x ∷ xs) → Subsequence zs xs
Subsequence-tails (skip x s) = Subsequence-tail s
Subsequence-tails (keep x s) = s

-- No subsequence that the lists share is longer.
pub Subsequence-le-lcs :
    (zs xs ys : List Text) → Subsequence zs xs → Subsequence zs ys → length zs ≤ lcs xs ys
unfolding lcs
Subsequence-le-lcs [] xs ys s t = omega arith
Subsequence-le-lcs (z ∷ zs) [] ys s t = absurd (cc (Subsequence-nil s))
Subsequence-le-lcs (z ∷ zs) (x ∷ xs) [] s t = absurd (cc (Subsequence-nil t))
Subsequence-le-lcs (z ∷ zs) (x ∷ xs) (y ∷ ys) s t = elim (Bool-cases (text_eq x y)) [
  | inl e ↦
      rw e (omega (arith, Subsequence-le-lcs zs xs ys (Subsequence-tails s) (Subsequence-tails t)))
  | inr e ↦ rw e (
      differ e (Subsequence-cons s) (Subsequence-cons t)
        (λ s'. Subsequence-le-lcs (z ∷ zs) xs (y ∷ ys) s' t)
        (λ t'. Subsequence-le-lcs (z ∷ zs) (x ∷ xs) ys s t'))
]
  where
    differ :
        text_eq x y ≡ false
        → Subsequence (z ∷ zs) xs ⊎ ((r : List Text) × (z ∷ zs ≡ x ∷ r) × Subsequence r xs)
        → Subsequence (z ∷ zs) ys ⊎ ((r : List Text) × (z ∷ zs ≡ y ∷ r) × Subsequence r ys)
        → (Subsequence (z ∷ zs) xs → suc (length zs) ≤ lcs xs (y ∷ ys))
        → (Subsequence (z ∷ zs) ys → suc (length zs) ≤ lcs (x ∷ xs) ys)
        → suc (length zs) ≤ max (lcs xs (y ∷ ys)) (lcs (x ∷ xs) ys)
    differ ne (inl s') t' f g = omega (arith, f s')
    differ ne (inr s') (inl t') f g = omega (arith, g t')
    differ ne (inr (_, p, _)) (inr (_, q, _)) f g = absurd (ground (arith, text_eq_iff x y))

-- Neither list is shorter than what they share.
pub lcs-le-length : (xs ys : List Text) → (lcs xs ys ≤ length xs) × (lcs xs ys ≤ length ys)
unfolding lcs
lcs-le-length [] ys = omega arith
lcs-le-length (x ∷ xs) [] = omega arith
lcs-le-length (x ∷ xs) (y ∷ ys) =
    ground (arith, lcs-le-length xs ys, lcs-le-length xs (y ∷ ys), lcs-le-length (x ∷ xs) ys)

pub lcs_self : (xs : List Text) → lcs xs xs ≡ length xs
unfolding lcs
lcs_self [] = refl
lcs_self (x ∷ xs) = rw (text_eq_refl x) (omega (arith, lcs_self xs))
