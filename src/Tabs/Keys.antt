-- ===== src/Tabs/Keys.antt =====
-- Where the arrow keys lead among the tabs (app/webui/app.js).
use native.Mathlib.Nat.{mod-lt}
use native.Mathlib.Decide.{dec_lt}
use vocagateway.Base.{ℕ, ◌+◌, ◌-◌, ◌%◌, ◌≤◌, ◌<◌, ◌≡◌, refl, ap, ◌∙◌, some, arith, ◌>>=◌}
use vocagateway.Tabs.Bar.{Key, left, right, up, down, home, end, other, key_target}

mod_once : (a n : ℕ) → n ≤ a → a < n + n → a % n ≡ a - n
mod_once a n h l = grind arith

right_inside : (i n : ℕ) → i + 1 < n → (i + 1 + n) % n ≡ i + 1
right_inside i n h = mod_once (i + 1 + n) n (omega arith) (omega arith) ∙ omega arith

right_last : (i n : ℕ) → 0 < n → i + 1 ≡ n → (i + 1 + n) % n ≡ 0
right_last i n h e = grind arith

left_inside : (i n : ℕ) → 0 < i → i < n → (i + n - 1) % n ≡ i - 1
left_inside i n h l = mod_once (i + n - 1) n (omega arith) (omega arith) ∙ omega arith

left_first : (n : ℕ) → 0 < n → (0 + n - 1) % n ≡ n - 1
left_first n h = grind arith

step_right : ℕ → ℕ → ℕ
step_right i n = (i + 1 + n) % n

step_left : ℕ → ℕ → ℕ
step_left i n = (i + n - 1) % n

left-right : (i n : ℕ) → i < n → step_left (step_right i n) n ≡ i
unfolding step_left step_right
left-right i n h = elim (dec_lt (i + 1) n) [
  | yes l ↦ rw (right_inside i n l) (left_inside (i + 1) n (omega arith) l ∙ omega arith)
  | no l ↦
      rw (right_last i n (omega arith) (omega arith)) (left_first n (omega arith) ∙ omega arith)
]

right-left : (i n : ℕ) → i < n → step_right (step_left i n) n ≡ i
unfolding step_left step_right
right-left i n h = elim (dec_lt 0 i) [
  | yes l ↦ rw (left_inside i n l h) (right_inside (i - 1) n (omega arith) ∙ omega arith)
  | no l ↦
      let first : i ≡ 0 = omega arith in
      rw (first, left_first n (omega arith)) (right_last (n - 1) n (omega arith) (omega arith))
]

-- From any tab, a key that leads somewhere leads to a tab; the arrows in opposite directions undo
-- each other, across the ends too; Home leads to the first tab and End to the last.
pub key_target_lem :
    (key : Key) (i n : ℕ)
    → i < n
    → ((j : ℕ) → key_target key i n ≡ some j → j < n)
      × ((key_target right i n >>= λ j. key_target left j n) ≡ some i)
      × ((key_target left i n >>= λ j. key_target right j n) ≡ some i)
      × ((key_target down i n >>= λ j. key_target up j n) ≡ some i)
      × ((key_target up i n >>= λ j. key_target down j n) ≡ some i)
      × (key_target home i n ≡ some 0)
      × ((j : ℕ) → key_target end i n ≡ some j → j + 1 ≡ n)
unfolding key_target step_left step_right
key_target_lem key i n h = (
  in_range key,
  ap some (left-right i n h),
  ap some (right-left i n h),
  ap some (left-right i n h),
  ap some (right-left i n h),
  refl,
  λ j e. ground arith,
)
  where
    in_range : (key : Key) (j : ℕ) → key_target key i n ≡ some j → j < n
    in_range home j e = ground arith
    in_range end j e = ground arith
    in_range right j e = ground (arith, mod-lt (i + 1 + n) {m = n})
    in_range down j e = ground (arith, mod-lt (i + 1 + n) {m = n})
    in_range left j e = ground (arith, mod-lt (i + n - 1) {m = n})
    in_range up j e = ground (arith, mod-lt (i + n - 1) {m = n})
    in_range other j e = absurd (cc)
