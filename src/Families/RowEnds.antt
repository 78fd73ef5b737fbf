-- ===== src/Families/RowEnds.antt =====
-- The last place of a row (`rowEnd` of app/webui/app.js), told by the place alone.
use vocagateway.Base.{
  ℕ, suc, ◌+◌, ◌*◌, ◌/◌, ◌%◌, ◌≤◌, ◌<◌, ◌≡◌, refl, sym, ap, ◌∙◌, Bool, true, false, ◌==◌, ==_iff,
  arith, Bool-cases, inl, inr, ◌&&◌, ◌⊎◌,
}
use vocagateway.Families.Grid.{row_end}
use vocagateway.Families.Rows.{row_end_lem}
use vocagateway.Families.Picture.{is_row_end}

div_unique : (c q i : ℕ) → q * c ≤ i → i < q * c + c → i / c ≡ q
div_unique c q i h k = grind arith

div_bounds : (c i : ℕ) → 0 < c → (i / c * c ≤ i) × (i < i / c * c + c)
div_bounds c i h = (grind arith, grind arith)

mod_end : (c i : ℕ) → 0 < c → suc i % c ≡ 0 → suc i ≡ i / c * c + c
mod_end c i h e = grind arith

end_mod : (c i : ℕ) → 0 < c → suc i ≡ i / c * c + c → suc i % c ≡ 0
end_mod c i h e = grind arith

pub true_iff : (a b : Bool) → (a ≡ true → b ≡ true) → (b ≡ true → a ≡ true) → a ≡ b
true_iff true b f g = sym (f refl)
true_iff false true f g = g refl
true_iff false false f g = refl

row_end_same :
    (cols i j n : ℕ)
    → 0 < cols
    → j < n
    → row_end cols j n ≡ i
    → (j / cols ≡ i / cols) × ((suc i ≡ n) ⊎ (suc i % cols ≡ 0))
row_end_same cols i j n c low e =
    let (after, inside, below, last) = row_end_lem cols j n c low in
    let (start, stop) = div_bounds cols j c in
    let same : i / cols ≡ j / cols = div_unique cols (j / cols) i (omega arith) (omega arith) in
    (
      sym same,
      elim last [
        | inl whole ↦ inl (omega arith)
        | inr full ↦
            let at : suc i ≡ j / cols * cols + cols = omega arith in
            inr (end_mod cols i c (at ∙ ap (λ q. q * cols + cols) (sym same)))
      ],
    )

row_end_told :
    (cols i j n : ℕ)
    → 0 < cols
    → i < n
    → j / cols ≡ i / cols
    → (suc i ≡ n) ⊎ (suc i % cols ≡ 0)
    → row_end cols j n ≡ i
unfolding row_end
row_end_told cols i j n c low same told =
    let (start, stop) = div_bounds cols i c in
    let row : j / cols * cols ≡ i / cols * cols = ap (λ (q : ℕ). q * cols) same in
    elim told [ inl whole ↦ omega arith | inr full ↦ let at = mod_end cols i c full in omega arith ]

row_test :
    (cols i j n : ℕ)
    → (is_row_end cols n i && j / cols == i / cols) ≡ true
    → (j / cols ≡ i / cols) × ((suc i ≡ n) ⊎ (suc i % cols ≡ 0))
row_test cols i j n h = (
  (==_iff (j / cols) (i / cols)).0 (ground arith),
  elim (Bool-cases (suc i == n)) [
    | inl e ↦ inl ((==_iff (suc i) n).0 e)
    | inr e ↦ inr ((==_iff (suc i % cols) 0).0 (ground arith))
  ],
)

row_test_true :
    (cols i j n : ℕ)
    → j / cols ≡ i / cols
    → (suc i ≡ n) ⊎ (suc i % cols ≡ 0)
    → (is_row_end cols n i && j / cols == i / cols) ≡ true
row_test_true cols i j n same told =
    let row = (==_iff (j / cols) (i / cols)).1 same in
    elim told [
      | inl e ↦ let whole = (==_iff (suc i) n).1 e in ground (arith, row)
      | inr e ↦ let full = (==_iff (suc i % cols) 0).1 e in ground (arith, row)
    ]

-- The end of a row is told by the place alone.
pub row_end-is_row_end :
    (cols i j n : ℕ)
    → 0 < cols
    → i < n
    → j < n
    → (row_end cols j n == i) ≡ (is_row_end cols n i && j / cols == i / cols)
row_end-is_row_end cols i j n c low lower =
    true_iff (row_end cols j n == i) (is_row_end cols n i && j / cols == i / cols)
      (λ h.
        let (same, told) = row_end_same cols i j n c lower ((==_iff (row_end cols j n) i).0 h) in
        row_test_true cols i j n same told)
      (λ h.
        let (same, told) = row_test cols i j n h in
        (==_iff (row_end cols j n) i).1 (row_end_told cols i j n c low same told))
