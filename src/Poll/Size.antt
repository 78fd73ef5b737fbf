-- ===== src/Poll/Size.antt =====
-- `formatBytes` of app/webui/app.js.
use vocagateway.Base.{
  ℕ, ◌+◌, ◌*◌, ◌/◌, ◌%◌, ◌≤◌, ◌<◌, ◌≡◌, refl, ap, ◌∙◌, inl, inr, ◌∷◌, ◌++◌, Text, leb,
  if◌then◌else◌, codes, decimal, arith, Bool-cases,
}

-- `Math.round(size / unit)`: a size below 1e9 and a unit of 1e3 or 1e6 make no rounding error that
-- could reach the next half.
abbrev pub round_div : ℕ → ℕ → ℕ
round_div size unit = (size + unit / 2) / unit

-- `tenths` is `(size / 1e9).toFixed(1)`, in tenths: it rounds the quotient's floating-point value.
module _ (tenths : ℕ → ℕ) where
  unfoldable pub format_bytes : ℕ → Text
  format_bytes size =
      if leb 1_000_000_000 size
      then decimal (tenths size / 10) ++ b'.' ∷ decimal (tenths size % 10) ++ codes " GB"
      else if leb 1_000_000 size
      then decimal (round_div size 1_000_000) ++ codes " MB"
      else if leb 1_000 size
      then decimal (round_div size 1_000) ++ codes " KB"
      else decimal size ++ codes " B"

  -- A size below a gigabyte is shown as a whole number, of at most 1000, in bytes, KB or MB, and is
  -- off by at most half the unit.
  pub format_bytes_lem :
      (size : ℕ)
      → size < 1_000_000_000
      → (number : ℕ) × (unit : ℕ) × (name : Text) × (format_bytes size ≡ decimal number ++ name)
        × (number ≤ 1000)
        × (number * unit ≤ size + unit / 2)
        × (size ≤ number * unit + unit / 2)
  unfolding format_bytes
  format_bytes_lem size h = elim (Bool-cases (leb 1_000_000 size)) [
    | inl e ↦ (
      round_div size 1_000_000,
      1_000_000,
      codes " MB",
      ground arith,
      omega arith,
      omega arith,
      omega arith,
    )
    | inr e ↦ elim (Bool-cases (leb 1_000 size)) [
      | inl f ↦ (
        round_div size 1_000,
        1_000,
        codes " KB",
        ground arith,
        ground arith,
        omega arith,
        omega arith,
      )
      | inr f ↦ (size, 1, codes " B", ground arith, ground arith, omega arith, omega arith)
    ]
  ]

  shown_as_kilobytes :
      (size : ℕ)
      → 1_000 ≤ size
      → size < 1_000_000
      → format_bytes size ≡ decimal (round_div size 1_000) ++ codes " KB"
  unfolding format_bytes
  shown_as_kilobytes size h k = ground arith

  thousand : decimal 1000 ++ codes " KB" ≡ codes "1000 KB"
  unfolding decimal
  thousand = refl

  -- Just below a megabyte and a gigabyte the number reaches 1000.
  pub format_bytes_carry :
      (size : ℕ) → 999_500 ≤ size → size < 1_000_000 → format_bytes size ≡ codes "1000 KB"
  unfolding format_bytes
  format_bytes_carry size h k =
      let number : round_div size 1_000 ≡ 1000 = omega arith in
      shown_as_kilobytes size (omega arith) (omega arith)
      ∙ ap (λ n. decimal n ++ codes " KB") number
      ∙ thousand
