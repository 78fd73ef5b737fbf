-- ===== src/Exposure/Examples.antt =====
-- A morning with the banner of app/webui/app.js.
use vocagateway.Base.{
  ℕ, ◌≡◌, false, refl, ap, true, false, List, [], ◌∷◌, Option, none, some, Text, value_from,
  value-decimal, decimal,
}
use vocagateway.Exposure.Banner.{
  Banner, Notice, Event, start, dismiss, swap, exposure_dismissed_until, handle, run,
}
use vocagateway.Exposure.Dismissed.{run-is_dismissed}

-- A `Number` for texts of digits.
abbrev digits : Text → Option ℕ
digits t = some (value_from 0 t)

digits-decimal : (n : ℕ) → digits (decimal n) ≡ some n
digits-decimal n = ap (λ (k : ℕ). some k) (value-decimal n)

abbrev notice : Notice
notice = record { stored = none; banner = none; removed = none }

-- The banner is dismissed, and an hour later the page is loaded again.
abbrev morning : List Event
morning = swap 1_000 true ∷ dismiss 2_000 ∷ start 3_602_000 ∷ swap 3_602_100 true ∷ []

shown_again :
    (run digits (start 500 ∷ morning) notice).banner
    ≡ some (record { is_empty = false; hidden = false; aria_hidden = false })
unfolding handle
shown_again = refl

run-is_dismissed_example :
    (exposure_dismissed_until digits (run digits (start 500 ∷ morning) notice) ≡ 86_402_000)
    × ((b : Banner) × ((run digits (start 500 ∷ morning) notice).banner ≡ some b)
        × (b.is_empty ≡ false → (b.hidden ≡ false) × (b.aria_hidden ≡ false)))
run-is_dismissed_example = run-is_dismissed digits digits-decimal morning 500 notice refl
