-- ===== src/Recorder/Clock.antt =====
-- The text of the recorder's clock (`updateRecordingTimer` of app/webui/app.js).
use vocagateway.Base.{
  ℕ, zero, suc, ◌+◌, ◌*◌, ◌/◌, ◌%◌, ◌<◌, ◌≡◌, refl, Bool, true, ◌&&◌, ◌==◌, ==_iff, ◌∷◌, ◌++◌, Text,
  length, ltb, decimal, if◌then◌else◌, value_from, value-decimal, arith,
}

-- `s.padStart(2, "0")`
unfoldable pub pad_start : Text → Text
pad_start s =
    if ltb (length s) 2 then (if ltb (length s) 1 then b'0' ∷ b'0' ∷ s else b'0' ∷ s) else s

-- The text for a time in milliseconds since the start.
unfoldable pub timer_text : ℕ → Text
unfolding pad_start
timer_text elapsed =
    let seconds = elapsed / 1000 in
    decimal (seconds / 60) ++ b':' ∷ pad_start (decimal (seconds % 60))

abbrev is_two_digits : ℕ → Bool
is_two_digits n = let s = pad_start (decimal n) in length s == 2 && value_from 0 s == n

-- The seconds from 0 up to a bound are all shown in two digits.
seconds_fit : ℕ → Bool
seconds_fit zero = true
seconds_fit (suc last) = seconds_fit last && is_two_digits last

seconds_fit_minute : seconds_fit 60 ≡ true
unfolding seconds_fit pad_start decimal value_from
seconds_fit_minute = refl

seconds_fit_lem :
    (second bound : ℕ) → second < bound → seconds_fit bound ≡ true → is_two_digits second ≡ true
unfolding seconds_fit
seconds_fit_lem second zero below fit = absurd (omega arith)
seconds_fit_lem second (suc last) below fit =
    let earlier = seconds_fit_lem second last in ground (arith, earlier)

pad_start-two :
    (n : ℕ)
    → n < 60
    → (length (pad_start (decimal n)) ≡ 2) × (value_from 0 (pad_start (decimal n)) ≡ n)
pad_start-two n h =
    let e = seconds_fit_lem n 60 h seconds_fit_minute in
    (
      (==_iff (length (pad_start (decimal n))) 2).0 (ground arith),
      (==_iff (value_from 0 (pad_start (decimal n))) n).0 (ground arith),
    )

-- The clock shows the whole minutes and, in two digits, the seconds left of them, which together
-- are the whole seconds that have passed.
pub timer_text_lem :
    (elapsed : ℕ)
    → (minutes : Text) × (seconds : Text) × (timer_text elapsed ≡ minutes ++ b':' ∷ seconds)
      × (value_from 0 minutes * 60 + value_from 0 seconds ≡ elapsed / 1000)
      × (value_from 0 seconds < 60)
      × (length seconds ≡ 2)
unfolding timer_text
timer_text_lem elapsed =
    let minutes = value-decimal (elapsed / 1000 / 60) in
    let (two, seconds) = pad_start-two (elapsed / 1000 % 60) (omega arith) in
    (
      decimal (elapsed / 1000 / 60),
      pad_start (decimal (elapsed / 1000 % 60)),
      refl,
      omega arith,
      omega arith,
      two,
    )
