-- ===== src/Exposure/Banner.antt =====
-- `exposureDismissedUntil`, `applyExposureBanner`, `dismissExposureBanner` and their handlers, of
-- app/webui/app.js. Times are in milliseconds since the epoch.
use vocagateway.Base.{
  ℕ, ◌+◌, ◌*◌, Bool, true, false, List, [], ◌∷◌, Option, none, some, Text, ltb, if◌then◌else◌,
  decimal,
}

pub record Banner : Type 0 where
  -- `dataset.empty` is "1"
  pub is_empty : Bool
  pub hidden : Bool
  pub aria_hidden : Bool

pub record Notice : Type 0 where
  -- `localStorage` under the key of the dismissal
  pub stored : Option Text
  -- the element of the page, and the one that a swap removed last
  pub banner : Option Banner
  pub removed : Option Banner

-- The element of app/webui/index.html that waits for the first swap.
abbrev pub placeholder : Banner
placeholder = record { is_empty = true; hidden = true; aria_hidden = true }

-- The element of app/templates/exposure/banner.html, with something to say or not.
abbrev pub served_banner : Bool → Banner
served_banner show =
    if show then record { is_empty = false; hidden = false; aria_hidden = false } else placeholder

abbrev pub exposure_dismiss_ms : ℕ
exposure_dismiss_ms = 24 * 60 * 60 * 1000

-- The argument of `applyExposureBanner`: none, or the element that a swap removed.
pub data Root : Type 0 where
  no_root removed_root : Root

pub data Event : Type 0 where
  -- the page is loaded, at a time; the storage stays
  start : ℕ → Event
  -- a click on `data-dismiss-exposure`, at a time
  dismiss : ℕ → Event
  -- htmx swapped the banner, at a time
  swap : ℕ → Bool → Event

-- `number` is `Number` on a text: the finite number, rounded up, with zero for one below it, and
-- `none` for one that is not finite.
module _ (number : Text → Option ℕ) where
  abbrev pub or_zero : Option ℕ → ℕ
  or_zero none = 0
  or_zero (some raw) = raw

  -- `Number(text || 0)`, and 0 where that is not finite
  abbrev pub until_of : Option Text → ℕ
  until_of none = 0
  until_of (some []) = 0
  until_of (some (c ∷ cs)) = or_zero (number (c ∷ cs))

  unfoldable pub exposure_dismissed_until : Notice → ℕ
  exposure_dismissed_until s = until_of s.stored

  -- What an element becomes at a time.
  unfoldable pub cover : ℕ → Notice → Banner → Banner
  unfolding exposure_dismissed_until
  cover now s b = if b.is_empty then b else record b {
    hidden = ltb now (exposure_dismissed_until s);
    aria_hidden = ltb now (exposure_dismissed_until s);
  }

  abbrev pub cover_option : ℕ → Notice → Option Banner → Option Banner
  cover_option now s none = none
  cover_option now s (some b) = some (cover now s b)

  unfoldable pub apply_exposure_banner : Root → ℕ → Notice → Notice
  unfolding cover
  apply_exposure_banner no_root now s = record s { banner = cover_option now s s.banner }
  apply_exposure_banner removed_root now s = record s { removed = cover_option now s s.removed }

  unfoldable pub dismiss_exposure_banner : ℕ → Notice → Notice
  unfolding apply_exposure_banner
  dismiss_exposure_banner now s =
      apply_exposure_banner no_root now
        (record s { stored = some (decimal (now + exposure_dismiss_ms)) })

  -- `hx-swap` is outerHTML: the served element takes the place of the one on the page, and the
  -- `target` that "htmx:afterSwap" names is the latter, which is no longer in the page.
  unfoldable pub handle : Event → Notice → Notice
  unfolding apply_exposure_banner dismiss_exposure_banner
  handle (start now) s =
      apply_exposure_banner no_root now (record s { banner = some placeholder; removed = none })
  handle (dismiss now) s = dismiss_exposure_banner now s
  handle (swap now show) s = elim s.banner [
    | none ↦ s
    | some old ↦
        apply_exposure_banner removed_root now
          (record s { banner = some (served_banner show); removed = some old })
  ]

  abbrev pub run : List Event → Notice → Notice
  run [] s = s
  run (e ∷ es) s = run es (handle e s)
