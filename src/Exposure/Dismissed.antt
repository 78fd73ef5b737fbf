-- ===== src/Exposure/Dismissed.antt =====
-- What a dismissal of the banner lasts for (app/webui/app.js).
use vocagateway.Base.{
  ℕ, ◌+◌, ◌≡◌, refl, sym, ap, ◌∙◌, Bool, true, false, List, [], ◌∷◌, Option, none, some, Text, ltb,
  decimal, arith, value_from, value-decimal, Bool-cases, inl, inr,
}
use vocagateway.Exposure.Banner.{
  Banner, Notice, exposure_dismiss_ms, or_zero, until_of, Event, start, dismiss, swap,
  served_banner, cover, exposure_dismissed_until, handle, run,
}

-- The time of the last dismissal among events, if there is one.
abbrev pub last_dismissal : Option ℕ → List Event → Option ℕ
last_dismissal t [] = t
last_dismissal t (start now ∷ es) = last_dismissal t es
last_dismissal t (dismiss now ∷ es) = last_dismissal (some now) es
last_dismissal t (swap now show ∷ es) = last_dismissal t es

-- Whether a dismissal came since the page was loaded or the banner was last swapped in.
abbrev pub is_dismissed : Bool → List Event → Bool
is_dismissed d [] = d
is_dismissed d (start now ∷ es) = is_dismissed false es
is_dismissed d (dismiss now ∷ es) = is_dismissed true es
is_dismissed d (swap now show ∷ es) = is_dismissed false es

-- Until when the last dismissal is remembered.
abbrev pub end_of : Option ℕ → ℕ
end_of none = 0
end_of (some t) = t + exposure_dismiss_ms

abbrev pub stored_of : Option ℕ → Option Text
stored_of none = none
stored_of (some t) = some (decimal (t + exposure_dismiss_ms))

-- A banner with something to say is hidden, for the eye and for assistive technology, or not.
abbrev pub Shows : Bool → Banner → Type 0
Shows d b = b.is_empty ≡ false → (b.hidden ≡ d) × (b.aria_hidden ≡ d)

pub record IsNoticed (t : Option ℕ) (d : Bool) (s : Notice) : Type 0 where
  pub remembered : s.stored ≡ stored_of t
  pub shown : (b : Banner) × (s.banner ≡ some b) × Shows d b

served_banner-Shows : (show : Bool) → Shows false (served_banner show)
served_banner-Shows true h = (refl, refl)
served_banner-Shows false h = absurd (ground arith)

value_from_nil : value_from 0 [] ≡ 0
unfolding value_from
value_from_nil = refl

module _ (number : Text → Option ℕ) (number-decimal : (n : ℕ) → number (decimal n) ≡ some n) where
  until_text : (t : Text) (n : ℕ) → t ≡ decimal n → until_of number (some t) ≡ n
  until_text [] n e = sym value_from_nil ∙ ap (value_from 0) e ∙ value-decimal n
  until_text (c ∷ cs) n e = ap (or_zero number) (ap number e ∙ number-decimal n)

  until_lem :
      (t : Option ℕ) (s : Notice)
      → s.stored ≡ stored_of t
      → exposure_dismissed_until number s ≡ end_of t
  unfolding exposure_dismissed_until
  until_lem none s h = ap (until_of number) h
  until_lem (some t) s h =
      ap (until_of number) h ∙ until_text (decimal (t + exposure_dismiss_ms)) _ refl

  cover-Shows :
      (now : ℕ) (s : Notice) (b : Banner)
      → s.stored ≡ stored_of (some now)
      → Shows true (cover number now s b)
  unfolding cover
  cover-Shows now s b h = elim (Bool-cases b.is_empty) [
    | inl e ↦ λ full. absurd (ground arith)
    | inr e ↦
        let during : ltb now (exposure_dismissed_until number s) ≡ true =
          ap (ltb now) (until_lem (some now) s h) ∙ ground arith in
        λ full. (rw e during, rw e during)
  ]

  handle-IsNoticed_dismiss :
      (t : Option ℕ) (d : Bool) (now : ℕ) (s : Notice)
      → IsNoticed t d s
      → IsNoticed (some now) true (handle number (dismiss now) s)
  unfolding handle
  handle-IsNoticed_dismiss t d now s i =
      let (b, here, _) = i.shown in
      let written : Notice = record s { stored = some (decimal (now + exposure_dismiss_ms)) } in
      record {
        remembered = refl;
        shown = (cover number now written b, rw here refl, cover-Shows now written b refl);
      }

  handle-IsNoticed_swap :
      (t : Option ℕ) (d : Bool) (now : ℕ) (show : Bool) (s : Notice)
      → IsNoticed t d s
      → IsNoticed t false (handle number (swap now show) s)
  unfolding handle
  handle-IsNoticed_swap t d now show s i =
      let (b, here, _) = i.shown in
      rw here (record {
        remembered = i.remembered;
        shown = (served_banner show, refl, served_banner-Shows show);
      })

  run-IsNoticed :
      (es : List Event) (t : Option ℕ) (d : Bool) (s : Notice)
      → IsNoticed t d s
      → IsNoticed (last_dismissal t es) (is_dismissed d es) (run number es s)
  unfolding handle
  run-IsNoticed [] t d s i = i
  run-IsNoticed (start now ∷ es) t d s i =
      run-IsNoticed es t false (handle number (start now) s)
        (record { remembered = i.remembered; shown = (_, refl, served_banner-Shows false) })
  run-IsNoticed (dismiss now ∷ es) t d s i =
      run-IsNoticed es (some now) true (handle number (dismiss now) s)
        (handle-IsNoticed_dismiss t d now s i)
  run-IsNoticed (swap now show ∷ es) t d s i =
      run-IsNoticed es t false (handle number (swap now show) s)
        (handle-IsNoticed_swap t d now show s i)

  -- From the first load of the page in a browser without a dismissal on, after any loads,
  -- dismissals and swaps: the storage says 24 hours from the last dismissal on, and still a banner
  -- with something to say is hidden exactly where it was dismissed since it was swapped in, since
  -- what a swap brings is not compared with the storage. `Number` reads back what `String` wrote.
  pub run-is_dismissed :
      (es : List Event) (now : ℕ) (s : Notice)
      → s.stored ≡ none
      → (exposure_dismissed_until number (run number (start now ∷ es) s)
          ≡ end_of (last_dismissal none es))
        × ((b : Banner) × ((run number (start now ∷ es) s).banner ≡ some b)
            × (b.is_empty ≡ false
                → (b.hidden ≡ is_dismissed false es) × (b.aria_hidden ≡ is_dismissed false es)))
  unfolding handle
  run-is_dismissed es now s fresh =
      let i =
        run-IsNoticed es none false (handle number (start now) s)
          (record { remembered = fresh; shown = (_, refl, served_banner-Shows false) }) in
      (
        until_lem (last_dismissal none es) (run number es (handle number (start now) s))
            i.remembered,
        i.shown,
      )
