-- ===== src/Poll/Answers.antt =====
-- What an answer about the models leads to (app/webui/app.js).
use vocagateway.Base.{
  ℕ, ◌≤◌, ◌≢◌, ◌≡◌, refl, sym, subst, inl, inr, true, false, List, [], ◌∷◌, none, some, ◌==◌,
  text_eq, codes, arith, Bool-cases, Option-cases,
}
use vocagateway.Session.State.{Session}
use vocagateway.Filters.Form.{current_model_filters}
use vocagateway.Poll.Progress.{
  ℤ, pos, negsuc, LeInt, Ratios, IsOrdered, Entry, Card, or_nought, ratio_of, find_entry,
  show_progress, update_element, update_cards,
}
use vocagateway.Poll.Cards.{
  update_cards_nil, update_cards-none, update_cards_going, update_cards_stale,
}
use vocagateway.Poll.Found.{AllGoing}
use vocagateway.Timers.{Timer}
use vocagateway.Poll.Timer.{Answer, threw, refused, entries, Poller}

-- One timer is set, with this delay, and nothing else is asked for or forgotten.
abbrev pub IsScheduled : ℕ → Poller → Poller → Type 0
IsScheduled delay s u =
    (t : Timer) × (u.timers ≡ t ∷ [])
    × (t.delay ≡ delay)
    × (u.refreshes ≡ s.refreshes)
    × (u.session ≡ s.session)

module _ {F : Type 0} (n : Ratios F) where
  -- An integer from 0 to 100.
  abbrev pub IsPercent : ℤ → Type 0
  IsPercent k = (m : ℕ) × (k ≡ pos m) × (m ≤ 100)

  abbrev pub AreBounded : List Card → Type 0
  AreBounded [] = Unit
  AreBounded (c ∷ cs) = ((k : ℤ) → c.value_now ≡ some k → IsPercent k) × AreBounded cs

  abbrev pub IsRefreshed : Poller → Poller → Type 0
  IsRefreshed s u =
      (u.refreshes ≡ current_model_filters s.form ∷ s.refreshes)
      × (u.timers ≡ s.timers)
      × (u.session ≡ s.session)

  -- What an answer leads to while downloads are shown.
  abbrev pub GoesOn : List Card → Answer F → Poller → Poller → Type 0
  GoesOn sent threw s u = IsScheduled 2500 s u
  GoesOn sent (refused status) s u =
      (status ≡ 401
        → (u.session.token ≡ none)
          × (u.session.overlay_hidden ≡ false)
          × (u.timers ≡ s.timers)
          × (u.refreshes ≡ s.refreshes))
      × (status ≢ 401 → IsScheduled 2500 s u)
  GoesOn sent (entries es) s u =
      (AllGoing es sent → IsScheduled 400 s u)
      × (¬ AllGoing es sent → s.has_list ≡ true → IsRefreshed s u)
      × (s.has_list ≡ false → IsScheduled 400 s u)

  module _ (sent : List Card) (es : List (Entry F)) (s : Poller) where
    abbrev updated : Poller
    updated = record s { cards = (update_cards n es sent s.cards).0 }

  module _ (o : IsOrdered n) where
    open o use {
      Le, nought_one, smaller_left, larger_left, larger_least, percent_mono, percent_nought,
      percent_one,
    }

    between : (k : ℤ) → LeInt (pos 0) k → LeInt k (pos 100) → IsPercent k
    between (pos m) low high = (m, refl, high)
    between (negsuc m) low high = absurd low

    ratio_percent : (e : Entry F) → IsPercent (n.percent (ratio_of n e))
    ratio_percent e =
        let part : F = n.smaller n.one (or_nought n e.progress) in
        between (n.percent (ratio_of n e))
          (subst (λ k. LeInt k (n.percent (ratio_of n e))) percent_nought
            (percent_mono n.nought _ (larger_left n.nought part)))
          (subst (λ k. LeInt (n.percent (ratio_of n e)) k) percent_one
            (percent_mono _ n.one (
              larger_least n.nought _ n.one nought_one
                (smaller_left n.one (or_nought n e.progress)))))

    show_progress_bound :
        (e : Entry F) (c : Card) → (k : ℤ) → (show_progress n e c).value_now ≡ some k → IsPercent k
    unfolding show_progress
    show_progress_bound e c k q = elim (Option-cases c.value_now) [
      | inl m ↦ absurd (ground arith)
      | inr (v, m) ↦
          let same : n.percent (ratio_of n e) ≡ k = ground arith in
          subst IsPercent same (ratio_percent e)
    ]

    update_element-AreBounded :
        (element : ℕ) (e : Entry F) (cs : List Card)
        → AreBounded cs
        → AreBounded (update_element n element e cs)
    unfolding update_element
    update_element-AreBounded element e [] h = tt
    update_element-AreBounded element e (c ∷ cs) h = elim (Bool-cases (c.element == element)) [
      | inl m ↦ (rw m (show_progress_bound e c), update_element-AreBounded element e cs h.1)
      | inr m ↦ (rw m h.0, update_element-AreBounded element e cs h.1)
    ]

    -- Where the cards tell integers from 0 to 100 to begin with, they do so whatever the gateway
    -- answers.
    pub update_cards-AreBounded :
        (es : List (Entry F)) (sent page : List Card)
        → AreBounded page
        → AreBounded (update_cards n es sent page).0
    update_cards-AreBounded es [] page h = subst AreBounded (sym (update_cards_nil n es page)) h
    update_cards-AreBounded es (c ∷ cs) page h = elim (Option-cases (find_entry c.model_id es)) [
      | inl m ↦
          subst AreBounded (sym (update_cards-none n es c cs page m))
            (update_cards-AreBounded es cs page h)
      | inr (e, m) ↦ elim (Bool-cases (text_eq e.state (codes "downloading"))) [
        | inl d ↦ subst AreBounded (sym (update_cards_going n es c cs page e m d)) (
            update_cards-AreBounded es cs (update_element n c.element e page)
              (update_element-AreBounded c.element e page h))
        | inr d ↦
            subst AreBounded (sym (update_cards_stale n es c cs page e m d))
              (update_cards-AreBounded es cs page h)
      ]
    ]
