-- ===== src/Poll/Single.antt =====
-- How the polling goes on, and what it shows (app/webui/app.js).
use vocagateway.Base.{
  ℕ, ◌≡◌, inl, inr, ◌&&◌, List, [], ◌∷◌, ◌==◌, get_elem?, if◌then◌else◌, arith, Bool-cases,
  Option-cases,
}
use vocagateway.Poll.Progress.{Ratios, Card, update_cards}
use vocagateway.Timers.{
  has_timer, fired, length-fired, clear_timeout-fired, clear_timeout_self, IsOnly,
}
use vocagateway.Poll.Timer.{
  Answer, threw, refused, entries, Poller, is_idle, schedule_model_poll, send_poll, remove_at,
  receive_poll, Event, visibility_change, after_swap, fire, receive, handle, run,
}

-- At most one timer is set, and clearing the one in the variable leaves none.
abbrev pub IsSingle : Poller → Type 0
IsSingle s = IsOnly s.model_poll_timer s.timers

-- The timer that it sets is the only one, and it sets none on a page without downloads.
pub schedule_model_poll_lem :
    (delay : ℕ) (s : Poller)
    → IsSingle s
    → (schedule_model_poll delay s).timers
      ≡ (if is_idle s then [] else record { id = s.next_timer; delay = delay } ∷ [])
unfolding schedule_model_poll
schedule_model_poll_lem delay s i = ground (arith, i.known)

schedule_model_poll-IsSingle :
    (delay : ℕ) (s : Poller) → IsSingle s → IsSingle (schedule_model_poll delay s)
unfolding schedule_model_poll
schedule_model_poll-IsSingle delay s i =
    ground (arith, i.known, clear_timeout_self s.next_timer delay)

fire-IsSingle :
    (t : ℕ) (s : Poller) → IsSingle s → IsSingle (record s { timers = fired t s.timers })
fire-IsSingle t s i = record {
  at_most_one = omega (arith, length-fired t s.timers, i.at_most_one);
  known = clear_timeout-fired s.model_poll_timer t s.timers i.known;
}

send_poll-IsSingle : (s : Poller) → IsSingle s → IsSingle (send_poll s)
unfolding send_poll
send_poll-IsSingle s i = ground (arith, i.at_most_one, i.known)

module _ {F : Type 0} (n : Ratios F) where
  receive_poll-IsSingle :
      (sent : List Card) (a : Answer F) (s : Poller)
      → IsSingle s
      → IsSingle (receive_poll n sent a s)
  unfolding receive_poll
  receive_poll-IsSingle sent threw s i = schedule_model_poll-IsSingle 2500 s i
  receive_poll-IsSingle sent (refused status) s i = elim (Bool-cases (status == 401)) [
    | inl e ↦ ground (arith, i.at_most_one, i.known)
    | inr e ↦ ground (arith, schedule_model_poll-IsSingle 2500 s i)
  ]
  receive_poll-IsSingle sent (entries es) s i =
      let updated : Poller = record s { cards = (update_cards n es sent s.cards).0 } in
      let kept : IsSingle updated = record { at_most_one = i.at_most_one; known = i.known } in
      elim (Bool-cases ((update_cards n es sent s.cards).1 && s.has_list)) [
        | inl e ↦ rw e (record { at_most_one = i.at_most_one; known = i.known })
        | inr e ↦ rw e (schedule_model_poll-IsSingle 400 updated kept)
      ]

  pub handle-IsSingle : (e : Event F) (s : Poller) → IsSingle s → IsSingle (handle n e s)
  unfolding handle
  handle-IsSingle (visibility_change v) s i =
      schedule_model_poll-IsSingle 400 (record s { visible = v })
        (record { at_most_one = i.at_most_one; known = i.known })
  handle-IsSingle (after_swap cards has_list) s i =
      schedule_model_poll-IsSingle 400 (record s { cards = cards; has_list = has_list })
        (record { at_most_one = i.at_most_one; known = i.known })
  handle-IsSingle (fire t) s i = elim (Bool-cases (has_timer t s.timers)) [
    | inl e ↦ rw e (send_poll-IsSingle _ (fire-IsSingle t s i))
    | inr e ↦ rw e i
  ]
  handle-IsSingle (receive k answer) s i = elim (Option-cases (get_elem? s.in_flight k)) [
    | inl e ↦ ground (arith, i.at_most_one, i.known)
    | inr (sent, e) ↦
        let taken : Poller = record s { in_flight = remove_at k s.in_flight } in
        let kept : IsSingle taken = record { at_most_one = i.at_most_one; known = i.known } in
        ground (arith, receive_poll-IsSingle sent answer taken kept)
  ]

  -- However swaps, changes of visibility, timers and answers follow one another, requests under
  -- way included, at most one timer of the polling is set at a time, and the variable holds it.
  pub run-IsSingle : (es : List (Event F)) (s : Poller) → IsSingle s → IsSingle (run n es s)
  run-IsSingle [] s i = i
  run-IsSingle (e ∷ es) s i = run-IsSingle es (handle n e s) (handle-IsSingle e s i)
