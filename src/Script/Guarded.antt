-- ===== src/Script/Guarded.antt =====
-- Nothing that touches the session leaves the page unguarded (app/webui/app.js).
use vocagateway.Base.{
  ℕ, ◌≡◌, refl, sym, Bool, true, false, ◌&&◌, List, none, some, Text, get_elem?, ◌==◌, arith,
  Bool-cases, Option-cases, inl, inr, subst,
}
use vocagateway.Timers.{has_timer}
use vocagateway.Session.State.{Session, show_toast, session_expired}
use vocagateway.Session.State
use vocagateway.Session.Guard.{IsGuarded, handle-IsGuarded, same-IsGuarded}
use vocagateway.Poll.Progress.{Ratios, Card, update_cards}
use vocagateway.Poll.Timer.{
  Answer, Poller, is_idle, schedule_model_poll, send_poll, receive_poll, remove_at,
}
use vocagateway.Poll.Timer
use vocagateway.Copy.Messages.{Diagnostics, download_diagnostics, copy_new_token, copy_transcript}
use vocagateway.Copy.Messages

show_toast-IsGuarded :
    (message : Text) (is_error : Bool) (s : Session)
    → IsGuarded s
    → IsGuarded (show_toast message is_error s)
unfolding show_toast
show_toast-IsGuarded message is_error s h = same-IsGuarded h refl refl refl refl refl refl

expired-IsGuarded : (s : Session) → IsGuarded s → IsGuarded (session_expired s)
expired-IsGuarded s h = unfold State.handle in handle-IsGuarded State.Event.expired s h

schedule_session : (delay : ℕ) (s : Poller) → (schedule_model_poll delay s).session ≡ s.session
unfolding schedule_model_poll
schedule_session delay s = ground arith

send_poll_session : (s : Poller) → (send_poll s).session ≡ s.session
unfolding send_poll
send_poll_session s = ground arith

module _ {F : Type 0} (n : Ratios F) where
  receive_poll-IsGuarded :
      (sent : List Card) (a : Answer F) (s : Poller)
      → IsGuarded s.session
      → IsGuarded (receive_poll n sent a s).session
  unfolding receive_poll
  receive_poll-IsGuarded sent Answer.threw s h = subst IsGuarded (sym (schedule_session 2500 s)) h
  receive_poll-IsGuarded sent (Answer.refused status) s h = elim (Bool-cases (status == 401)) [
    | inl e ↦ rw e (expired-IsGuarded s.session h)
    | inr e ↦ rw e (subst IsGuarded (sym (schedule_session 2500 s)) h)
  ]
  receive_poll-IsGuarded sent (Answer.entries es) s h =
      let updated : Poller = record s { cards = (update_cards n es sent s.cards).0 } in
      elim (Bool-cases ((update_cards n es sent s.cards).1 && s.has_list)) [
        | inl e ↦ rw e h
        | inr e ↦ rw e (subst IsGuarded (sym (schedule_session 400 updated)) h)
      ]

  receive_none :
      (k : ℕ) (a : Answer F) (s : Poller)
      → get_elem? s.in_flight k ≡ none
      → Timer.handle n (Timer.Event.receive k a) s ≡ s
  unfolding Timer.handle
  receive_none k a s e = rw (e, Timer.handle) refl

  receive_some :
      (k : ℕ) (a : Answer F) (s : Poller) (sent : List Card)
      → get_elem? s.in_flight k ≡ some sent
      → Timer.handle n (Timer.Event.receive k a) s
        ≡ receive_poll n sent a (record s { in_flight = remove_at k s.in_flight })
  unfolding Timer.handle
  receive_some k a s sent e = rw (e, Timer.handle) refl

  pub poll-IsGuarded :
      (e : Timer.Event F) (s : Poller)
      → IsGuarded s.session
      → IsGuarded (Timer.handle n e s).session
  unfolding Timer.handle
  poll-IsGuarded (Timer.Event.visibility_change v) s h =
      subst IsGuarded (sym (schedule_session 400 (record s { visible = v }))) h
  poll-IsGuarded (Timer.Event.after_swap cards has_list) s h =
      subst IsGuarded (sym (schedule_session 400 (record s { cards = cards; has_list = has_list })))
        h
  poll-IsGuarded (Timer.Event.fire t) s h = elim (Bool-cases (has_timer t s.timers)) [
    | inl e ↦ rw e (subst IsGuarded (sym (send_poll_session _)) h)
    | inr e ↦ rw e h
  ]
  poll-IsGuarded (Timer.Event.receive k a) s h = elim (Option-cases (get_elem? s.in_flight k)) [
    | inl e ↦ subst (λ (u : Poller). IsGuarded u.session) (sym (receive_none k a s e)) h
    | inr (sent, e) ↦
        subst (λ (u : Poller). IsGuarded u.session) (sym (receive_some k a s sent e))
          (receive_poll-IsGuarded sent a (record s { in_flight = remove_at k s.in_flight }) h)
  ]

pub diagnostics-IsGuarded :
    (a : Diagnostics) (d : Messages.Download)
    → IsGuarded d.session
    → IsGuarded (download_diagnostics a d).session
unfolding download_diagnostics Messages.fail_download
diagnostics-IsGuarded (Diagnostics.threw m) d h = show_toast-IsGuarded _ true d.session h
diagnostics-IsGuarded Diagnostics.unauthorized d h = expired-IsGuarded d.session h
diagnostics-IsGuarded (Diagnostics.refused m) d h = show_toast-IsGuarded _ true d.session h
diagnostics-IsGuarded (Diagnostics.report at) d h = show_toast-IsGuarded _ false d.session h

pub copy_token-IsGuarded : (b : Bool) (s : Session) → IsGuarded s → IsGuarded (copy_new_token b s)
unfolding copy_new_token
copy_token-IsGuarded true s h = show_toast-IsGuarded _ false s h
copy_token-IsGuarded false s h = show_toast-IsGuarded _ true s h

pub copy_text-IsGuarded : (b : Bool) (s : Session) → IsGuarded s → IsGuarded (copy_transcript b s)
unfolding copy_transcript
copy_text-IsGuarded true s h = show_toast-IsGuarded _ false s h
copy_text-IsGuarded false s h = show_toast-IsGuarded _ true s h
