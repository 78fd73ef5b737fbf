-- ===== src/Recorder/Orphan.antt =====
-- A recording that the variable `recorder` no longer holds: what each event leaves of it
-- (app/webui/app.js).
use vocagateway.Base.{
  ℕ, ◌-◌, ◌*◌, ◌<◌, ◌≡◌, refl, sym, subst, Bool, true, false, List, [], ◌∷◌, ◌++◌, Option, none,
  some, Text, ◌==◌, leb, ==_iff, any, filter, arith, Bool-cases, Option-cases, ℕ-cases, inl, inr,
}
use vocagateway.Recorder.Clock.{timer_text}
use vocagateway.Recorder.Machine.{
  maximum_or_default, Machine, has, without, Event, click, synced, denied, granted, data_available,
  stopped, ended, tick, finished, stop_recorder, pick_mime_type, on_stop, finish, ask_microphone,
  start_recording, on_interval, handle, run,
}

has-append_left : (r : ℕ) (xs ys : List ℕ) → has r xs ≡ true → has r (xs ++ ys) ≡ true
unfolding any
has-append_left r [] ys h = absurd (cc)
has-append_left r (x ∷ xs) ys h = ground (arith, has-append_left r xs ys)

has-append_none :
    (r : ℕ) (xs ys : List ℕ) → has r xs ≡ false → has r ys ≡ false → has r (xs ++ ys) ≡ false
unfolding any
has-append_none r [] ys h k = k
has-append_none r (x ∷ xs) ys h k = ground (arith, has-append_none r xs ys)

has_last : (r : ℕ) (xs : List ℕ) → has r (xs ++ r ∷ []) ≡ true
unfolding any
has_last r [] = ground (arith, ==_iff r r)
has_last r (x ∷ xs) = ground (arith, has_last r xs)

has-without : (r q : ℕ) (xs : List ℕ) → q == r ≡ false → has r (without q xs) ≡ has r xs
unfolding any filter
has-without r q [] h = refl
has-without r q (x ∷ xs) h =
    ground (arith, has-without r q xs h, ==_iff x q, ==_iff x r, ==_iff q r)

has_other : (r q : ℕ) → q == r ≡ false → has r (q ∷ []) ≡ false
unfolding any
has_other r q h = ground arith

-- It records, with its microphone on, and no click and no interval stops it, since these stop the
-- recorder in the variable.
pub record IsOrphan (r : ℕ) (s : Machine) : Type 0 where
  pub replaced : (q : ℕ) × (s.recorder ≡ some q) × ((q == r) ≡ false)
  pub earlier : r < s.made
  pub recording_on : has r s.recording ≡ true
  pub stopping_not : has r s.stopping ≡ false
  pub microphone_on : has r s.microphones ≡ true

-- The browser stops that recorder, for instance as the device is unplugged.
abbrev pub ends : ℕ → Event → Bool
ends r (ended q) = q == r
ends r _ = false

stop_recorder-IsOrphan :
    (r q : ℕ) (s : Machine) → q == r ≡ false → IsOrphan r s → IsOrphan r (stop_recorder (some q) s)
unfolding stop_recorder
stop_recorder-IsOrphan r q s d o = elim (Bool-cases (has q s.recording)) [
  | inl e ↦
      ground (
        arith,
        has-without r q s.recording d,
        has-append_none r s.stopping (q ∷ []),
        has_other r q d,
      )
  | inr e ↦ ground arith
]

on_stop-IsOrphan :
    (r q : ℕ) (s : Machine) → q == r ≡ false → IsOrphan r s → IsOrphan r (on_stop q s)
unfolding on_stop
on_stop-IsOrphan r q s d o = ground (arith, has-without r q s.microphones d)

module _ (is_type_supported : Text → Bool) (maximum : Option ℕ) where
  start_recording-IsOrphan :
      (r now : ℕ) (s : Machine)
      → IsOrphan r s
      → IsOrphan r (start_recording is_type_supported maximum now s)
  unfolding start_recording
  start_recording-IsOrphan r now s o = record {
    replaced = (s.made, refl, ground (arith, o.earlier));
    earlier = ground (arith, o.earlier);
    recording_on = has-append_left r s.recording _ o.recording_on;
    stopping_not = o.stopping_not;
    microphone_on = has-append_left r s.microphones _ o.microphone_on;
  }

  ask_microphone-IsOrphan :
      (r : ℕ) (s : Machine) → IsOrphan r s → IsOrphan r (ask_microphone is_type_supported maximum s)
  unfolding ask_microphone
  ask_microphone-IsOrphan r s o = elim (Option-cases (pick_mime_type is_type_supported)) [
    | inl e ↦ ground arith
    | inr (t, e) ↦ ground arith
  ]

  finish-IsOrphan : (r : ℕ) (f : Option Text) (s : Machine) → IsOrphan r s → IsOrphan r (finish f s)
  unfolding finish
  finish-IsOrphan r none s o = ground arith
  finish-IsOrphan r (some m) s o = ground arith

  current-IsOrphan : (r : ℕ) (s : Machine) → IsOrphan r s → IsOrphan r (stop_recorder s.recorder s)
  current-IsOrphan r s o =
      let (q, e, d) = o.replaced in
      subst (λ x. IsOrphan r (stop_recorder x s)) (sym e) (stop_recorder-IsOrphan r q s d o)

  on_interval-IsOrphan :
      (r now : ℕ) (s : Machine)
      → IsOrphan r s
      → IsOrphan r (on_interval is_type_supported maximum now s)
  unfolding on_interval
  on_interval-IsOrphan r now s o =
      elim (Bool-cases (leb (maximum_or_default maximum * 1000) (now - s.started_at))) [
        | inl e ↦
            let shown : Machine = record s {
              panel = record s.panel { timer = timer_text (now - s.started_at) };
            } in
            let kept : IsOrphan r shown = ground arith in
            ground (arith, current-IsOrphan r shown kept)
        | inr e ↦ ground arith
      ]

  handle-IsOrphan :
      (r : ℕ) (e : Event) (s : Machine)
      → ends r e ≡ false
      → IsOrphan r s
      → IsOrphan r (handle is_type_supported maximum e s)
  unfolding handle
  handle-IsOrphan r click s d o = ground (arith, current-IsOrphan r s o)
  handle-IsOrphan r synced s d o = elim (ℕ-cases s.syncing) [
    | inl e ↦ ground arith
    | inr (n, e) ↦
        ground (arith, ask_microphone-IsOrphan r (record s { syncing = n }) (ground arith))
  ]
  handle-IsOrphan r denied s d o = elim (ℕ-cases s.asking) [
    | inl e ↦ ground arith
    | inr (n, e) ↦ ground arith
  ]
  handle-IsOrphan r (granted now) s d o = elim (ℕ-cases s.asking) [
    | inl e ↦ ground arith
    | inr (n, e) ↦
        ground (arith, start_recording-IsOrphan r now (record s { asking = n }) (ground arith))
  ]
  handle-IsOrphan r (data_available q t) s d o = ground arith
  handle-IsOrphan r (stopped q) s d o = elim (Bool-cases (q == r)) [
    | inl e ↦ ground (arith, ==_iff q r)
    | inr e ↦
        let cleared : IsOrphan r (record s { stopping = without q s.stopping }) =
          ground (arith, has-without r q s.stopping e) in
        ground
          (arith, on_stop-IsOrphan r q (record s { stopping = without q s.stopping }) e cleared)
  ]
  handle-IsOrphan r (ended q) s d o = stop_recorder-IsOrphan r q s d o
  handle-IsOrphan r (tick t now) s d o = ground (arith, on_interval-IsOrphan r now s o)
  handle-IsOrphan r (finished f) s d o = elim (ℕ-cases s.transcribing) [
    | inl e ↦ ground arith
    | inr (n, e) ↦
        ground (arith, finish-IsOrphan r f (record s { transcribing = n }) (ground arith))
  ]

  pub run-IsOrphan :
      (r : ℕ) (es : List Event) (s : Machine)
      → any (ends r) es ≡ false
      → IsOrphan r s
      → IsOrphan r (run is_type_supported maximum es s)
  unfolding any
  run-IsOrphan r [] s d o = o
  run-IsOrphan r (e ∷ es) s d o =
      run-IsOrphan r es (handle is_type_supported maximum e s) (ground arith)
        (handle-IsOrphan r e s (ground arith) o)
