-- ===== src/Recorder/Exclusive.antt =====
-- One recording at a time, where each click waits for the one before (app/webui/app.js).
use vocagateway.Base.{
  ℕ, ◌≤◌, ◌≡◌, refl, Bool, true, ◌&&◌, List, [], ◌∷◌, ◌++◌, Option, Text, arith, length,
}
use vocagateway.Recorder.Machine.{
  Machine, Event, click, synced, denied, granted, data_available, stopped, ended, tick, finished,
  handle, run,
}
use vocagateway.Recorder.Phases.{
  Phase, idle, recording, stopping, ◌⟶◌, stay, are_own, IsIdle, IsHeld, IsIn, is_calm, After,
  idle-click, idle-synced, idle-denied, idle-finished, idle-data, idle-stopped, idle-ended,
  idle-tick, idle-granted, recording-click, recording-ended, recording-tick, IsHeld-data,
  stopping-stopped,
}

module _ (is_type_supported : Text → Bool) (maximum : Option ℕ) where
  idle-step :
      (e : Event) (s : Machine)
      → IsIdle s
      → is_calm e s ≡ true
      → After is_type_supported maximum idle e s
  idle-step click s i c = idle-click is_type_supported maximum s i c
  idle-step synced s i c = idle-synced is_type_supported maximum s i
  idle-step denied s i c = idle-denied is_type_supported maximum s i
  idle-step (granted now) s i c = idle-granted is_type_supported maximum now s i
  idle-step (data_available r t) s i c = idle-data is_type_supported maximum r t s i
  idle-step (stopped r) s i c = idle-stopped is_type_supported maximum r s i
  idle-step (ended r) s i c = idle-ended is_type_supported maximum r s i
  idle-step (tick t now) s i c = idle-tick is_type_supported maximum t now s i
  idle-step (finished o) s i c = idle-finished is_type_supported maximum o s i

  recording-step :
      (r : ℕ) (e : Event) (s : Machine)
      → IsHeld r (r ∷ []) [] s
      → After is_type_supported maximum (recording r) e s
  unfolding handle
  recording-step r click s i = recording-click is_type_supported maximum r s i
  recording-step r synced s i = (recording r, stay, ground arith)
  recording-step r denied s i = (recording r, stay, ground arith)
  recording-step r (granted now) s i = (recording r, stay, ground arith)
  recording-step r (data_available q t) s i =
      (recording r, stay, IsHeld-data is_type_supported maximum r q t (r ∷ []) [] s refl i)
  recording-step r (stopped q) s i = (recording r, stay, ground arith)
  recording-step r (ended q) s i = recording-ended is_type_supported maximum r q s i
  recording-step r (tick t now) s i = recording-tick is_type_supported maximum r t now s i
  recording-step r (finished o) s i = (recording r, stay, ground arith)

  stopping-step :
      (r : ℕ) (e : Event) (s : Machine)
      → IsHeld r [] (r ∷ []) s
      → is_calm e s ≡ true
      → After is_type_supported maximum (stopping r) e s
  unfolding handle
  stopping-step r click s i c = absurd (ground arith)
  stopping-step r synced s i c = (stopping r, stay, ground arith)
  stopping-step r denied s i c = (stopping r, stay, ground arith)
  stopping-step r (granted now) s i c = (stopping r, stay, ground arith)
  stopping-step r (data_available q t) s i c =
      (stopping r, stay, IsHeld-data is_type_supported maximum r q t [] (r ∷ []) s refl i)
  stopping-step r (stopped q) s i c = stopping-stopped is_type_supported maximum r q s i
  stopping-step r (ended q) s i c = (stopping r, stay, ground arith)
  stopping-step r (tick t now) s i c = (stopping r, stay, ground arith)
  stopping-step r (finished o) s i c = (stopping r, stay, ground arith)

  -- The recorder implements the machine of three phases: an event keeps the phase or takes it along
  -- one edge, from idle to recording, from there to stopping, and from there to idle. A click comes
  -- only when no earlier one waits and no "stop" event is queued.
  pub handle-IsIn :
      (p : Phase) (e : Event) (s : Machine)
      → IsIn p s
      → is_calm e s ≡ true
      → (q : Phase) × (p ⟶ q) × IsIn q (handle is_type_supported maximum e s)
  handle-IsIn idle e s i c = idle-step e s i c
  handle-IsIn (recording r) e s i c = recording-step r e s i
  handle-IsIn (stopping r) e s i c = stopping-step r e s i c

  abbrev pub are_calm : List Event → Machine → Bool
  are_calm [] s = true
  are_calm (e ∷ es) s = is_calm e s && are_calm es (handle is_type_supported maximum e s)

  run-IsIn :
      (es : List Event) (p : Phase) (s : Machine)
      → IsIn p s
      → are_calm es s ≡ true
      → (q : Phase) × IsIn q (run is_type_supported maximum es s)
  run-IsIn [] p s i c = (p, i)
  run-IsIn (e ∷ es) p s i c =
      let (q, edge, there) = handle-IsIn p e s i (ground arith) in
      run-IsIn es q (handle is_type_supported maximum e s) there (ground arith)

  phase_uses :
      (p : Phase) (s : Machine)
      → IsIn p s
      → (length s.microphones ≤ 1)
        × (s.microphones ≡ s.recording ++ s.stopping)
        × (s.timers ≡ s.microphones)
        × (are_own s.takes ≡ true)
  phase_uses idle s i = ground arith
  phase_uses (recording r) s i = ground arith
  phase_uses (stopping r) s i = ground arith

  -- From an idle recorder on, where each click comes when no earlier one waits and no "stop" event
  -- is queued: at most one microphone is live, that of the recorder that records or is about to
  -- stop; its interval alone runs; and each blob that is sent holds only what its own recorder
  -- recorded.
  pub run_uses :
      (es : List Event) (s : Machine)
      → IsIdle s
      → are_calm es s ≡ true
      → (length (run is_type_supported maximum es s).microphones ≤ 1)
        × ((run is_type_supported maximum es s).microphones
            ≡ (run is_type_supported maximum es s).recording
              ++ (run is_type_supported maximum es s).stopping)
        × ((run is_type_supported maximum es s).timers
            ≡ (run is_type_supported maximum es s).microphones)
        × (are_own (run is_type_supported maximum es s).takes ≡ true)
  run_uses es s i c =
      let (q, there) = run-IsIn es idle s i c in
      phase_uses q (run is_type_supported maximum es s) there
