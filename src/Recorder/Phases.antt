-- ===== src/Recorder/Phases.antt =====
-- What the recorder promises: one recording at a time, its microphone and its interval released
-- when it stops (app/webui/app.js).
use vocagateway.Base.{
  ℕ, ◌+◌, ◌-◌, ◌*◌, ◌≤◌, ◌≡◌, refl, Bool, true, false, not, ◌&&◌, List, [], ◌∷◌, ◌++◌, Option, none,
  some, Text, ◌==◌, ==_iff, leb, any, filter, arith, Bool-cases, Option-cases, ℕ-cases, inl, inr,
}
use vocagateway.Recorder.Machine.{
  Chunk, Take, Machine, has, without, Event, click, synced, denied, granted, data_available,
  stopped, ended, tick, finished, pick_mime_type, maximum_or_default, ask_microphone, handle,
}

-- The abstract recorder: nothing records, or one recorder does, or it has stopped and its "stop"
-- event is to come.
pub data Phase : Type 0 where
  idle : Phase
  recording stopping : ℕ → Phase

infix 40 ◌⟶◌
pub data ◌⟶◌ : Phase → Phase → Type 0 where
  stay : {p : Phase} → p ⟶ p
  begin : {r : ℕ} → idle ⟶ recording r
  stop : {r : ℕ} → recording r ⟶ stopping r
  submit : {r : ℕ} → stopping r ⟶ idle

abbrev pub comes_from : ℕ → List Chunk → Bool
comes_from r [] = true
comes_from r (c ∷ cs) = c.source == r && comes_from r cs

-- Each blob holds only what the recorder recorded whose stop sends it.
abbrev pub are_own : List Take → Bool
are_own [] = true
are_own (t ∷ ts) = comes_from t.stopped_by t.blob && are_own ts

pub record IsIdle (s : Machine) : Type 0 where
  pub recording_none : s.recording ≡ []
  pub stopping_none : s.stopping ≡ []
  pub microphones_none : s.microphones ≡ []
  pub timers_none : s.timers ≡ []
  pub timer_none : s.recording_timer ≡ none
  pub waits : s.syncing + s.asking + s.transcribing ≤ 1
  pub disabled : s.panel.button_disabled ≡ not (s.transcribing == 0)
  pub button : s.panel.button_recording ≡ false
  pub clock_hidden : s.panel.timer_hidden ≡ true
  pub own : are_own s.takes ≡ true

-- A recorder that records, or has its "stop" event queued.
pub record IsHeld (r : ℕ) (going queued : List ℕ) (s : Machine) : Type 0 where
  pub recorder_this : s.recorder ≡ some r
  pub recording_this : s.recording ≡ going
  pub stopping_this : s.stopping ≡ queued
  pub microphones_this : s.microphones ≡ r ∷ []
  pub timers_this : s.timers ≡ r ∷ []
  pub timer_this : s.recording_timer ≡ some r
  pub syncing_none : s.syncing ≡ 0
  pub asking_none : s.asking ≡ 0
  pub transcribing_none : s.transcribing ≡ 0
  pub enabled : s.panel.button_disabled ≡ false
  pub button : s.panel.button_recording ≡ true
  pub clock_shown : s.panel.timer_hidden ≡ false
  pub chunks_this : comes_from r s.chunks ≡ true
  pub own : are_own s.takes ≡ true

abbrev pub IsIn : Phase → Machine → Type 0
IsIn idle s = IsIdle s
IsIn (recording r) s = IsHeld r (r ∷ []) [] s
IsIn (stopping r) s = IsHeld r [] (r ∷ []) s

-- A click comes only when no earlier click waits and no "stop" event is queued.
abbrev pub is_nil {ℓ} : {A : Type ℓ} → List A → Bool
is_nil [] = true
is_nil (x ∷ xs) = false

abbrev pub is_calm : Event → Machine → Bool
is_calm click s = s.syncing + s.asking == 0 && is_nil s.stopping
is_calm _ s = true

comes_from-append :
    (r q : ℕ) (t : Text) (cs : List Chunk)
    → comes_from r cs ≡ true
    → q ≡ r
    → comes_from r (cs ++ record { source = q; content = t } ∷ []) ≡ true
comes_from-append r q t [] h e = ground (arith, ==_iff q r)
comes_from-append r q t (c ∷ cs) h e = ground (arith, comes_from-append r q t cs)

pub are_own-append :
    (ts : List Take) (r : ℕ) (b : List Chunk)
    → are_own ts ≡ true
    → comes_from r b ≡ true
    → are_own (ts ++ record { stopped_by = r; blob = b } ∷ []) ≡ true
are_own-append [] r b h e = ground arith
are_own-append (t ∷ ts) r b h e = ground (arith, are_own-append ts r b)

pub has_self : (r : ℕ) → has r (r ∷ []) ≡ true
unfolding any
has_self r = ground (arith, ==_iff r r)

pub without_self : (r : ℕ) → without r (r ∷ []) ≡ []
unfolding filter
without_self r = ground (arith, ==_iff r r)

pub has_eq : (q r : ℕ) → has q (r ∷ []) ≡ true → q ≡ r
unfolding any
has_eq q r h = ground (arith, ==_iff r q)

has_nil : (q : ℕ) → has q [] ≡ false
unfolding any
has_nil q = refl

module _ (is_type_supported : Text → Bool) (maximum : Option ℕ) where
  abbrev pub After : Phase → Event → Machine → Type 0
  After p e s = (q : Phase) × (p ⟶ q) × IsIn q (handle is_type_supported maximum e s)

  ask_microphone-IsIdle :
      (s : Machine)
      → IsIdle s
      → s.syncing + s.asking + s.transcribing ≡ 0
      → IsIdle (ask_microphone is_type_supported maximum s)
  unfolding ask_microphone
  ask_microphone-IsIdle s i e = elim (Option-cases (pick_mime_type is_type_supported)) [
    | inl m ↦ ground arith
    | inr (t, m) ↦ ground arith
  ]

  pub idle-click : (s : Machine) → IsIdle s → is_calm click s ≡ true → After idle click s
  unfolding handle
  idle-click s i calm = (idle, stay, ground arith)

  pub idle-synced : (s : Machine) → IsIdle s → After idle synced s
  unfolding handle
  idle-synced s i = elim (ℕ-cases s.syncing) [
    | inl e ↦ (idle, stay, ground arith)
    | inr (n, e) ↦
        let asked =
          ask_microphone-IsIdle (record s { syncing = n }) (ground arith) (ground arith) in
        (idle, stay, ground (arith, asked))
  ]

  pub idle-denied : (s : Machine) → IsIdle s → After idle denied s
  unfolding handle
  idle-denied s i = (idle, stay, ground arith)

  pub idle-finished : (o : Option Text) (s : Machine) → IsIdle s → After idle (finished o) s
  unfolding handle
  idle-finished none s i = (idle, stay, ground arith)
  idle-finished (some m) s i = (idle, stay, ground arith)

  pub idle-data : (r : ℕ) (t : Text) (s : Machine) → IsIdle s → After idle (data_available r t) s
  unfolding handle
  idle-data r t s i = (idle, stay, ground arith)

  pub idle-stopped : (r : ℕ) (s : Machine) → IsIdle s → After idle (stopped r) s
  unfolding handle
  idle-stopped r s i = (idle, stay, ground arith)

  pub idle-ended : (r : ℕ) (s : Machine) → IsIdle s → After idle (ended r) s
  unfolding handle
  idle-ended r s i = (idle, stay, ground arith)

  pub idle-tick : (t now : ℕ) (s : Machine) → IsIdle s → After idle (tick t now) s
  unfolding handle
  idle-tick t now s i = (idle, stay, ground arith)

  pub idle-granted : (now : ℕ) (s : Machine) → IsIdle s → After idle (granted now) s
  unfolding handle
  idle-granted now s i = elim (ℕ-cases s.asking) [
    | inl e ↦ (idle, stay, ground arith)
    | inr (n, e) ↦ (recording s.made, begin, ground arith)
  ]

  pub recording-click : (r : ℕ) (s : Machine) → IsHeld r (r ∷ []) [] s → After (recording r) click s
  unfolding handle
  recording-click r s i = (stopping r, stop, ground (arith, has_self r, without_self r))

  pub recording-ended :
      (r q : ℕ) (s : Machine) → IsHeld r (r ∷ []) [] s → After (recording r) (ended q) s
  unfolding handle
  recording-ended r q s i = elim (Bool-cases (q == r)) [
    | inl e ↦ (stopping r, stop, ground (arith, ==_iff q r, has_self r, without_self r))
    | inr e ↦ (recording r, stay, ground (arith, ==_iff q r, ==_iff r q))
  ]

  pub recording-tick :
      (r t now : ℕ) (s : Machine) → IsHeld r (r ∷ []) [] s → After (recording r) (tick t now) s
  unfolding handle
  recording-tick r t now s i =
      elim (Bool-cases (leb (maximum_or_default maximum * 1000) (now - s.started_at))) [
        | inl e ↦ elim (Bool-cases (t == r)) [
          | inl f ↦ (stopping r, stop, ground (arith, ==_iff t r, has_self r, without_self r))
          | inr f ↦ (recording r, stay, ground (arith, ==_iff t r, ==_iff r t))
        ]
        | inr e ↦ (recording r, stay, ground arith)
      ]

  pub IsHeld-data :
      (r q : ℕ) (t : Text) (going queued : List ℕ) (s : Machine)
      → going ++ queued ≡ r ∷ []
      → IsHeld r going queued s
      → IsHeld r going queued (handle is_type_supported maximum (data_available q t) s)
  unfolding handle
  IsHeld-data r q t going queued s e i =
      ground (arith, ==_iff r q, comes_from-append r q t s.chunks)

  pub stopping-stopped :
      (r q : ℕ) (s : Machine) → IsHeld r [] (r ∷ []) s → After (stopping r) (stopped q) s
  unfolding handle
  stopping-stopped r q s i = elim (Bool-cases (q == r)) [
    | inl e ↦ (
      idle,
      submit,
      ground (arith, ==_iff q r, has_self r, without_self r, are_own-append s.takes r s.chunks),
    )
    | inr e ↦ (stopping r, stay, ground (arith, ==_iff q r, ==_iff r q))
  ]
