-- ===== src/Recorder/Machine.antt =====
-- The recorder: what a click on `record-toggle` does now and after each of its waits, the interval
-- and the events of a MediaRecorder, in app/webui/app.js. A MediaRecorder, its stream and the
-- interval that is set with it go by one number; several may be there at once.
use vocagateway.Base.{
  ℕ, zero, suc, ◌-◌, ◌*◌, Bool, true, false, not, List, [], ◌∷◌, ◌++◌, Option, none, some, Text,
  ◌==◌, leb, if◌then◌else◌, any, filter, codes, decimal,
}
use vocagateway.Recorder.Clock.{timer_text}

-- A blob that `ondataavailable` brings, with the recorder it comes from.
pub record Chunk : Type 0 where
  pub source : ℕ
  pub content : Text

-- What is sent to be transcribed: the chunks, and the recorder whose stop sends them.
pub record Take : Type 0 where
  pub stopped_by : ℕ
  pub blob : List Chunk

pub record Panel : Type 0 where
  pub button : Text
  pub button_recording : Bool
  pub button_disabled : Bool
  pub timer : Text
  pub timer_hidden : Bool
  pub status : Text
  pub result_hidden : Bool
  pub error : Text
  pub error_hidden : Bool

pub record Machine : Type 0 where
  -- the variable `recorder`
  pub recorder : Option ℕ
  pub chunks : List Chunk
  -- the variable `recordingTimer`
  pub recording_timer : Option ℕ
  pub started_at : ℕ
  -- clicks that wait for the pickers, and clicks that wait for the microphone
  pub syncing : ℕ
  pub asking : ℕ
  -- of the MediaRecorders made so far: how many, which record, which have their "stop" event queued
  pub made : ℕ
  pub recording : List ℕ
  pub stopping : List ℕ
  -- the streams whose tracks are live, and the intervals that run
  pub microphones : List ℕ
  pub timers : List ℕ
  -- the transcriptions that are under way, and what was sent
  pub transcribing : ℕ
  pub takes : List Take
  pub panel : Panel

abbrev pub has : ℕ → List ℕ → Bool
has n ns = any (λ m. m == n) ns

abbrev pub without : ℕ → List ℕ → List ℕ
without n ns = filter (λ m. not (m == n)) ns

pub data Event : Type 0 where
  click : Event
  -- the pickers of a click are in step with the active model
  synced : Event
  -- the microphone is denied, or granted at a time
  denied : Event
  granted : ℕ → Event
  -- a MediaRecorder brings data, fires its "stop" event, or stops by itself
  data_available : ℕ → Text → Event
  stopped : ℕ → Event
  ended : ℕ → Event
  -- an interval fires, at a time
  tick : ℕ → ℕ → Event
  -- a transcription is over; `none` is a success, `some` an error's message
  finished : Option Text → Event

unfoldable pub show_error : Text → Machine → Machine
show_error message s = record s { panel = record s.panel { error = message; error_hidden = false } }

-- `recorder.stop()`, which does nothing on a recorder that is not recording.
unfoldable pub stop_recorder : Option ℕ → Machine → Machine
unfolding any filter
stop_recorder none s = s
stop_recorder (some r) s =
    if has r s.recording
    then record s { recording = without r s.recording; stopping = s.stopping ++ r ∷ [] }
    else s

abbrev pub is_recording : Option ℕ → List ℕ → Bool
is_recording none rs = false
is_recording (some r) rs = has r rs

-- A disabled button gets no click.
unfoldable pub click_toggle : Machine → Machine
unfolding stop_recorder any
click_toggle s =
    if s.panel.button_disabled
    then s
    else if is_recording s.recorder s.recording
    then stop_recorder s.recorder s
    else record s { syncing = suc s.syncing }

-- The first container and codec that the browser can record.
unfoldable pub candidates : List Text
candidates =
    codes "audio/mp4" ∷ codes "audio/webm;codecs=opus" ∷ codes "audio/webm" ∷ codes "audio/ogg" ∷ []

unfoldable pub find_type : (Text → Bool) → List Text → Option Text
find_type test [] = none
find_type test (t ∷ ts) = if test t then some t else find_type test ts

unfoldable pub pick_mime_type : (Text → Bool) → Option Text
unfolding candidates find_type
pick_mime_type is_type_supported = find_type is_type_supported candidates

-- `clearInterval(recordingTimer)`
unfoldable pub stop_recording_timer : Machine → Machine
unfolding filter
stop_recording_timer s = record s {
  timers = elim s.recording_timer [ none ↦ s.timers | some t ↦ without t s.timers ];
  recording_timer = none;
}

-- `Number(controls.dataset.maximumSeconds) || 300`
abbrev pub maximum_or_default : Option ℕ → ℕ
maximum_or_default none = 300
maximum_or_default (some zero) = 300
maximum_or_default (some (suc n)) = suc n

unfoldable pub on_stop : ℕ → Machine → Machine
unfolding stop_recording_timer filter
on_stop r s =
    let u = stop_recording_timer s in
    record u {
      microphones = without r u.microphones;
      transcribing = suc u.transcribing;
      takes = u.takes ++ record { stopped_by = r; blob = u.chunks } ∷ [];
      panel = record u.panel {
        button = codes "Start recording";
        button_recording = false;
        button_disabled = true;
        timer_hidden = true;
        status = codes "Transcribing...";
      };
    }

abbrev pub append_chunk : ℕ → Text → Machine → Machine
append_chunk r content s = record s {
  chunks = s.chunks ++ record { source = r; content = content } ∷ [];
}

unfoldable pub finish : Option Text → Machine → Machine
unfolding show_error
finish none s = record s {
  panel = record s.panel {
    result_hidden = false;
    error_hidden = true;
    status = [];
    button_disabled = false;
  };
}
finish (some message) s =
    let u = show_error message s in
    record u { panel = record u.panel { status = []; button_disabled = false } }

-- What the browser can record, and the attribute `data-maximum-seconds`.
module _ (is_type_supported : Text → Bool) (maximum : Option ℕ) where
  -- The rest of a click whose pickers are in step.
  unfoldable pub ask_microphone : Machine → Machine
  unfolding pick_mime_type show_error
  ask_microphone s = elim (pick_mime_type is_type_supported) [
    | none ↦ show_error (codes "This browser cannot record audio (no MediaRecorder).") s
    | some mime_type ↦ record s { asking = suc s.asking }
  ]

  -- The rest of a click that got the microphone.
  unfoldable pub start_recording : ℕ → Machine → Machine
  start_recording now s = record s {
    recorder = some s.made;
    chunks = [];
    recording_timer = some s.made;
    started_at = now;
    made = suc s.made;
    recording = s.recording ++ s.made ∷ [];
    microphones = s.microphones ++ s.made ∷ [];
    timers = s.timers ++ s.made ∷ [];
    panel = record s.panel {
      button = codes "Stop & transcribe";
      button_recording = true;
      timer = codes "0:00";
      timer_hidden = false;
      status = codes "Recording... max " ++ decimal (maximum_or_default maximum) ++ codes "s.";
      result_hidden = true;
      error_hidden = true;
    };
  }

  unfoldable pub on_interval : ℕ → Machine → Machine
  unfolding stop_recorder
  on_interval now s =
      let u = record s { panel = record s.panel { timer = timer_text (now - s.started_at) } } in
      if leb (maximum_or_default maximum * 1000) (now - s.started_at)
      then stop_recorder u.recorder u
      else u

  -- An event that cannot happen in a state changes nothing.
  unfoldable pub handle : Event → Machine → Machine
  unfolding click_toggle ask_microphone start_recording on_interval on_stop stop_recorder finish
      show_error any filter
  handle click s = click_toggle s
  handle synced s = elim s.syncing [ zero ↦ s | suc n ↦ ask_microphone (record s { syncing = n }) ]
  handle denied s = elim s.asking [
    | zero ↦ s
    | suc n ↦ show_error (codes "Microphone permission denied.") (record s { asking = n })
  ]
  handle (granted now) s = elim s.asking [
    | zero ↦ s
    | suc n ↦ start_recording now (record s { asking = n })
  ]
  handle (data_available r content) s =
      if has r (s.recording ++ s.stopping) then append_chunk r content s else s
  handle (stopped r) s =
      if has r s.stopping then on_stop r (record s { stopping = without r s.stopping }) else s
  handle (ended r) s = stop_recorder (some r) s
  handle (tick t now) s = if has t s.timers then on_interval now s else s
  handle (finished outcome) s = elim s.transcribing [
    | zero ↦ s
    | suc n ↦ finish outcome (record s { transcribing = n })
  ]

  abbrev pub run : List Event → Machine → Machine
  run [] s = s
  run (e ∷ es) s = run es (handle e s)
