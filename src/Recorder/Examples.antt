-- ===== src/Recorder/Examples.antt =====
-- Runs of the recorder of app/webui/app.js, in a browser that records the second type asked for.
use vocagateway.Base.{
  ◌*◌, ◌-◌, ◌≤◌, ◌≡◌, refl, Bool, true, false, List, [], ◌∷◌, ◌++◌, none, some, Text, text_eq,
  codes, decimal, length, any, arith,
}
use vocagateway.Recorder.Clock.{timer_text}
use vocagateway.Recorder.Machine.{
  Machine, has, Event, click, synced, granted, data_available, stopped, tick, finished,
  pick_mime_type, handle, run,
}
use vocagateway.Recorder.Phases.{Phase, idle, ◌⟶◌, are_own, IsIdle, IsHeld, IsIn}
use vocagateway.Recorder.Exclusive.{handle-IsIn, are_calm, run_uses}
use vocagateway.Recorder.Orphan.{ends}
use vocagateway.Recorder.Hasty.{hasty, hasty_lem}
use vocagateway.Recorder.Limit.{closing, closing_lem}

clock_run : timer_text 125_999 ≡ codes "2:05"
unfolding timer_text decimal
clock_run = refl

abbrev opus : Text → Bool
opus t = text_eq t (codes "audio/webm;codecs=opus")

abbrev fresh : Machine
fresh = record {
  recorder = none;
  chunks = [];
  recording_timer = none;
  started_at = 0;
  syncing = 0;
  asking = 0;
  made = 0;
  recording = [];
  stopping = [];
  microphones = [];
  timers = [];
  transcribing = 0;
  takes = [];
  panel = record {
    button = codes "Start recording";
    button_recording = false;
    button_disabled = false;
    timer = codes "0:00";
    timer_hidden = true;
    status = [];
    result_hidden = true;
    error = [];
    error_hidden = true;
  };
}

fresh-IsIdle : IsIdle fresh
fresh-IsIdle = ground arith

-- A recording from its click to its end, of one second.
abbrev one_take : List Event
one_take =
    click
    ∷ synced
    ∷ granted 5_000
    ∷ tick 0 6_000
    ∷ click
    ∷ data_available 0 (codes "a")
    ∷ stopped 0
    ∷ finished none
    ∷ []

one_take_calm : are_calm opus (some 60) one_take fresh ≡ true
unfolding handle
one_take_calm = refl

run_uses_example :
    (length (run opus (some 60) one_take fresh).microphones ≤ 1)
    × ((run opus (some 60) one_take fresh).microphones
        ≡ (run opus (some 60) one_take fresh).recording
          ++ (run opus (some 60) one_take fresh).stopping)
    × ((run opus (some 60) one_take fresh).timers ≡ (run opus (some 60) one_take fresh).microphones)
    × (are_own (run opus (some 60) one_take fresh).takes ≡ true)
run_uses_example = run_uses opus (some 60) one_take fresh fresh-IsIdle one_take_calm

handle-IsIn_example : (q : Phase) × (idle ⟶ q) × IsIn q (handle opus (some 60) click fresh)
handle-IsIn_example = handle-IsIn opus (some 60) idle click fresh fresh-IsIdle refl

-- The state after the microphone is granted.
abbrev talking : Machine
talking = run opus (some 60) (click ∷ synced ∷ granted 5_000 ∷ []) fresh

talking-IsHeld : IsHeld 0 (0 ∷ []) [] talking
unfolding handle
talking-IsHeld = ground arith

talking_due : 60 * 1000 ≤ 65_000 - talking.started_at
unfolding handle
talking_due = omega arith

closing_lem_example :
    IsIdle (run opus (some 60) (closing 0 65_000 (codes "b") none) talking)
    × ((run opus (some 60) (closing 0 65_000 (codes "b") none) talking).panel.button_disabled
        ≡ false)
    × ((run opus (some 60) (closing 0 65_000 (codes "b") none) talking).takes
        ≡ talking.takes
          ++ record {
            stopped_by = 0;
            blob = talking.chunks ++ record { source = 0; content = codes "b" } ∷ [];
          }
            ∷ [])
closing_lem_example =
    closing_lem opus (some 60) 0 65_000 (codes "b") none talking talking-IsHeld talking_due

opus_picked : pick_mime_type opus ≡ some (codes "audio/webm;codecs=opus")
unfolding pick_mime_type
opus_picked = refl

-- A stop and the time limit do not end the first of two recordings.
abbrev later : List Event
later = click ∷ stopped 1 ∷ tick 0 400_000 ∷ finished none ∷ []

later_never_ends : any (ends 0) later ≡ false
unfolding any
later_never_ends = refl

hasty_lem_example :
    (has 0 (run opus (some 60) (hasty 1_000 1_200 ++ later) fresh).recording ≡ true)
    × (has 0 (run opus (some 60) (hasty 1_000 1_200 ++ later) fresh).microphones ≡ true)
hasty_lem_example =
    hasty_lem opus (some 60) 1_000 1_200 later fresh (codes "audio/webm;codecs=opus") fresh-IsIdle
      refl refl opus_picked later_never_ends
