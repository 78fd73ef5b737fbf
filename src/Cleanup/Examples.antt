-- ===== src/Cleanup/Examples.antt =====
-- Runs of the cleanup report of app/webui/app.js, and its theorems at concrete answers.
use vocagateway.Cleanup.Box.{
  Box, Page, served_box, cleanup_sample, Event, click_run, click_sample, swap_panel, receive,
  handle, run,
}
use vocagateway.Cleanup.Clicks.{IsTold, IsAlone}
use vocagateway.Cleanup.Alone.{run-IsAlone}
use vocagateway.Base.{
  Option, subst, trim, drop_while, is_space, List, arith, ℕ, ◌≡◌, ◌≢◌, ◌++◌, ◌↔◌, refl, Bool, true,
  false, [], ◌∷◌, none, some, Text, length, codes, filter, drop_while, is_space, zero, suc, decimal,
}
use vocagateway.Diff.Painting.{content, is_span}
use vocagateway.Cleanup.Advice.{Cleanup, describe_cleanup}
use vocagateway.Cleanup.Report.{Payload, Report, render_cleanup_comparison}
use vocagateway.Cleanup.Preview.{not_ok, Preview, finish_preview}
use vocagateway.Cleanup.Warning.{Capability, Controls, TestPanel, sync_test_cleanup}
use vocagateway.Cleanup.Counts.{
  IsReported, render_cleanup_comparison_lem, render_cleanup_comparison_count,
}
use vocagateway.Cleanup.Release.{finish_preview_lem}
use vocagateway.Cleanup.Stranded.{IsStranded, sync_test_cleanup_lem}

abbrev applied : Cleanup
applied = record { status = codes "applied"; reason = none }

abbrev busy : Cleanup
busy = record { status = codes "fallback"; reason = some (codes "busy") }

abbrev unknown : Cleanup
unknown = record { status = codes "fallback"; reason = some (codes "gone_away") }

describe_busy :
    describe_cleanup (some busy) 0
    ≡ codes
        "Cleanup did not run. Another correction was already running. The transcript is fine, just uncorrected."
unfolding describe_cleanup
describe_busy = refl

describe_unknown : describe_cleanup (some unknown) 0 ≡ codes "Cleanup did not run (gone away)."
unfolding describe_cleanup
describe_unknown = refl

describe_count : describe_cleanup (some applied) 12 ≡ codes "Cleanup changed 12 words."
unfolding describe_cleanup decimal
describe_count = refl

abbrev payload : Payload
payload = record {
  cleanup = some applied;
  original_transcript = some (codes "so it cant");
  transcript = some (codes "So it can't");
}

abbrev blank : Report
blank = record {
  transcript = [];
  original = [];
  block_hidden = true;
  status = [];
  status_hidden = true;
}

render_cleanup_comparison_lem_example :
    (r : Report) × (render_cleanup_comparison payload (some blank) ≡ some (some r))
    × ((r.block_hidden ≡ false) ↔ IsReported payload)
    × (IsReported payload
        → (content r.transcript ≡ drop_while is_space (codes "So it can't"))
          × (content r.original ≡ drop_while is_space (codes "so it cant")))
    × (¬ IsReported payload → (r.transcript ≡ []) × (r.original ≡ []))
    × ((r.status_hidden ≡ true) ↔ (some applied ≡ none))
render_cleanup_comparison_lem_example = render_cleanup_comparison_lem payload blank

render_cleanup_comparison_count_example :
    (r : Report) × (render_cleanup_comparison payload (some blank) ≡ some (some r))
    × (length (filter is_span r.transcript) ≡ 1 → r.status ≡ codes "Cleanup changed 1 word.")
    × (length (filter is_span r.transcript) ≢ 1
        → r.status
          ≡ codes "Cleanup changed "
            ++ decimal (length (filter is_span r.transcript))
            ++ codes " words.")
render_cleanup_comparison_count_example =
    render_cleanup_comparison_count payload applied blank refl refl (λ q. cc) (λ q. cc)

-- A dictation of 401 words, and the same with one more.
abbrev words : ℕ → Text
words zero = []
words (suc n) = b'a' ∷ b' ' ∷ words n

abbrev long_payload : Payload
long_payload = record {
  cleanup = some applied;
  original_transcript = some (words 401);
  transcript = some (words 402);
}

abbrev idle : Preview
idle = record {
  after = [];
  before = [];
  status = [];
  result_hidden = true;
  error = [];
  error_hidden = true;
  button_disabled = true;
  button = codes "Correcting…";
}

finish_preview_lem_example :
    (w : Preview) × (finish_preview not_ok idle ≡ some w)
    × (w.button_disabled ≡ false)
    × (w.button ≡ codes "Correct this text")
    × (w.result_hidden ≡ true)
    × (w.error_hidden ≡ false)
finish_preview_lem_example = finish_preview_lem not_ok idle

abbrev controls : Controls
controls = record {
  language = codes "auto";
  mode = codes "conservative";
  warning = [];
  warning_hidden = true;
}

abbrev panel : TestPanel
panel = record {
  capability = record { supported = false; auto_language = true };
  controls = some controls;
  field_hidden = some true;
  tile_hidden = some true;
}

abbrev capability : Capability
capability = record { supported = true; auto_language = false }

sync_test_cleanup_lem_example :
    ((sync_test_cleanup (some capability) panel).field_hidden ≡ some false)
    × ((t : Bool)
        → some true ≡ some t
        → (sync_test_cleanup (some capability) panel).tile_hidden ≡ some false)
    × ((d : Controls) × ((sync_test_cleanup (some capability) panel).controls ≡ some d)
        × ((d.warning_hidden ≡ false) ↔ IsStranded capability controls)
        × ((d.warning ≡ []) ↔ (d.warning_hidden ≡ true)))
    × (sync_test_cleanup none panel ≡ panel)
sync_test_cleanup_lem_example = sync_test_cleanup_lem capability panel controls true refl refl

abbrev quiet_page : Page
quiet_page = record { box = some (served_box 0); next_panel = 1; sent = []; waiting = [] }

-- An empty field, an example that is sent, and a second click while the reply is awaited.
abbrev impatient : List Event
impatient = click_run ∷ click_sample ∷ click_run ∷ click_run ∷ []

-- Of the three clicks on the button only one sends.
impatient_waits :
    run impatient quiet_page
    ≡ some (record {
      box =
          some (record (served_box 0) {
            input = cleanup_sample;
            input_focused = true;
            preview = idle;
          });
      next_panel = 1;
      sent = cleanup_sample ∷ [];
      waiting = 0 ∷ [];
    })
unfolding handle trim drop_while is_space
impatient_waits = refl

-- The user leaves the tab, comes back, and sends another correction while the first is awaited.
abbrev restless : List Event
restless =
    click_sample ∷ click_run ∷ swap_panel false ∷ swap_panel true ∷ click_sample ∷ click_run ∷ []

abbrev waits_in : Option Page → List ℕ
waits_in none = []
waits_in (some p) = p.waiting

restless_waits : waits_in (run restless quiet_page) ≡ 2 ∷ 0 ∷ []
unfolding handle trim drop_while is_space
restless_waits = refl

run-IsAlone_example :
    (q : Page) × (run (restless ++ receive 0 not_ok ∷ []) quiet_page ≡ some q) × IsAlone q
run-IsAlone_example = run-IsAlone (restless ++ receive 0 not_ok ∷ []) quiet_page (record {
  at_most_one = λ k. omega arith;
  none_later = λ k h. refl;
  told = λ b h.
      subst (IsTold 1 []) (quiet_box b h)
        (record { earlier = omega arith; disabled = refl; label = refl });
  asked = refl;
})
  where
    quiet_box : (b : Box) → some (served_box 0) ≡ some b → served_box 0 ≡ b
    quiet_box b h = cc
