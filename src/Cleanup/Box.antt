-- ===== src/Cleanup/Box.antt =====
-- The try-it box of app/webui/app.js as its buttons drive it: the clicks on `cleanup-try-run` and
-- `cleanup-try-sample`, `runCleanupPreview` up to its wait and from the reply on, and the swaps of
-- `#panel`, in which the box lies.
use vocagateway.Base.{
  ℕ, suc, Bool, true, false, List, [], ◌∷◌, Option, none, some, Text, ◌==◌, ◌>>=◌, if◌then◌else◌,
  codes,
}
use vocagateway.Cleanup.Preview.{
  Reply, thrown, not_ok, answer, Preview, begin_preview, paint_preview, finish_preview,
}

pub record Box : Type 0 where
  -- which panel brought it
  pub panel : ℕ
  pub input : Text
  pub input_focused : Bool
  pub preview : Preview

pub record Page : Type 0 where
  pub box : Option Box
  pub next_panel : ℕ
  -- the texts that were sent, and the panels whose replies are awaited, the last ones first
  pub sent : List Text
  pub waiting : List ℕ

abbrev pub cleanup_sample : Text
cleanup_sample =
    codes
      "so i told the team we cant ship on friday because the api isnt ready and we still need to review the migration"

-- The box as app/templates/cleanup/page.html has it.
abbrev pub served_box : ℕ → Box
served_box panel = record {
  panel = panel;
  input = [];
  input_focused = false;
  preview = record {
    after = [];
    before = [];
    status = [];
    result_hidden = true;
    error = [];
    error_hidden = true;
    button_disabled = false;
    button = codes "Correct this text";
  };
}

pub data Event : Type 0 where
  -- the user writes in the field, or the focus moves to it or away
  write : Text → Event
  move_focus : Bool → Event
  click_run click_sample : Event
  -- htmx swaps `#panel`: the tab of the box, or another one
  swap_panel : Bool → Event
  -- the reply to what a panel sent
  receive : ℕ → Reply → Event

abbrev pub map_box : (Box → Box) → Page → Page
map_box f p = elim p.box [ none ↦ p | some b ↦ record p { box = some (f b) } ]

-- How many replies a panel awaits, and what is left after one of them.
abbrev pub waiting_for : ℕ → List ℕ → ℕ
waiting_for k [] = 0
waiting_for k (j ∷ js) = let rest = waiting_for k js in if j == k then suc rest else rest

abbrev pub answered : ℕ → List ℕ → List ℕ
answered k [] = []
answered k (j ∷ js) = let rest = answered k js in if j == k then js else j ∷ rest

-- Without the box nothing is done. A disabled button gets no click.
unfoldable pub run_cleanup_preview : Page → Page
unfolding begin_preview
run_cleanup_preview p = elim p.box [
  | none ↦ p
  | some b ↦ if b.preview.button_disabled then p else (elim (begin_preview b.input b.preview) [
    | none ↦ record p { box = some (record b { input_focused = true }) }
    | some (text, v) ↦ record p {
      box = some (record b { preview = v });
      sent = text ∷ p.sent;
      waiting = b.panel ∷ p.waiting;
    }
  ])
]

-- A reply to another panel than the one that is there: `paintPreview` looks its elements up anew,
-- all else goes to elements that are no longer in the page.
unfoldable pub finish_elsewhere : Reply → Preview → Option Preview
unfolding paint_preview
finish_elsewhere (thrown message text) v = some v
finish_elsewhere not_ok v = some v
finish_elsewhere (answer p) v = paint_preview p v

unfoldable pub finish_in : ℕ → Reply → Box → Option Box
unfolding finish_preview finish_elsewhere
finish_in k reply b = do
  v ← if b.panel == k then finish_preview reply b.preview else finish_elsewhere reply b.preview
  some (record b { preview = v })

-- `none` is a fault in the comparison.
unfoldable pub receive_reply : ℕ → Reply → Page → Option Page
unfolding finish_in
receive_reply k reply p = elim p.box [
  | none ↦ some (record p { waiting = answered k p.waiting })
  | some b ↦ do
    c ← finish_in k reply b
    some (record p { box = some c; waiting = answered k p.waiting })
]

unfoldable pub handle : Event → Page → Option Page
unfolding run_cleanup_preview receive_reply
handle (write text) p = some (map_box (λ b. record b { input = text }) p)
handle (move_focus to_input) p = some (map_box (λ b. record b { input_focused = to_input }) p)
handle click_run p = some (run_cleanup_preview p)
handle click_sample p =
    some (map_box (λ b. record b { input = cleanup_sample; input_focused = true }) p)
handle (swap_panel has_box) p = some (record p {
  box = if has_box then some (served_box p.next_panel) else none;
  next_panel = suc p.next_panel;
})
handle (receive k reply) p =
    if waiting_for k p.waiting == 0 then some p else receive_reply k reply p

abbrev pub run : List Event → Page → Option Page
run [] p = some p
run (e ∷ es) p = handle e p >>= λ q. run es q
