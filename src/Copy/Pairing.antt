-- ===== src/Copy/Pairing.antt =====
-- The click on `copy-pairing-qr` of app/webui/app.js: the address and the token for the clipboard,
-- and the hint on the button that goes back by itself.
use vocagateway.Base.{
  ℕ, zero, suc, Bool, true, false, ◌||◌, List, [], ◌∷◌, ◌++◌, Option, none, some, Text,
  if◌then◌else◌, codes, filter,
}
use vocagateway.Timers.{Timer, clear_timeout, has_timer, fired}

pub record Button : Type 0 where
  -- `data-url` and `data-token`, where a missing one is empty
  pub url : Text
  pub token : Text
  -- the text of `.pairing-qr-copy-label`, where it is there
  pub hint : Option Text
  -- the class `is-copied`
  pub is_copied : Bool
  pub title : Text
  -- the timers that are set, and `button._copyHintTimer`
  pub timers : List Timer
  pub copy_hint_timer : Option ℕ
  pub next_timer : ℕ
  -- writes to the clipboard that are awaited, and what was to be written
  pub writing : ℕ
  pub written : List Text

abbrev pub is_nil {ℓ} : {A : Type ℓ} → List A → Bool
is_nil [] = true
is_nil (x ∷ xs) = false

unfoldable pub set_hint : Text → Bool → Button → Button
set_hint text copied b = elim b.hint [
  | none ↦ b
  | some _ ↦ record b {
    hint = some text;
    is_copied = copied;
    title = if copied then codes "Copied" else codes "Copy gateway address and token";
  }
]

abbrev pub resting_hint : Text
resting_hint = codes "Copy address & token"

-- `clearTimeout(button._copyHintTimer)`, then a new one.
unfoldable pub reset_later : Button → Button
unfolding filter
reset_later b = record b {
  timers =
      clear_timeout b.copy_hint_timer b.timers ++ record { id = b.next_timer; delay = 1600 } ∷ [];
  copy_hint_timer = some b.next_timer;
  next_timer = suc b.next_timer;
}

-- The rest of a click whose copy succeeded or threw.
unfoldable pub end_copy : Bool → Button → Button
unfolding set_hint reset_later
end_copy succeeded b =
    if succeeded
    then reset_later (set_hint (codes "Copied") true b)
    else reset_later (set_hint (codes "Copy failed") false b)

pub data Event : Type 0 where
  -- a click; `some` is the outcome of the copy in a browser without a clipboard to write to
  click : Option Bool → Event
  -- an awaited write succeeds or fails
  wrote : Bool → Event
  fire : ℕ → Event

-- `json` is `JSON.stringify` of the version, the address and the token.
module _ (json : Text → Text → Text) where
  unfoldable pub click_copy : Option Bool → Button → Button
  unfolding set_hint reset_later end_copy
  click_copy fallback b =
      let started = record b { written = b.written ++ json b.url b.token ∷ [] } in
      if is_nil b.url || is_nil b.token
      then reset_later (set_hint (codes "Nothing to copy") false b)
      else (elim fallback [
        | none ↦ record started { writing = suc started.writing }
        | some succeeded ↦ end_copy succeeded started
      ])

  unfoldable pub handle : Event → Button → Button
  unfolding click_copy end_copy set_hint filter
  handle (click fallback) b = click_copy fallback b
  handle (wrote succeeded) b = elim b.writing [
    | zero ↦ b
    | suc n ↦ end_copy succeeded (record b { writing = n })
  ]
  handle (fire t) b =
      if has_timer t b.timers
      then set_hint resting_hint false (record b { timers = fired t b.timers })
      else b

  abbrev pub run : List Event → Button → Button
  run [] b = b
  run (e ∷ es) b = run es (handle e b)
