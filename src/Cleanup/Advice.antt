-- ===== src/Cleanup/Advice.antt =====
-- `CLEANUP_ADVICE` and `describeCleanup` of app/webui/app.js.
use vocagateway.Base.{
  ℕ, ◌≡◌, ◌≢◌, refl, Bool, true, false, List, [], ◌∷◌, ◌++◌, Option, none, some, Text, text_eq, map,
  codes, decimal, ◌==◌, if◌then◌else◌,
}

-- The fields of the `cleanup` object that the page reads. `none` is a field that is missing or
-- `null`.
pub record Cleanup : Type 0 where
  pub status : Text
  pub reason : Option Text

unfoldable pub advice_table : List (Text × Text)
advice_table =
    (
      codes "unsupported_language",
      codes
          "Cleanup needs to know the language. Pick one above instead of “Detect language”, or set one on the Cleanup tab under “When language is auto”.",
    )
    ∷ (
      codes "model_unavailable",
      codes "No cleanup model is loaded. Download one on the Cleanup tab.",
    )
    ∷ (codes "model_loading", codes "The cleanup model is still loading. Try again in a moment.")
    ∷ (
      codes "busy",
      codes "Another correction was already running. The transcript is fine, just uncorrected.",
    )
    ∷ (
      codes "timeout",
      codes "The correction ran out of time. Raise the time limit in Settings, or warm the model.",
    )
    ∷ (
      codes "input_too_long",
      codes
          "The transcript is larger than cleanup will accept. Ordinary long dictations are split and corrected in pieces; this one was refused whole.",
    )
    ∷ (
      codes "unsafe_edit",
      codes
          "The model’s answer changed something it should not have — a number, a name, or a negation — so it was thrown away and the plain transcript kept.",
    )
    ∷ (
      codes "invalid_output",
      codes "The model answered with something unusable, so the plain transcript was kept.",
    )
    ∷ (
      codes "context_too_small",
      codes
          "The cleanup server’s context window is too small. Restart it with a larger --ctx-size.",
    )
    ∷ (codes "raw_style", codes "Raw style is never corrected, by design.")
    ∷ (codes "empty_input", codes "There was nothing to correct.")
    ∷ (
      codes "runtime_error",
      codes "The cleanup runtime failed. Check the Cleanup tab for the reason.",
    )
    ∷ []

unfoldable pub lookup_text : Text → List (Text × Text) → Option Text
lookup_text key [] = none
lookup_text key ((k, v) ∷ rest) = if text_eq k key then some v else lookup_text key rest

-- `CLEANUP_ADVICE[reason]`, on the keys that the object has of its own.
unfoldable pub advice : Option Text → Option Text
unfolding lookup_text advice_table
advice none = none
advice (some reason) = lookup_text reason advice_table

-- `.replace(/_/g, " ")`
abbrev pub underscore_to_space : ℕ → ℕ
underscore_to_space c = if c == b'_' then b' ' else c

-- `cleanup.reason || cleanup.status`
unfoldable pub reason_or_status : Cleanup → Text
reason_or_status c = elim c.reason [
  | none ↦ c.status
  | some r ↦ if text_eq r [] then c.status else r
]

unfoldable pub count_message : ℕ → Text
count_message edits =
    if edits == 1
    then codes "Cleanup changed 1 word."
    else codes "Cleanup changed " ++ decimal edits ++ codes " words."

unfoldable pub declined_message : Cleanup → Text
unfolding advice reason_or_status
declined_message c = elim (advice c.reason) [
  | some text ↦ codes "Cleanup did not run. " ++ text
  | none ↦
      codes "Cleanup did not run (" ++ map underscore_to_space (reason_or_status c) ++ codes ")."
]

unfoldable pub describe_cleanup : Option Cleanup → ℕ → Text
unfolding count_message declined_message
describe_cleanup none edits = []
describe_cleanup (some c) edits =
    if text_eq c.status (codes "applied")
    then count_message edits
    else if text_eq c.status (codes "unchanged")
    then codes "Cleanup ran and found nothing to change — the transcript was already correct."
    else if text_eq c.status (codes "disabled")
    then codes "Cleanup is off for this run."
    else declined_message c

if-ne-nil : (b : Bool) (s t : Text) → s ≢ [] → t ≢ [] → (if b then s else t) ≢ []
if-ne-nil true s t p q = p
if-ne-nil false s t p q = q

count_message-ne-nil : (edits : ℕ) → count_message edits ≢ []
unfolding count_message
count_message-ne-nil edits = if-ne-nil (edits == 1) _ _ (λ e. cc) (λ e. cc)

declined_message-ne-nil : (c : Cleanup) → declined_message c ≢ []
unfolding declined_message
declined_message-ne-nil c = go (advice c.reason) refl
  where
    go : (a : Option Text) → advice c.reason ≡ a → declined_message c ≢ []
    go none e = rw (e, declined_message) (λ q. cc)
    go (some t) e = rw (e, declined_message) (λ q. cc)

-- Something is said of every run that reports a cleanup.
pub describe_cleanup-ne-nil : (c : Cleanup) (edits : ℕ) → describe_cleanup (some c) edits ≢ []
unfolding describe_cleanup
describe_cleanup-ne-nil c edits =
    if-ne-nil (text_eq c.status (codes "applied")) _ _ (count_message-ne-nil edits) (
      if-ne-nil (text_eq c.status (codes "unchanged")) _ _ (λ e. cc)
        (if-ne-nil (text_eq c.status (codes "disabled")) _ _ (λ e. cc) (declined_message-ne-nil c)))
