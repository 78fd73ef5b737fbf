-- ===== src/Cleanup/Report.antt =====
-- `renderCleanupComparison` of app/webui/app.js: the comparison under a benchmark's transcript.
use vocagateway.Base.{
  ℕ, Bool, true, false, not, ◌&&◌, List, [], Option, none, some, Text, text_eq, ◌>>=◌,
  if◌then◌else◌,
}
use vocagateway.Diff.Paint.{Child, paint_comparison}
use vocagateway.Cleanup.Advice.{Cleanup, describe_cleanup}

-- The fields of the response that are read here. `none` is a field that is missing or `null`.
pub record Payload : Type 0 where
  pub cleanup : Option Cleanup
  pub original_transcript : Option Text
  pub transcript : Option Text

-- The elements that are written: the children of the two texts, the block around the plain one,
-- and the status line.
pub record Report : Type 0 where
  pub transcript : List Child
  pub original : List Child
  pub block_hidden : Bool
  pub status : Text
  pub status_hidden : Bool

abbrev pub or_empty : Option Text → Text
or_empty none = []
or_empty (some s) = s

abbrev pub is_present {ℓ} : {A : Type ℓ} → Option A → Bool
is_present none = false
is_present (some a) = true

-- `Boolean(s)` of a text.
abbrev pub is_nonempty : Text → Bool
is_nonempty s = not (text_eq s [])

unfoldable pub is_changed : Payload → Bool
is_changed p =
    is_present p.cleanup
    && is_nonempty (or_empty p.original_transcript)
    && not (text_eq (or_empty p.original_transcript) (or_empty p.transcript))

abbrev pub report : List Child → List Child → Bool → Option Cleanup → ℕ → Report
report transcript original changed cleanup edits = record {
  transcript = transcript;
  original = original;
  block_hidden = not changed;
  status = describe_cleanup cleanup edits;
  status_hidden = not (is_nonempty (describe_cleanup cleanup edits));
}

-- On a page without one of the elements, `none`, nothing is done. The outer `none` of the result is
-- a fault in the comparison, which does not happen (Diff/Results).
unfoldable pub render_cleanup_comparison : Payload → Option Report → Option (Option Report)
unfolding is_changed
render_cleanup_comparison p none = some none
render_cleanup_comparison p (some r) =
    if is_changed p
    then (do
      c ← paint_comparison (or_empty p.original_transcript) (or_empty p.transcript)
      some (some (report c.transcript c.original true p.cleanup c.edits)))
    else some (some (report r.transcript r.original false p.cleanup 0))
