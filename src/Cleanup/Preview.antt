-- ===== src/Cleanup/Preview.antt =====
-- `runCleanupPreview` and `paintPreview` of app/webui/app.js: the try-it box of the Cleanup tab.
use vocagateway.Base.{
  Bool, true, false, List, [], ◌∷◌, Option, none, some, Text, text_eq, ◌>>=◌, if◌then◌else◌, codes,
  trim,
}
use vocagateway.Diff.Paint.{Child, text_node, paint_comparison}
use vocagateway.Cleanup.Advice.{Cleanup, describe_cleanup}

pub record PreviewPayload : Type 0 where
  pub cleanup : Option Cleanup
  pub without_cleanup : Text
  pub transcript : Text

-- What the request ends in: an exception of `fetch` or of the body's decoding, with its message and
-- its text, a response that is not ok, or a payload.
pub data Reply : Type 0 where
  thrown : Text → Text → Reply
  not_ok : Reply
  answer : PreviewPayload → Reply

pub record Preview : Type 0 where
  pub after : List Child
  pub before : List Child
  pub status : Text
  pub result_hidden : Bool
  pub error : Text
  pub error_hidden : Bool
  pub button_disabled : Bool
  pub button : Text

-- `textContent = s` leaves one text node, or none for the empty text.
abbrev pub text_content : Text → List Child
text_content s = if text_eq s [] then [] else text_node s ∷ []

unfoldable pub paint_preview : PreviewPayload → Preview → Option Preview
paint_preview p v =
    if text_eq p.without_cleanup p.transcript
    then some (record v {
      after = text_content p.transcript;
      before = text_content p.without_cleanup;
      status = describe_cleanup p.cleanup 0;
    })
    else (do
      c ← paint_comparison p.without_cleanup p.transcript
      some (record v {
        after = c.transcript;
        before = c.original;
        status = describe_cleanup p.cleanup c.edits;
      }))

-- Up to the request. A blank text only moves the focus, and sends nothing: `none`.
unfoldable pub begin_preview : Text → Preview → Option (Text × Preview)
begin_preview input v =
    let text = trim input in
    if text_eq text []
    then none
    else some (text, record v { button_disabled = true; button = codes "Correcting…" })

-- `error.message || error`, as a text.
abbrev pub error_text : Text → Text → Text
error_text message text = if text_eq message [] then text else message

abbrev pub show_error : Text → Preview → Preview
show_error message v = record v { error = message; error_hidden = false; result_hidden = true }

-- The `finally` block.
abbrev pub release_button : Preview → Preview
release_button v = record v { button_disabled = false; button = codes "Correct this text" }

-- From the reply on. `none` is a fault in the comparison, which does not happen.
unfoldable pub finish_preview : Reply → Preview → Option Preview
unfolding paint_preview
finish_preview (thrown message text) v =
    some (release_button (show_error (error_text message text) v))
finish_preview not_ok v =
    some (release_button (show_error (codes "The gateway could not run that correction.") v))
finish_preview (answer p) v = do
  painted ← paint_preview p v
  some (release_button (record painted { result_hidden = false; error_hidden = true }))
