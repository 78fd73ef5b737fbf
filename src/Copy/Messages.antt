-- ===== src/Copy/Messages.antt =====
-- The downloads and copies that end in a toast: `download-diagnostics`, `copy-new-token` and
-- `copy-transcript`, of app/webui/app.js.
use vocagateway.Base.{
  ◌≡◌, ◌≢◌, refl, Bool, true, false, ◌||◌, List, [], ◌∷◌, ◌++◌, Option, none, some, Text, ◌==◌,
  if◌then◌else◌, codes, map,
}
use vocagateway.Session.State.{Session, show_toast, session_expired}

-- What comes of the request for the diagnostics: the request or the decoding throws, with the
-- error's message; the token is refused; the answer is not ok, with the message of its error where
-- it has one; or it is a report, of the time when it was made.
pub data Diagnostics : Type 0 where
  threw : Text → Diagnostics
  unauthorized : Diagnostics
  refused : Option Text → Diagnostics
  report : Text → Diagnostics

pub record Download : Type 0 where
  pub session : Session
  -- the names of the files that were downloaded, the last one first
  pub files : List Text

-- `.replace(/[:.]/g, "-")`
unfoldable pub colons_and_dots : Text → Text
colons_and_dots t = map (λ c. if c == b':' || c == b'.' then b'-' else c) t

unfoldable pub file_name : Text → Text
unfolding colons_and_dots
file_name generated_at =
    codes "vocagateway-diagnostics-" ++ colons_and_dots generated_at ++ codes ".json"

abbrev pub or_default : Text → Option Text → Text
or_default default none = default
or_default default (some []) = default
or_default default (some (c ∷ m)) = c ∷ m

unfoldable pub fail_download : Text → Download → Download
unfolding show_toast
fail_download message d = record d {
  session =
      show_toast (or_default (codes "Could not download diagnostics.") (some message)) true
        d.session;
}

unfoldable pub download_diagnostics : Diagnostics → Download → Download
unfolding fail_download show_toast session_expired file_name
download_diagnostics (threw message) d = fail_download message d
download_diagnostics unauthorized d = record d { session = session_expired d.session }
download_diagnostics (refused message) d =
    fail_download (or_default (codes "Diagnostics failed.") message) d
download_diagnostics (report generated_at) d = record {
  session = show_toast (codes "Diagnostics downloaded.") false d.session;
  files = file_name generated_at ∷ d.files;
}

-- The two copies, by whether the clipboard takes the text.
unfoldable pub copy_new_token : Bool → Session → Session
unfolding show_toast
copy_new_token copied s =
    if copied
    then show_toast (codes "Token copied.") false s
    else show_toast (codes "Could not copy. Select the token and copy manually.") true s

unfoldable pub copy_transcript : Bool → Session → Session
unfolding show_toast
copy_transcript copied s =
    if copied
    then show_toast (codes "Transcript copied.") false s
    else show_toast (codes "Could not copy. Select the transcript and copy manually.") true s

-- Told at once: an error in a red toast that is never empty, or the dialog for the token; a file
-- only where there is a report.
abbrev pub IsTold : Diagnostics → Download → Download → Type 0
IsTold unauthorized d u =
    (u.session.token ≡ none) × (u.session.overlay_hidden ≡ false) × (u.files ≡ d.files)
IsTold (report generated_at) d u =
    (u.session.toast_is_error ≡ false)
    × (u.session.token ≡ d.session.token)
    × (u.files
        ≡ (codes "vocagateway-diagnostics-" ++ colons_and_dots generated_at ++ codes ".json")
          ∷ d.files)
IsTold (threw message) d u =
    (u.session.toast_is_error ≡ true)
    × (u.session.toast ≢ [])
    × (u.session.toast_hidden ≡ false)
    × (u.session.token ≡ d.session.token)
    × (u.files ≡ d.files)
IsTold (refused message) d u =
    (u.session.toast_is_error ≡ true)
    × (u.session.toast ≢ [])
    × (u.session.toast_hidden ≡ false)
    × (u.session.token ≡ d.session.token)
    × (u.files ≡ d.files)

or_default_ne : (default : Text) (o : Option Text) → default ≢ [] → or_default default o ≢ []
or_default_ne default none h = h
or_default_ne default (some []) h = h
or_default_ne default (some (c ∷ m)) h = λ e. cc

-- Each answer to the request for the diagnostics is told at once. A failure shows a message, never
-- an empty one, as an error, and neither drops the token nor downloads a file; a refused token asks
-- for another; a report is downloaded, once, under a name with its time.
pub download_diagnostics-IsTold :
    (a : Diagnostics) (d : Download) → IsTold a d (download_diagnostics a d)
unfolding download_diagnostics
download_diagnostics-IsTold (threw message) d = (
  refl,
  or_default_ne (codes "Could not download diagnostics.") (some message) (λ e. cc),
  refl,
  refl,
  refl,
)
download_diagnostics-IsTold unauthorized d = (refl, refl, refl)
download_diagnostics-IsTold (refused message) d = (
  refl,
  or_default_ne (codes "Could not download diagnostics.")
      (some (or_default (codes "Diagnostics failed.") message)) (λ e. cc),
  refl,
  refl,
  refl,
)
download_diagnostics-IsTold (report generated_at) d = (refl, refl, refl)
