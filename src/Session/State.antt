-- ===== src/Session/State.antt =====
-- The token, the token dialog, the toast, and the handlers that change them, in app/webui/app.js.
use vocagateway.Base.{
  ℕ, Bool, true, false, List, [], ◌∷◌, ◌++◌, Option, none, some, Text, text_eq, length, ltb, ◌==◌,
  if◌then◌else◌, codes, trim, decimal,
}

-- What a handler asks htmx for: the partial of a tab, or another partial and its target.
pub data Request : Type 0 where
  open_tab : Text → Request
  partial : Text → Text → Request

pub record Session : Type 0 where
  -- `localStorage` under the token's key
  pub token : Option Text
  pub overlay_hidden : Bool
  pub overlay_aria_hidden : Bool
  pub background_inert : Bool
  pub input : Text
  pub error : Text
  pub error_hidden : Bool
  pub toast : Text
  pub toast_is_error : Bool
  pub toast_hidden : Bool
  -- the timer that hides the toast is running
  pub toast_pending : Bool
  -- `data-tab` of the active tab, where there is one
  pub active_tab : Option Text
  pub requests : List Request

unfoldable pub get_token : Session → Text
get_token s = elim s.token [ none ↦ [] | some t ↦ t ]

-- The header that each request carries.
unfoldable pub authorization : Session → Text
unfolding get_token
authorization s = codes "Bearer " ++ get_token s

unfoldable pub show_toast : Text → Bool → Session → Session
show_toast message is_error s = record s {
  toast = message;
  toast_is_error = is_error;
  toast_hidden = false;
  toast_pending = true;
}

-- `classList.toggle("hidden", !message)`
unfoldable pub show_overlay : Text → Session → Session
show_overlay message s = record s {
  error = message;
  error_hidden = text_eq message [];
  overlay_hidden = false;
  overlay_aria_hidden = false;
  background_inert = true;
}

unfoldable pub hide_overlay : Session → Session
hide_overlay s = record s {
  overlay_hidden = true;
  overlay_aria_hidden = true;
  input = [];
  background_inert = false;
}

unfoldable pub request : List Request → Session → Session
request rs s = record s { requests = s.requests ++ rs }

-- `document.querySelector(".tab.active")?.dataset.tab || "overview"`
unfoldable pub tab_to_open : Session → Text
tab_to_open s = elim s.active_tab [
  | none ↦ codes "overview"
  | some t ↦ if text_eq t [] then codes "overview" else t
]

unfoldable pub store_token : Text → Session → Session
unfolding hide_overlay request tab_to_open
store_token token s =
    let hidden = hide_overlay (record s { token = some token }) in
    request
      (open_tab (tab_to_open hidden)
        ∷ partial (codes "/ui/partials/engine-pill") (codes "#engine-pill")
        ∷ partial (codes "/ui/partials/cleanup/pill") (codes "#cleanup-pill")
        ∷ partial (codes "/ui/partials/exposure-banner") (codes "#exposure-banner")
        ∷ [])
      hidden

-- The click on `token-save`.
unfoldable pub save_token : Session → Session
unfolding store_token show_overlay
save_token s =
    let token = trim s.input in
    if ltb (length token) 32
    then show_overlay (codes "Token must be at least 32 characters.") s
    else store_token token s

unfoldable pub forget_token : Session → Session
unfolding show_overlay
forget_token s = show_overlay (codes "Token cleared from this browser.") (record s { token = none })

-- `payload.error.message`, where the body is JSON and has one, else the status.
unfoldable pub failure_message : ℕ → Option Text → Text
failure_message status message =
    let default = codes "Request failed (" ++ decimal status ++ codes ")." in
    elim message [ none ↦ default | some m ↦ if text_eq m [] then default else m ]

unfoldable pub response_error : ℕ → Option Text → Session → Session
unfolding get_token show_overlay show_toast failure_message
response_error status message s =
    if status == 401
    then show_overlay
        (if text_eq (get_token s) []
          then []
          else codes "Token rejected. Paste the current gateway token.")
        (record s { token = none })
    else show_toast (failure_message status message) true s

-- The 401 of `pollModelProgress` and of the diagnostics download.
unfoldable pub session_expired : Session → Session
unfolding show_overlay
session_expired s =
    show_overlay (codes "Session expired. Paste the current token.") (record s { token = none })

unfoldable pub toast_timeout : Session → Session
toast_timeout s =
    if s.toast_pending then record s { toast_hidden = true; toast_pending = false } else s

-- The last lines of the script.
unfoldable pub start : Session → Session
unfolding get_token show_overlay
start s = if text_eq (get_token s) [] then show_overlay [] s else s

pub data Event : Type 0 where
  type_token : Text → Event
  save forget expired hide_toast : Event
  failed : ℕ → Option Text → Event

unfoldable pub handle : Event → Session → Session
unfolding save_token forget_token response_error session_expired toast_timeout
handle (type_token text) s = record s { input = text }
handle save s = save_token s
handle forget s = forget_token s
handle expired s = session_expired s
handle hide_toast s = toast_timeout s
handle (failed status message) s = response_error status message s
