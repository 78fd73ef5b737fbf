-- ===== src/Dialogs/Focus.antt =====
-- `openDialog`, `closeDialog` and the handlers that call them, of app/webui/app.js. An element is a
-- number. Where the browser itself puts the focus as a dialog is shown or closed is a parameter.
use vocagateway.Base.{ℕ, Bool, true, false, List, [], ◌∷◌, Option, none, some, if◌then◌else◌}

pub record Dialog : Type 0 where
  pub is_open : Bool
  -- `dialog.dataset.bound`: the key handler is registered
  pub bound : Bool
  -- the entry of `dialogOpener`, whose value may be null
  pub opener : Option (Option ℕ)
  -- its first element with `data-dialog-close`
  pub closer : Option ℕ

-- The two dialogs, by their ids `model-detail` and `qr-zoom`.
pub data Which : Type 0 where
  detail zoom : Which

pub record Page : Type 0 where
  -- a dialog that the open tab has not is `none`
  pub model_detail : Option Dialog
  pub qr_zoom : Option Dialog
  -- the image in the figure of `qr-zoom`
  pub figure : Option ℕ
  pub detail_opener : Option ℕ
  pub focus : Option ℕ

unfoldable pub dialog_of : Which → Page → Option Dialog
dialog_of detail p = p.model_detail
dialog_of zoom p = p.qr_zoom

unfoldable pub put_dialog : Which → Dialog → Page → Page
put_dialog detail d p = record p { model_detail = some d }
put_dialog zoom d p = record p { qr_zoom = some d }

-- `element?.focus()`, after what the browser focused.
abbrev pub focus_or : Option ℕ → Option ℕ → Option ℕ
focus_or none focused = focused
focus_or (some e) focused = some e

abbrev pub has_dialog : Option Dialog → Bool
has_dialog none = false
has_dialog (some d) = true

-- `figure.replaceChildren(source.cloneNode(true))`, where the page has the dialog with its figure.
unfoldable pub clone_image : ℕ → Page → Page
clone_image image p = if has_dialog p.qr_zoom then record p { figure = some image } else p

abbrev pub opener_of : Option (Option ℕ) → Option ℕ
opener_of none = none
opener_of (some o) = o

abbrev pub is_bound : Option Dialog → Bool
is_bound none = false
is_bound (some d) = d.bound

abbrev pub is_up : Option Dialog → Bool
is_up none = false
is_up (some d) = d.is_open

pub data Event : Type 0 where
  -- a click on a trigger `data-open-detail`
  click_detail : ℕ → Event
  -- the dialog's markup has arrived in `model-detail-body`
  swap_detail : Event
  -- a click on a trigger `data-enlarge-qr`, and the image that it holds
  click_qr : ℕ → Option ℕ → Event
  -- a click on `data-dialog-close`, on the backdrop, and a key, and whether it is Escape
  click_closer : Which → Event
  click_backdrop : Which → Event
  press : Which → Bool → Event
  -- a request of an element with `data-dialog-close-on-request`
  send_request : Event
  -- the user moves the focus
  move_focus : Option ℕ → Event

module _ (browser_focus : Option ℕ → Option ℕ) where
  unfoldable pub close_found : Which → Page → Option Dialog → Page
  unfolding put_dialog
  close_found w p none = p
  close_found w p (some d) =
      if d.is_open
      then record (put_dialog w (record d { is_open = false; opener = none }) p) {
        focus = focus_or (opener_of d.opener) (browser_focus p.focus);
      }
      else p

  unfoldable pub close_dialog : Which → Page → Page
  unfolding close_found dialog_of
  close_dialog w p = close_found w p (dialog_of w p)

  unfoldable pub open_found : Which → Option ℕ → Page → Option Dialog → Page
  unfolding put_dialog
  open_found w opener p none = p
  open_found w opener p (some d) =
      if d.is_open
      then p
      else record (put_dialog w (record d { is_open = true; bound = true; opener = some opener })
          p) { focus = focus_or d.closer (browser_focus p.focus) }

  unfoldable pub open_dialog : Which → Option ℕ → Page → Page
  unfolding open_found dialog_of
  open_dialog w opener p = open_found w opener p (dialog_of w p)

  unfoldable pub handle : Event → Page → Page
  unfolding close_dialog open_dialog dialog_of clone_image
  handle (click_detail trigger) p = record p { detail_opener = some trigger }
  handle swap_detail p = open_dialog detail p.detail_opener p
  handle (click_qr trigger none) p = p
  handle (click_qr trigger (some image)) p = open_dialog zoom (some trigger) (clone_image image p)
  handle (click_closer w) p = close_dialog w p
  handle (click_backdrop w) p = if is_up (dialog_of w p) then close_dialog w p else p
  handle (press w is_escape) p =
      if is_escape then (if is_bound (dialog_of w p) then close_dialog w p else p) else p
  handle send_request p = close_dialog detail p
  handle (move_focus element) p = record p { focus = element }

  abbrev pub run : List Event → Page → Page
  run [] p = p
  run (e ∷ es) p = run es (handle e p)
