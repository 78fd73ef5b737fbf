-- ===== src/Dialogs/Tracked.antt =====
-- What a script that opens and closes dialogs remembers of them (app/webui/app.js).
use vocagateway.Base.{ℕ, ◌≡◌, refl, Bool, true, false, Option, none, some, if◌then◌else◌, arith}
use vocagateway.Dialogs.Focus.{
  Dialog, Which, detail, zoom, Page, dialog_of, put_dialog, Event, click_detail, swap_detail,
  clone_image, click_qr, click_closer, click_backdrop, press, send_request, move_focus, close_found,
  open_found, close_dialog, open_dialog, handle,
}

abbrev pub is_some {ℓ} : {A : Type ℓ} → Option A → Bool
is_some none = false
is_some (some a) = true

-- `dialogOpener` has an entry exactly for an open dialog, which listens to Escape.
abbrev pub is_tracked_dialog : Option Dialog → Bool
is_tracked_dialog none = true
is_tracked_dialog (some d) =
    if d.is_open
    then (if d.bound then is_some d.opener else false)
    else (if is_some d.opener then false else true)

pub record IsTracked (p : Page) : Type 0 where
  pub detail_tracked : is_tracked_dialog p.model_detail ≡ true
  pub zoom_tracked : is_tracked_dialog p.qr_zoom ≡ true

dialog_of-tracked : (w : Which) (p : Page) → IsTracked p → is_tracked_dialog (dialog_of w p) ≡ true
unfolding dialog_of
dialog_of-tracked detail p t = t.detail_tracked
dialog_of-tracked zoom p t = t.zoom_tracked

choose-IsTracked :
    (b : Bool) (p q : Page) → IsTracked p → IsTracked q → IsTracked (if b then p else q)
choose-IsTracked true p q s t = s
choose-IsTracked false p q s t = t

module _ (browser_focus : Option ℕ → Option ℕ) where
  put_dialog-IsTracked :
      (w : Which) (p : Page) (d : Dialog) (o : Option ℕ)
      → is_tracked_dialog (some d) ≡ true
      → IsTracked p
      → IsTracked (record (put_dialog w d p) { focus = o })
  unfolding put_dialog
  put_dialog-IsTracked detail p d o h t = record {
    detail_tracked = h;
    zoom_tracked = t.zoom_tracked;
  }
  put_dialog-IsTracked zoom p d o h t = record {
    detail_tracked = t.detail_tracked;
    zoom_tracked = h;
  }

  close_found-IsTracked :
      (w : Which) (p : Page) (o : Option Dialog)
      → IsTracked p
      → IsTracked (close_found browser_focus w p o)
  unfolding close_found
  close_found-IsTracked w p none t = t
  close_found-IsTracked w p (some d) t =
      choose-IsTracked d.is_open _ _ (put_dialog-IsTracked w p _ _ refl t) t

  close_dialog-IsTracked :
      (w : Which) (p : Page) → IsTracked p → IsTracked (close_dialog browser_focus w p)
  unfolding close_dialog
  close_dialog-IsTracked w p t = close_found-IsTracked w p (dialog_of w p) t

  open_found-IsTracked :
      (w : Which) (opener : Option ℕ) (p : Page) (o : Option Dialog)
      → IsTracked p
      → IsTracked (open_found browser_focus w opener p o)
  unfolding open_found
  open_found-IsTracked w opener p none t = t
  open_found-IsTracked w opener p (some d) t =
      choose-IsTracked d.is_open _ _ t (put_dialog-IsTracked w p _ _ refl t)

  open_dialog-IsTracked :
      (w : Which) (o : Option ℕ) (p : Page)
      → IsTracked p
      → IsTracked (open_dialog browser_focus w o p)
  unfolding open_dialog
  open_dialog-IsTracked w o p t = open_found-IsTracked w o p (dialog_of w p) t

  clone_image-IsTracked : (image : ℕ) (p : Page) → IsTracked p → IsTracked (clone_image image p)
  unfolding clone_image
  clone_image-IsTracked image p t = ground arith

  pub handle-IsTracked : (e : Event) (p : Page) → IsTracked p → IsTracked (handle browser_focus e p)
  unfolding handle
  handle-IsTracked (click_detail trigger) p t = record {
    detail_tracked = t.detail_tracked;
    zoom_tracked = t.zoom_tracked;
  }
  handle-IsTracked swap_detail p t = open_dialog-IsTracked detail p.detail_opener p t
  handle-IsTracked (click_qr trigger none) p t = t
  handle-IsTracked (click_qr trigger (some image)) p t =
      open_dialog-IsTracked zoom (some trigger) (clone_image image p)
        (clone_image-IsTracked image p t)
  handle-IsTracked (click_closer w) p t = close_dialog-IsTracked w p t
  handle-IsTracked (click_backdrop w) p t = choose-IsTracked _ _ _ (close_dialog-IsTracked w p t) t
  handle-IsTracked (press w is_escape) p t =
      choose-IsTracked is_escape _ _ (choose-IsTracked _ _ _ (close_dialog-IsTracked w p t) t) t
  handle-IsTracked send_request p t = close_dialog-IsTracked detail p t
  handle-IsTracked (move_focus element) p t = record {
    detail_tracked = t.detail_tracked;
    zoom_tracked = t.zoom_tracked;
  }
