-- ===== src/Dialogs/Return.antt =====
-- A dialog that closes gives the focus back to what opened it (app/webui/app.js).
use vocagateway.Base.{
  ℕ, ◌≡◌, refl, sym, ap, subst, ◌∙◌, true, false, List, [], ◌∷◌, Option, none, some, if◌then◌else◌,
  arith,
}
use vocagateway.Dialogs.Focus.{
  Dialog, Which, detail, zoom, Page, dialog_of, put_dialog, focus_or, opener_of, is_up, is_bound,
  Event, click_closer, click_backdrop, press, move_focus, close_found, open_found, close_dialog,
  open_dialog, handle, run,
}
use vocagateway.Dialogs.Tracked.{IsTracked, handle-IsTracked}

module _ (browser_focus : Option ℕ → Option ℕ) where
  -- After any clicks, keys, swaps and requests, the script keeps an opener exactly for a dialog
  -- that is open, and every open dialog listens to Escape.
  pub run-IsTracked :
      (es : List Event) (p : Page) → IsTracked p → IsTracked (run browser_focus es p)
  run-IsTracked [] p t = t
  run-IsTracked (e ∷ es) p t =
      run-IsTracked es (handle browser_focus e p) (handle-IsTracked browser_focus e p t)

  -- It is closed, and the focus is on the element.
  abbrev pub IsReturned : Which → ℕ → Page → Type 0
  IsReturned w o p = (p.focus ≡ some o) × (is_up (dialog_of w p) ≡ false)

  dialog_of-put_dialog :
      (w : Which) (d : Dialog) (p : Page) (f : Option ℕ)
      → dialog_of w (record (put_dialog w d p) { focus = f }) ≡ some d
  unfolding dialog_of put_dialog
  dialog_of-put_dialog detail d p f = refl
  dialog_of-put_dialog zoom d p f = refl

  dialog_of_moved :
      (w : Which) (p : Page) (f : Option ℕ) → dialog_of w (record p { focus = f }) ≡ dialog_of w p
  unfolding dialog_of
  dialog_of_moved detail p f = refl
  dialog_of_moved zoom p f = refl

  close_found_up :
      (w : Which) (p : Page) (d : Dialog)
      → d.is_open ≡ true
      → close_found browser_focus w p (some d)
        ≡ record (put_dialog w (record d { is_open = false; opener = none }) p) {
          focus = focus_or (opener_of d.opener) (browser_focus p.focus);
        }
  unfolding close_found
  close_found_up w p d up = ground arith

  close_found-IsReturned :
      (w : Which) (p : Page) (d : Dialog) (o : ℕ)
      → d.is_open ≡ true
      → d.opener ≡ some (some o)
      → IsReturned w o (close_found browser_focus w p (some d))
  close_found-IsReturned w p d o up kept =
      let same = close_found_up w p d up in
      (
        ap Page.focus same ∙ ap (λ x. focus_or (opener_of x) (browser_focus p.focus)) kept,
        ap (λ q. is_up (dialog_of w q)) same ∙ ap is_up (dialog_of-put_dialog w _ p _),
      )

  close_dialog-IsReturned :
      (w : Which) (p : Page) (d : Dialog) (o : ℕ)
      → dialog_of w p ≡ some d
      → d.is_open ≡ true
      → d.opener ≡ some (some o)
      → IsReturned w o (close_dialog browser_focus w p)
  unfolding close_dialog
  close_dialog-IsReturned w p d o there up kept =
      subst (λ x. IsReturned w o (close_found browser_focus w p x)) (sym there)
        (close_found-IsReturned w p d o up kept)

  open_found_shut :
      (w : Which) (o : Option ℕ) (p : Page) (d : Dialog)
      → d.is_open ≡ false
      → open_found browser_focus w o p (some d)
        ≡ record (put_dialog w (record d { is_open = true; bound = true; opener = some o }) p) {
          focus = focus_or d.closer (browser_focus p.focus);
        }
  unfolding open_found
  open_found_shut w o p d shut = ground arith

  open_dialog_shut :
      (w : Which) (o : Option ℕ) (p : Page) (d : Dialog)
      → dialog_of w p ≡ some d
      → d.is_open ≡ false
      → dialog_of w (open_dialog browser_focus w o p)
        ≡ some (record d { is_open = true; bound = true; opener = some o })
  unfolding open_dialog
  open_dialog_shut w o p d there shut =
      ap (λ x. dialog_of w (open_found browser_focus w o p x)) there
      ∙ ap (dialog_of w) (open_found_shut w o p d shut)
      ∙ dialog_of-put_dialog w _ p _

  abbrev pub move_all : List (Option ℕ) → Page → Page
  move_all [] p = p
  move_all (f ∷ fs) p = move_all fs (handle browser_focus (move_focus f) p)

  dialog_of-move_all :
      (w : Which) (fs : List (Option ℕ)) (p : Page) → dialog_of w (move_all fs p) ≡ dialog_of w p
  unfolding handle
  dialog_of-move_all w [] p = refl
  dialog_of-move_all w (f ∷ fs) p = dialog_of-move_all w fs _ ∙ dialog_of_moved w p f

  handle-IsReturned :
      (w : Which) (p : Page) (d : Dialog) (o : ℕ)
      → dialog_of w p ≡ some d
      → d.is_open ≡ true
      → d.bound ≡ true
      → IsReturned w o (close_dialog browser_focus w p)
      → IsReturned w o (handle browser_focus (click_closer w) p)
        × IsReturned w o (handle browser_focus (click_backdrop w) p)
        × IsReturned w o (handle browser_focus (press w true) p)
  unfolding handle
  handle-IsReturned w p d o there up bound r = (
    r,
    subst (λ b. IsReturned w o (if b then close_dialog browser_focus w p else p))
        (sym (ap is_up there ∙ up)) r,
    subst (λ b. IsReturned w o (if b then close_dialog browser_focus w p else p))
        (sym (ap is_bound there ∙ bound)) r,
  )

  -- A closed dialog that an element opens is closed by its close button, by a click on the backdrop
  -- and by Escape alike, and gives the focus back to that element, wherever it went meanwhile.
  pub open_dialog_lem :
      (w : Which) (o : ℕ) (p : Page) (d : Dialog) (fs : List (Option ℕ))
      → dialog_of w p ≡ some d
      → d.is_open ≡ false
      → IsReturned w o (
          handle browser_focus
            (click_closer w)
            (move_all fs (open_dialog browser_focus w (some o) p)))
        × IsReturned w o (
            handle browser_focus
              (click_backdrop w)
              (move_all fs (open_dialog browser_focus w (some o) p)))
        × IsReturned w o (
            handle browser_focus
              (press w true)
              (move_all fs (open_dialog browser_focus w (some o) p)))
  open_dialog_lem w o p d fs there shut =
      let q : Page = move_all fs (open_dialog browser_focus w (some o) p) in
      let opened : Dialog = record d { is_open = true; bound = true; opener = some (some o) } in
      let here : dialog_of w q ≡ some opened =
        dialog_of-move_all w fs _ ∙ open_dialog_shut w (some o) p d there shut in
      handle-IsReturned w q opened o here refl refl
        (close_dialog-IsReturned w q opened o here refl refl)
