-- ===== src/Dialogs/Examples.antt =====
-- Runs of the dialogs of app/webui/app.js, with a browser that leaves the focus where it is.
use vocagateway.Base.{ℕ, ◌≡◌, refl, true, false, List, [], ◌∷◌, Option, none, some}
use vocagateway.Dialogs.Focus.{
  Dialog, detail, Page, dialog_of, Event, click_detail, swap_detail, click_closer, click_backdrop,
  press, click_qr, send_request, move_focus, open_dialog, handle, run,
}
use vocagateway.Dialogs.Tracked.{IsTracked}
use vocagateway.Dialogs.Return.{run-IsTracked, IsReturned, move_all, open_dialog_lem}

abbrev closed : Dialog
closed = record { is_open = false; bound = false; opener = none; closer = some 7 }

abbrev models : Page
models = record {
  model_detail = some closed;
  qr_zoom = none;
  figure = none;
  detail_opener = none;
  focus = some 3;
}

abbrev stay : Option ℕ → Option ℕ
stay f = f

models-IsTracked : IsTracked models
models-IsTracked = record { detail_tracked = refl; zoom_tracked = refl }

abbrev visit : List Event
visit =
    click_detail 3
    ∷ swap_detail
    ∷ move_focus (some 9)
    ∷ press detail true
    ∷ click_qr 4 (some 6)
    ∷ send_request
    ∷ []

visit_returns : (run stay visit models).focus ≡ some 3
unfolding handle
visit_returns = refl

run-IsTracked_example : IsTracked (run stay visit models)
run-IsTracked_example = run-IsTracked stay visit models models-IsTracked

abbrev away : Page
away = move_all stay (some 9 ∷ none ∷ []) (open_dialog stay detail (some 3) models)

open_dialog_lem_example :
    IsReturned stay detail 3 (handle stay (click_closer detail) away)
    × IsReturned stay detail 3 (handle stay (click_backdrop detail) away)
    × IsReturned stay detail 3 (handle stay (press detail true) away)
unfolding dialog_of
open_dialog_lem_example = open_dialog_lem stay detail 3 models closed (some 9 ∷ none ∷ []) refl refl
