-- ===== src/Setup/Once.antt =====
-- However often the models tab of app/webui/app.js is set up, a click or a change there is handled
-- once.
use vocagateway.Base.{
  Bool-cases, false, ◌≡◌, refl, sym, ap, ◌∙◌, subst, Bool, true, List, [], ◌∷◌, Option, none, some,
  arith, Option-cases, inl, inr,
}
use vocagateway.Filters.Form.{Form, Chrome, is_some}
use vocagateway.Filters.Chrome.{update_filter_chrome_kept}
use vocagateway.Filters.Views.{
  View, is_pressed, is_current, click_view, click_view-IsSynced, IsSynced, sync_model_views,
}
use vocagateway.Setup.Wiring.{
  fresh_if, can_click, picked_form, click_in, click_model_view, views_of, click_clear, click_button,
  is_installed_only, is_recommended_only, change_form, Models, init_model_filters, Served,
  served_controls, Event, swap_panel, swap_list, change, put_panel, handle, run,
}
use vocagateway.Rail.Collapse.{Rail}
use vocagateway.Families.Grid.{Grid}
use vocagateway.Setup.Bound.{
  IsWired, of_all-is_ready, served_controls-is_ready, init_model_filters-IsWired,
}
use vocagateway.Setup.Changes.{change_form-IsWired, change_form-form, clear_wired, times-clear}

click_model_view_kept :
    (view : View) (m : Models) (f : Form)
    → m.chrome.form ≡ some f
    → can_click view f m ≡ false
    → click_model_view view m ≡ m
unfolding click_model_view click_in
click_model_view_kept view m f e c = ap (λ o. click_in view o m) e ∙ rw c refl

click_model_view_moved :
    (view : View) (m : Models) (f : Form)
    → m.chrome.form ≡ some f
    → can_click view f m ≡ true
    → click_model_view view m ≡ record (change_form (picked_form view f m) m) {
      pressed = (click_view view (views_of m)).pressed;
      changes = (click_view view (views_of m)).changes;
    }
unfolding click_model_view click_in
click_model_view_moved view m f e c = ap (λ o. click_in view o m) e ∙ rw c refl

click_model_view-none :
    (view : View) (m : Models) → m.chrome.form ≡ none → click_model_view view m ≡ m
unfolding click_model_view click_in
click_model_view-none view m e = ap (λ o. click_in view o m) e

-- Wired, and where the tab is settled its views show what the checkboxes of the form say.
record IsKept (settled : Bool) (m : Models) : Type 0 where
  wired : IsWired m
  synced : settled ≡ true → IsSynced (views_of m)

click_model_view-IsKept :
    (settled : Bool) (view : View) (m : Models)
    → IsKept settled m
    → IsKept settled (click_model_view view m)
click_model_view-IsKept settled view m i = elim (Option-cases m.chrome.form) [
  | inl e ↦ subst (IsKept settled) (sym (click_model_view-none view m e)) i
  | inr (f, e) ↦ elim (Bool-cases (can_click view f m)) [
    | inr c ↦ subst (IsKept settled) (sym (click_model_view_kept view m f e c)) i
    | inl c ↦
        let fresh : is_current view (views_of m) ≡ false = ground (arith, c) in
        let changed = change_form-IsWired (picked_form view f m) f m i.wired e in
        let boxes = change_form-form (picked_form view f m) f m i.wired e in
        subst (IsKept settled) (sym (click_model_view_moved view m f e c)) (record {
          wired = record {
            controls = changed.controls;
            window = changed.window;
            paired = changed.paired;
            chrome = changed.chrome;
          };
          synced = λ h w.
              click_view-IsSynced view (views_of m) fresh w
              ∙ ap (λ o. is_pressed (is_installed_only o) (is_recommended_only o) w) (sym boxes);
        })
  ]
]

init-IsSynced : (m : Models) → IsSynced (views_of (init_model_filters m))
unfolding init_model_filters sync_model_views
init-IsSynced m w =
    ap (λ o. is_pressed (is_installed_only o) (is_recommended_only o) w)
      (sym (update_filter_chrome_kept m.chrome).0)

-- Whether a set-up came after the last change or clearing of the form, clicks on views aside.
abbrev pub is_settled : Bool → List Event → Bool
is_settled d [] = d
is_settled d (swap_panel served pressed rail chrome grid ∷ es) = is_settled true es
is_settled d (swap_list grid ∷ es) = is_settled true es
is_settled d (change f ∷ es) = is_settled false es
is_settled d (click_clear ∷ es) = is_settled false es
is_settled d (click_button view ∷ es) = is_settled d es

is_some-fresh_if : (o : Option Form) → is_some (fresh_if (is_some o)) ≡ is_some o
is_some-fresh_if none = refl
is_some-fresh_if (some f) = refl

change_none : (f : Form) (m : Models) → m.chrome.form ≡ none → handle (change f) m ≡ m
unfolding handle
change_none f m e = rw e refl

change_some :
    (f g : Form) (m : Models) → m.chrome.form ≡ some g → handle (change f) m ≡ change_form f m
unfolding handle
change_some f g m e = rw e refl

click_button-IsKept :
    (settled : Bool) (view : View) (m : Models)
    → IsKept settled m
    → IsKept settled (handle (click_button view) m)
unfolding handle
click_button-IsKept settled view m i = click_model_view-IsKept settled view m i

swap_panel-IsKept :
    (served : Served) (pressed : View → Bool) (rail : Rail) (chrome : Chrome) (grid : Option Grid)
    (m : Models)
    → IsWired m
    → IsKept true (handle (swap_panel served pressed rail chrome grid) m)
unfolding handle served_controls
swap_panel-IsKept served pressed rail chrome grid m i = record {
  wired =
      init_model_filters-IsWired (put_panel served pressed rail chrome grid m)
        (served_controls-is_ready served chrome.form) i.window (is_some-fresh_if chrome.form);
  synced = λ h. init-IsSynced (put_panel served pressed rail chrome grid m);
}

swap_list-IsKept :
    (grid : Option Grid) (m : Models) → IsWired m → IsKept true (handle (swap_list grid) m)
unfolding handle
swap_list-IsKept grid m i = record {
  wired =
      init_model_filters-IsWired (record m { grid = grid }) (of_all-is_ready m.controls i.controls)
        i.window i.paired;
  synced = λ h. init-IsSynced (record m { grid = grid });
}

change-IsWired : (f : Form) (m : Models) → IsWired m → IsWired (handle (change f) m)
unfolding handle
change-IsWired f m i = elim (Option-cases m.chrome.form) [
  | inl e ↦ subst IsWired (sym (change_none f m e)) i
  | inr (g, e) ↦ subst IsWired (sym (change_some f g m e)) (change_form-IsWired f g m i e)
]

clear-IsWired : (m : Models) → IsWired m → IsWired (handle click_clear m)
unfolding handle
clear-IsWired m i =
    let (true_badge, form) = times-clear m.controls.clear m.chrome (clear_wired m i) i.chrome in
    record {
      controls = i.controls;
      window = i.window;
      paired = i.paired ∙ sym form;
      chrome = true_badge;
    }

run-IsKept :
    (es : List Event) (d : Bool) (m : Models) → IsKept d m → IsKept (is_settled d es) (run es m)
run-IsKept [] d m i = i
run-IsKept (swap_panel served pressed rail chrome grid ∷ es) d m i =
    run-IsKept es true _ (swap_panel-IsKept served pressed rail chrome grid m i.wired)
run-IsKept (swap_list grid ∷ es) d m i = run-IsKept es true _ (swap_list-IsKept grid m i.wired)
run-IsKept (change f ∷ es) d m i =
    run-IsKept es false (handle (change f) m)
      (record { wired = change-IsWired f m i.wired; synced = λ h. absurd (cc) })
run-IsKept (click_clear ∷ es) d m i =
    run-IsKept es false (handle click_clear m)
      (record { wired = clear-IsWired m i.wired; synced = λ h. absurd (cc) })
run-IsKept (click_button view ∷ es) d m i =
    run-IsKept es d (handle (click_button view) m) (click_button-IsKept d view m i)

-- However panels and lists are swapped in, filters are changed or cleared and views are clicked,
-- from a set-up page on: each control of the models tab is marked and has its listener once, the
-- window at most once, and the badge is hidden exactly where no filter is set. Once a panel or list
-- was swapped in after the last change and the last clearing, the buttons of the views show what
-- the checkboxes of the form say, also after clicks on views.
pub run-IsWired :
    (es : List Event) (m : Models)
    → IsWired m
    → IsWired (run es m) × (is_settled false es ≡ true → IsSynced (views_of (run es m)))
run-IsWired es m i =
    let kept = run-IsKept es false m (record { wired = i; synced = λ h. absurd (cc) }) in
    (kept.wired, kept.synced)
