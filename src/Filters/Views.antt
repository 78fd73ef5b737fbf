-- ===== src/Filters/Views.antt =====
-- `syncModelViews` and the click on a view of the models tab, of app/webui/app.js.
use vocagateway.Base.{
  ℕ, suc, ◌≡◌, refl, Bool, true, false, not, ◌&&◌, if◌then◌else◌, arith, ◌↔◌, ap, sym, subst, ◌∙◌,
  Bool-cases, inl, inr,
}

-- The values of `data-model-view` (app/templates/models/page.html).
pub data View : Type 0 where
  all recommended installed : View

pub record Views : Type 0 where
  -- the two checkboxes
  pub installed_checked : Bool
  pub recommended_checked : Bool
  -- `aria-pressed` of the view's button
  pub pressed : View → Bool
  -- how many "change" events were sent, each of which refetches the list
  pub changes : ℕ

abbrev pub is_installed : View → Bool
is_installed View.installed = true
is_installed View.recommended = false
is_installed View.all = false

abbrev pub is_recommended : View → Bool
is_recommended View.recommended = true
is_recommended View.installed = false
is_recommended View.all = false

abbrev pub same : Bool → Bool → Bool
same true b = b
same false b = not b

unfoldable pub is_pressed : Bool → Bool → View → Bool
is_pressed in_box rec_box View.all = not in_box && not rec_box
is_pressed in_box rec_box View.installed = in_box && not rec_box
is_pressed in_box rec_box View.recommended = rec_box && not in_box

unfoldable pub sync_model_views : Views → Views
unfolding is_pressed
sync_model_views s = record s { pressed = is_pressed s.installed_checked s.recommended_checked }

unfoldable pub click_view : View → Views → Views
unfolding sync_model_views
click_view view s =
    if same s.installed_checked (is_installed view)
      && same s.recommended_checked (is_recommended view)
    then s
    else sync_model_views (record s {
      installed_checked = is_installed view;
      recommended_checked = is_recommended view;
      changes = suc s.changes;
    })

abbrev pub is_view : View → View → Bool
is_view View.all v = not (is_installed v) && not (is_recommended v)
is_view View.installed v = is_installed v
is_view View.recommended v = is_recommended v

is_pressed_lem : (v w : View) → is_pressed (is_installed v) (is_recommended v) w ≡ is_view v w
unfolding is_pressed
is_pressed_lem View.all View.all = refl
is_pressed_lem View.all View.recommended = refl
is_pressed_lem View.all View.installed = refl
is_pressed_lem View.recommended View.all = refl
is_pressed_lem View.recommended View.recommended = refl
is_pressed_lem View.recommended View.installed = refl
is_pressed_lem View.installed View.all = refl
is_pressed_lem View.installed View.recommended = refl
is_pressed_lem View.installed View.installed = refl

-- The buttons show what the checkboxes say.
abbrev pub IsSynced : Views → Type 0
IsSynced s = (w : View) → s.pressed w ≡ is_pressed s.installed_checked s.recommended_checked w

same_iff : (a b : Bool) → (same a b ≡ true) ↔ (a ≡ b)
same_iff true true = ground arith
same_iff true false = ground arith
same_iff false true = ground arith
same_iff false false = ground arith

abbrev pub is_current : View → Views → Bool
is_current view s =
    same s.installed_checked (is_installed view) && same s.recommended_checked (is_recommended view)

click_view_kept : (view : View) (s : Views) → is_current view s ≡ true → click_view view s ≡ s
unfolding click_view
click_view_kept view s e = ground arith

abbrev picked : View → Views → Views
picked view s = sync_model_views (record s {
  installed_checked = is_installed view;
  recommended_checked = is_recommended view;
  changes = suc s.changes;
})

click_view_moved :
    (view : View) (s : Views) → is_current view s ≡ false → click_view view s ≡ picked view s
unfolding click_view
click_view_moved view s e = ground arith

picked_lem : (view w : View) (s : Views) → (picked view s).pressed w ≡ is_view view w
unfolding sync_model_views
picked_lem view w s = is_pressed_lem view w

picked_boxes :
    (view : View) (s : Views)
    → ((picked view s).installed_checked ≡ is_installed view)
      × ((picked view s).recommended_checked ≡ is_recommended view)
      × ((picked view s).changes ≡ suc s.changes)
unfolding sync_model_views
picked_boxes view s = (refl, refl, refl)

current_boxes :
    (view : View) (s : Views)
    → is_current view s ≡ true
    → (s.installed_checked ≡ is_installed view) × (s.recommended_checked ≡ is_recommended view)
current_boxes view s e = (
  (same_iff s.installed_checked (is_installed view)).0 (ground arith),
  (same_iff s.recommended_checked (is_recommended view)).0 (ground arith),
)

picked-IsSynced : (view : View) (s : Views) → IsSynced (picked view s)
unfolding sync_model_views
picked-IsSynced view s w = refl

pub click_view-IsSynced :
    (view : View) (s : Views) → is_current view s ≡ false → IsSynced (click_view view s)
click_view-IsSynced view s e w =
    subst (λ v. v.pressed w ≡ is_pressed v.installed_checked v.recommended_checked w)
      (sym (click_view_moved view s e)) (picked-IsSynced view s w)

-- Where the buttons show what the checkboxes say, a click on a view leaves that view's button
-- pressed and no other, sets the checkboxes to it, and refetches the list once, or not at all
-- where the view was chosen already.
pub click_view_lem :
    (view : View) (s : Views)
    → IsSynced s
    → ((w : View) → (click_view view s).pressed w ≡ is_view view w)
      × ((click_view view s).installed_checked ≡ is_installed view)
      × ((click_view view s).recommended_checked ≡ is_recommended view)
      × ((click_view view s).changes ≡ (if is_current view s then s.changes else suc s.changes))
click_view_lem view s synced = elim (Bool-cases (is_current view s)) [
  | inl e ↦
      let kept = click_view_kept view s e in
      let (i, r) = current_boxes view s e in
      (
        λ w.
            ap (λ v. Views.pressed v w) kept
            ∙ synced w
            ∙ ap (λ b. is_pressed b s.recommended_checked w) i
            ∙ ap (λ b. is_pressed (is_installed view) b w) r
            ∙ is_pressed_lem view w,
        ap Views.installed_checked kept ∙ i,
        ap Views.recommended_checked kept ∙ r,
        ap Views.changes kept ∙ sym (ap (λ b. if b then s.changes else suc s.changes) e),
      )
  | inr e ↦
      let moved = click_view_moved view s e in
      let (i, r, n) = picked_boxes view s in
      (
        λ w. ap (λ v. Views.pressed v w) moved ∙ picked_lem view w s,
        ap Views.installed_checked moved ∙ i,
        ap Views.recommended_checked moved ∙ r,
        ap Views.changes moved ∙ n ∙ sym (ap (λ b. if b then s.changes else suc s.changes) e),
      )
]
