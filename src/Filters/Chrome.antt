-- ===== src/Filters/Chrome.antt =====
-- What the badge of the filters tells (app/webui/app.js).
use vocagateway.Base.{
  ℕ, ◌≡◌, ◌↔◌, refl, sym, subst, ap, ◌∙◌, Bool, true, false, not, List, [], ◌∷◌, Option, none, some,
  Text, ◌==◌, ==_iff, if◌then◌else◌, decimal, value_from, value-decimal, arith, Bool-cases,
  Option-cases, inl, inr,
}
use vocagateway.Filters.Form.{
  Check, Form, Badge, Chrome, put_flag, checked_filter_values, current_model_filters, count_filters,
  update_filter_chrome, uncheck, uncheck_and_show, clear_form, clear_filters, non_empty, is_checked,
  empty_select, clear_option,
}
use vocagateway.Filters.Count.{unfiltered, IsCount, count_filters-zero, count_filters-IsCount}

checked_filter_values-uncheck : (cs : List Check) → checked_filter_values (uncheck cs) ≡ []
unfolding checked_filter_values uncheck
checked_filter_values-uncheck [] = refl
checked_filter_values-uncheck (c ∷ cs) = checked_filter_values-uncheck cs

checked_filter_values-uncheck_and_show :
    (cs : List Check) → checked_filter_values (uncheck_and_show cs) ≡ []
unfolding checked_filter_values uncheck_and_show
checked_filter_values-uncheck_and_show [] = refl
checked_filter_values-uncheck_and_show (c ∷ cs) = checked_filter_values-uncheck_and_show cs

non_empty-empty_select : (o : Option Text) → non_empty (empty_select o) ≡ none
non_empty-empty_select none = refl
non_empty-empty_select (some _) = refl

is_checked-put_flag : (o : Option Bool) → is_checked (put_flag false o) ≡ false
is_checked-put_flag none = refl
is_checked-put_flag (some _) = refl

clear_form-unfiltered : (f : Form) → current_model_filters (some (clear_form f)) ≡ unfiltered
unfolding clear_form current_model_filters
clear_form-unfiltered f =
    let a = checked_filter_values-uncheck f.families in
    let b = checked_filter_values-uncheck_and_show f.languages in
    let c = checked_filter_values-uncheck f.engines in
    let d = non_empty-empty_select f.max_size in
    let e = is_checked-put_flag f.installed_only in
    let g = is_checked-put_flag f.recommended_only in cc

clear_option-unfiltered : (o : Option Form) → current_model_filters (clear_option o) ≡ unfiltered
unfolding current_model_filters
clear_option-unfiltered none = refl
clear_option-unfiltered (some f) = clear_form-unfiltered f

abbrev badge_of : ℕ → Badge
badge_of count = record { text = if count == 0 then [] else decimal count; hidden = count == 0 }

update_filter_chrome_badge :
    (c : Chrome) (b : Badge)
    → c.badge ≡ some b
    → ((update_filter_chrome c).badge
        ≡ some (badge_of (count_filters (current_model_filters c.form))))
      × ((update_filter_chrome c).rail_active
          ≡ put_flag (not (count_filters (current_model_filters c.form) == 0)) c.rail_active)
      × ((update_filter_chrome c).toggle_active
          ≡ put_flag (not (count_filters (current_model_filters c.form) == 0)) c.toggle_active)
unfolding update_filter_chrome
update_filter_chrome_badge c b e = (ground arith, ground arith, ground arith)

pub update_filter_chrome_kept :
    (c : Chrome)
    → ((update_filter_chrome c).form ≡ c.form) × ((update_filter_chrome c).requests ≡ c.requests)
unfolding update_filter_chrome
update_filter_chrome_kept c = elim (Option-cases c.badge) [
  | inl e ↦ (ground arith, ground arith)
  | inr (b, e) ↦ (ground arith, ground arith)
]

badge_of-text : (n : ℕ) → value_from 0 (badge_of n).text ≡ n
unfolding value_from
badge_of-text n = elim (Bool-cases (n == 0)) [
  | inl e ↦ ground (arith, ==_iff n 0)
  | inr e ↦ ground (arith, value-decimal n)
]

-- The badge is hidden exactly when a request for the list would carry no filter; otherwise it
-- shows how many of the six filters are set, and then alone the rail and its toggle are marked.
pub update_filter_chrome_lem :
    (c : Chrome) (b : Badge)
    → c.badge ≡ some b
    → (d : Badge) × ((update_filter_chrome c).badge ≡ some d)
      × ((d.hidden ≡ true) ↔ (current_model_filters c.form ≡ unfiltered))
      × IsCount (current_model_filters c.form) (value_from 0 d.text)
      × ((update_filter_chrome c).rail_active ≡ put_flag (not d.hidden) c.rail_active)
      × ((update_filter_chrome c).toggle_active ≡ put_flag (not d.hidden) c.toggle_active)
update_filter_chrome_lem c b e =
    let q = current_model_filters c.form in
    let (badge, rail, toggle) = update_filter_chrome_badge c b e in
    (
      badge_of (count_filters q),
      badge,
      (
        λ h. (count_filters-zero q).0 ((==_iff (count_filters q) 0).0 h),
        λ h. (==_iff (count_filters q) 0).1 ((count_filters-zero q).1 h),
      ),
      subst (IsCount q) (sym (badge_of-text (count_filters q))) (count_filters-IsCount q),
      rail,
      toggle,
    )

clear_filters_update :
    (c : Chrome)
    → (clear_filters c).requests
      ≡ current_model_filters (update_filter_chrome (record c { form = clear_option c.form })).form
        ∷ (update_filter_chrome (record c { form = clear_option c.form })).requests
unfolding clear_filters
clear_filters_update c = refl

clear_filters_badge :
    (c : Chrome)
    → (clear_filters c).badge
      ≡ (update_filter_chrome (record c { form = clear_option c.form })).badge
unfolding clear_filters
clear_filters_badge c = refl

-- Clearing asks for the whole list, once, and hides the badge.
pub clear_filters_lem :
    (c : Chrome) (b : Badge)
    → c.badge ≡ some b
    → ((clear_filters c).requests ≡ unfiltered ∷ c.requests)
      × ((d : Badge) × ((clear_filters c).badge ≡ some d) × (d.hidden ≡ true) × (d.text ≡ []))
clear_filters_lem c b e =
    let cleared : Chrome = record c { form = clear_option c.form } in
    let none_set = clear_option-unfiltered c.form in
    let (form, requests) = update_filter_chrome_kept cleared in
    let (badge, rail, toggle) = update_filter_chrome_badge cleared b e in
    let zero_set : count_filters (current_model_filters cleared.form) ≡ 0 =
      (count_filters-zero _).1 none_set in
    (
      clear_filters_update c
          ∙ ap (λ o. current_model_filters o ∷ (update_filter_chrome cleared).requests) form
          ∙ ap (λ q. q ∷ (update_filter_chrome cleared).requests) none_set
          ∙ ap (unfiltered ∷◌) requests,
      (
        badge_of 0,
        clear_filters_badge c ∙ badge ∙ ap (λ n. some (badge_of n)) zero_set,
        refl,
        refl,
      ),
    )
