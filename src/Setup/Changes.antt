-- ===== src/Setup/Changes.antt =====
-- What the clicks and changes in the models tab keep (app/webui/app.js).
use vocagateway.Base.{==_iff, ◌≡◌, refl, sym, ap, ◌∙◌, subst, true, Option, none, some, arith}
use vocagateway.Filters.Form.{
  clear_filters, clear_option, Form, Chrome, is_some, update_filter_chrome,
}
use vocagateway.Filters.Chrome.{update_filter_chrome_kept}
use vocagateway.Setup.Wiring.{change_form, times, listeners_of, Control, Models}
use vocagateway.Setup.Bound.{is_wired, holds, IsTrue, IsWired, update_filter_chrome-IsTrue}

pub listeners-one :
    (o : Option Control) → holds is_wired o ≡ true → is_some o ≡ true → listeners_of o ≡ 1
listeners-one none h s = absurd (cc)
listeners-one (some c) h s = ground (arith, ==_iff c.listeners 1)

form_wired : (m : Models) → IsWired m → holds is_wired m.controls.form ≡ true
form_wired m i = ground (arith, i.controls)

pub clear_wired : (m : Models) → IsWired m → holds is_wired m.controls.clear ≡ true
clear_wired m i = ground (arith, i.controls)

-- A change in the form updates the badge once.
change_form_lem :
    (f g : Form) (m : Models)
    → IsWired m
    → m.chrome.form ≡ some g
    → (change_form f m).chrome ≡ update_filter_chrome (record m.chrome { form = some f })
unfolding change_form
change_form_lem f g m i e =
    ap (λ n. times n update_filter_chrome (record m.chrome { form = some f }))
      (listeners-one m.controls.form (form_wired m i) (i.paired ∙ ap is_some e))

change_form_controls : (f : Form) (m : Models) → (change_form f m).controls ≡ m.controls
unfolding change_form
change_form_controls f m = refl

pub change_form-IsWired :
    (f g : Form) (m : Models) → IsWired m → m.chrome.form ≡ some g → IsWired (change_form f m)
unfolding change_form
change_form-IsWired f g m i e =
    let same = change_form_lem f g m i e in
    let here : Chrome = record m.chrome { form = some f } in
    record {
      controls = i.controls;
      window = i.window;
      paired =
          i.paired
          ∙ ap is_some e
          ∙ sym (
              ap (λ c. is_some (Chrome.form c)) same
              ∙ ap is_some (update_filter_chrome_kept here).0);
      chrome = subst IsTrue (sym same) (update_filter_chrome-IsTrue here);
    }

pub change_form-form :
    (f g : Form) (m : Models)
    → IsWired m
    → m.chrome.form ≡ some g
    → (change_form f m).chrome.form ≡ some f
change_form-form f g m i e =
    ap Chrome.form (change_form_lem f g m i e)
    ∙ (update_filter_chrome_kept (record m.chrome { form = some f })).0

is_some-clear_option : (o : Option Form) → is_some (clear_option o) ≡ is_some o
is_some-clear_option none = refl
is_some-clear_option (some f) = refl

-- Clearing all filters once.
clear_filters-IsTrue : (c : Chrome) → IsTrue (clear_filters c)
unfolding clear_filters
clear_filters-IsTrue c = update_filter_chrome-IsTrue (record c { form = clear_option c.form })

clear_filters-form : (c : Chrome) → is_some (clear_filters c).form ≡ is_some c.form
unfolding clear_filters
clear_filters-form c =
    ap is_some (update_filter_chrome_kept (record c { form = clear_option c.form })).0
    ∙ is_some-clear_option c.form

pub times-clear :
    (o : Option Control) (c : Chrome)
    → holds is_wired o ≡ true
    → IsTrue c
    → IsTrue (times (listeners_of o) clear_filters c)
      × (is_some (times (listeners_of o) clear_filters c).form ≡ is_some c.form)
times-clear none c h t = (t, refl)
times-clear (some k) c h t =
    let once : times k.listeners clear_filters c ≡ clear_filters c =
      ap (λ n. times n clear_filters c) (listeners-one (some k) h refl) in
    (
      subst IsTrue (sym once) (clear_filters-IsTrue c),
      ap (λ x. is_some (Chrome.form x)) once ∙ clear_filters-form c,
    )
