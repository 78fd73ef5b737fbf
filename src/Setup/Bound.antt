-- ===== src/Setup/Bound.antt =====
-- A set-up of the models tab marks each control and registers its listener once
-- (`initModelFilters` of app/webui/app.js).
use vocagateway.Base.{
  ℕ, zero, suc, ◌≡◌, refl, sym, ap, ◌∙◌, subst, ◌↔◌, Bool, true, ◌&&◌, List, [], ◌∷◌, Option, none,
  some, ◌==◌, if◌then◌else◌, arith, Option-cases, inl, inr,
}
use vocagateway.Filters.Form.{
  Form, Badge, Chrome, is_some, update_filter_chrome, current_model_filters,
}
use vocagateway.Filters.Count.{unfiltered}
use vocagateway.Filters.Chrome.{update_filter_chrome_kept, update_filter_chrome_lem}
use vocagateway.Setup.Wiring.{
  Control, bind, bind_option, bind_each, Controls, Models, bind_controls, init_model_filters,
  Served, fresh_each, served_controls,
}

-- Marked, with its listener registered once; or as it is served.
abbrev pub is_wired : Control → Bool
is_wired c = c.bound && c.listeners == 1

abbrev pub is_ready : Control → Bool
is_ready c = if c.bound then c.listeners == 1 else c.listeners == 0

abbrev pub holds : (Control → Bool) → Option Control → Bool
holds p none = true
holds p (some c) = p c

abbrev pub hold : (Control → Bool) → List Control → Bool
hold p [] = true
hold p (c ∷ cs) = p c && hold p cs

-- A property of each of the elements.
abbrev pub of_all : (Control → Bool) → Controls → Bool
of_all p c =
    holds p c.clear
    && holds p c.form
    && holds p c.rail_toggle
    && holds p c.side_collapse
    && holds p c.expand_toggle
    && holds p c.list
    && hold p c.searches

-- The badge is hidden exactly where no filter is set.
abbrev pub IsTrue : Chrome → Type 0
IsTrue c =
    (b : Badge) → c.badge ≡ some b → (b.hidden ≡ true) ↔ (current_model_filters c.form ≡ unfiltered)

pub record IsWired (m : Models) : Type 0 where
  pub controls : of_all is_wired m.controls ≡ true
  pub window : is_ready m.window ≡ true
  pub paired : is_some m.controls.form ≡ is_some m.chrome.form
  pub chrome : IsTrue m.chrome

bind-is_wired : (c : Control) → is_ready c ≡ true → is_wired (bind c) ≡ true
bind-is_wired c h = ground arith

bind_option-is_wired :
    (o : Option Control) → holds is_ready o ≡ true → holds is_wired (bind_option o) ≡ true
bind_option-is_wired none h = refl
bind_option-is_wired (some c) h = bind-is_wired c h

bind_each-is_wired :
    (cs : List Control) → hold is_ready cs ≡ true → hold is_wired (bind_each cs) ≡ true
unfolding bind_each
bind_each-is_wired [] h = refl
bind_each-is_wired (c ∷ cs) h = ground (arith, bind-is_wired c, bind_each-is_wired cs)

bind_controls-is_wired :
    (c : Controls) → of_all is_ready c ≡ true → of_all is_wired (bind_controls c) ≡ true
unfolding bind_controls
bind_controls-is_wired c h = ground (
  arith,
  bind_option-is_wired c.clear,
  bind_option-is_wired c.form,
  bind_option-is_wired c.rail_toggle,
  bind_option-is_wired c.side_collapse,
  bind_option-is_wired c.expand_toggle,
  bind_option-is_wired c.list,
  bind_each-is_wired c.searches,
)

-- A wired control is as ready for another set-up as a fresh one.
holds-is_ready : (o : Option Control) → holds is_wired o ≡ true → holds is_ready o ≡ true
holds-is_ready none h = refl
holds-is_ready (some c) h = ground arith

hold-is_ready : (cs : List Control) → hold is_wired cs ≡ true → hold is_ready cs ≡ true
hold-is_ready [] h = refl
hold-is_ready (c ∷ cs) h = ground (arith, hold-is_ready cs)

pub of_all-is_ready : (c : Controls) → of_all is_wired c ≡ true → of_all is_ready c ≡ true
of_all-is_ready c h = ground (
  arith,
  holds-is_ready c.clear,
  holds-is_ready c.form,
  holds-is_ready c.rail_toggle,
  holds-is_ready c.side_collapse,
  holds-is_ready c.expand_toggle,
  holds-is_ready c.list,
  hold-is_ready c.searches,
)

fresh_each-is_ready : (n : ℕ) → hold is_ready (fresh_each n) ≡ true
unfolding fresh_each
fresh_each-is_ready zero = refl
fresh_each-is_ready (suc n) = fresh_each-is_ready n

pub served_controls-is_ready :
    (v : Served) (form : Option Form) → of_all is_ready (served_controls v form) ≡ true
unfolding served_controls
served_controls-is_ready v form = ground (arith, fresh_each-is_ready v.searches)

update_filter_chrome-none : (c : Chrome) → c.badge ≡ none → update_filter_chrome c ≡ c
unfolding update_filter_chrome
update_filter_chrome-none c e = rw e refl

pub update_filter_chrome-IsTrue : (c : Chrome) → IsTrue (update_filter_chrome c)
update_filter_chrome-IsTrue c = elim (Option-cases c.badge) [
  | inl e ↦ let same = update_filter_chrome-none c e in λ b h. absurd (cc)
  | inr (b, e) ↦
      let (d, shown, agrees, _, _, _) = update_filter_chrome_lem c b e in
      let (form, _) = update_filter_chrome_kept c in
      λ f h.
        let same : d ≡ f = cc in
        subst
          (λ (x : Badge).
            (x.hidden ≡ true) ↔ (current_model_filters (update_filter_chrome c).form ≡ unfiltered))
          same
          (subst (λ o. (d.hidden ≡ true) ↔ (current_model_filters o ≡ unfiltered)) (sym form)
            agrees)
]

is_some-bind_option : (o : Option Control) → is_some (bind_option o) ≡ is_some o
is_some-bind_option none = refl
is_some-bind_option (some c) = refl

pub init_model_filters-IsWired :
    (m : Models)
    → of_all is_ready m.controls ≡ true
    → is_ready m.window ≡ true
    → is_some m.controls.form ≡ is_some m.chrome.form
    → IsWired (init_model_filters m)
unfolding init_model_filters bind_controls
init_model_filters-IsWired m h k p = record {
  controls = bind_controls-is_wired m.controls h;
  window = ground arith;
  paired =
      is_some-bind_option m.controls.form
      ∙ p
      ∙ ap is_some (sym (update_filter_chrome_kept m.chrome).0);
  chrome = update_filter_chrome-IsTrue m.chrome;
}
