-- ===== src/Rail/Kept.antt =====
-- The rail is shown as it was last left (app/webui/app.js).
use vocagateway.Base.{
  ◌≡◌, refl, sym, ap, subst, ◌∙◌, Bool, true, false, not, List, [], ◌∷◌, Option, none, some, arith,
  Option-cases, inl, inr,
}
use vocagateway.Rail.Collapse.{
  RailToggle, SideCollapse, Rail, is_filter_rail_collapsed, put, rail_toggle, map_toggle,
  set_filter_rail_collapsed, Event, click_toggle, click_side, init, init_rail, toggle_rail, handle,
  run,
}

-- What was chosen last, of the rail and of the storage.
pub record IsKept (s : Rail) : Type 0 where
  pub shown : (b : Bool) → s.layout ≡ some b → b ≡ is_filter_rail_collapsed s
  pub hidden : (a b : Bool) → s.aside_hidden ≡ some a → s.layout ≡ some b → a ≡ b
  pub told :
      (t : RailToggle) (b : Bool) → s.toggle ≡ some t → s.layout ≡ some b → t.expanded ≡ not b

set_rail_stored :
    (b : Bool) (s : Rail)
    → s.has_storage ≡ true
    → is_filter_rail_collapsed (set_filter_rail_collapsed b s) ≡ b
unfolding is_filter_rail_collapsed set_filter_rail_collapsed
set_rail_stored true s h = ground arith
set_rail_stored false s h = ground arith

put-inv {ℓ} : {A : Type ℓ} (a b : A) (o : Option A) → put a o ≡ some b → b ≡ a
put-inv a b none e = absurd (cc)
put-inv a b (some c) e = cc

map_toggle-inv :
    (b : Bool) (o : Option RailToggle) (t : RailToggle)
    → map_toggle (rail_toggle b) o ≡ some t
    → t.expanded ≡ not b
map_toggle-inv b none t e = absurd (cc)
map_toggle-inv b (some u) t e = sym (ap (λ o. expanded_of o) e)
  where
    expanded_of : Option RailToggle → Bool
    expanded_of none = true
    expanded_of (some v) = v.expanded

layout_eq : (b c : Bool) (s : Rail) → (set_filter_rail_collapsed b s).layout ≡ some c → c ≡ b
unfolding set_filter_rail_collapsed
layout_eq b c s e = put-inv b c s.layout e

aside_eq : (b c : Bool) (s : Rail) → (set_filter_rail_collapsed b s).aside_hidden ≡ some c → c ≡ b
unfolding set_filter_rail_collapsed
aside_eq b c s e = put-inv b c s.aside_hidden e

toggle_eq :
    (b : Bool) (t : RailToggle) (s : Rail)
    → (set_filter_rail_collapsed b s).toggle ≡ some t
    → t.expanded ≡ not b
unfolding set_filter_rail_collapsed
toggle_eq b t s e = map_toggle-inv b s.toggle t e

set_rail-IsKept :
    (b : Bool) (s : Rail) → s.has_storage ≡ true → IsKept (set_filter_rail_collapsed b s)
set_rail-IsKept b s h = record {
  shown = λ c e. layout_eq b c s e ∙ sym (set_rail_stored b s h);
  hidden = λ a c e f. aside_eq b a s e ∙ sym (layout_eq b c s f);
  told = λ t c e f. toggle_eq b t s e ∙ ap not (sym (layout_eq b c s f));
}

no_layout-IsKept : (s : Rail) → s.layout ≡ none → IsKept s
no_layout-IsKept s e = record {
  shown = λ b h. absurd (cc);
  hidden = λ a b h k. absurd (cc);
  told = λ t b h k. absurd (cc);
}

init_rail-none : (s : Rail) → s.layout ≡ none → init_rail s ≡ s
unfolding init_rail
init_rail-none s e = ground arith

init_rail-some :
    (s : Rail) (b : Bool)
    → s.layout ≡ some b
    → init_rail s ≡ set_filter_rail_collapsed (is_filter_rail_collapsed s) s
unfolding init_rail
init_rail-some s b e = ground arith

toggle_rail-none : (s : Rail) → s.layout ≡ none → toggle_rail s ≡ s
unfolding toggle_rail
toggle_rail-none s e = ground arith

toggle_rail-some :
    (s : Rail) (b : Bool) → s.layout ≡ some b → toggle_rail s ≡ set_filter_rail_collapsed (not b) s
unfolding toggle_rail
toggle_rail-some s b e = ground arith

init_rail-IsKept : (s : Rail) → s.has_storage ≡ true → IsKept (init_rail s)
init_rail-IsKept s h = elim (Option-cases s.layout) [
  | inl e ↦ subst IsKept (sym (init_rail-none s e)) (no_layout-IsKept s e)
  | inr (b, e) ↦
      subst IsKept (sym (init_rail-some s b e)) (set_rail-IsKept (is_filter_rail_collapsed s) s h)
]

toggle_rail-IsKept : (s : Rail) → s.has_storage ≡ true → IsKept s → IsKept (toggle_rail s)
toggle_rail-IsKept s h k = elim (Option-cases s.layout) [
  | inl e ↦ subst IsKept (sym (toggle_rail-none s e)) k
  | inr (b, e) ↦ subst IsKept (sym (toggle_rail-some s b e)) (set_rail-IsKept (not b) s h)
]

handle-IsKept : (e : Event) (s : Rail) → s.has_storage ≡ true → IsKept s → IsKept (handle e s)
unfolding handle
handle-IsKept click_toggle s h k = toggle_rail-IsKept s h k
handle-IsKept click_side s h k = set_rail-IsKept true s h
handle-IsKept (init layout aside toggle side) s h k =
    init_rail-IsKept
      (record s { layout = layout; aside_hidden = aside; toggle = toggle; side = side }) h

handle-has_storage : (e : Event) (s : Rail) → (handle e s).has_storage ≡ s.has_storage
unfolding handle
handle-has_storage click_toggle s = ground arith
handle-has_storage click_side s = refl
handle-has_storage (init layout aside toggle side) s = ground arith

run-IsKept :
    (es : List Event) (s : Rail)
    → s.has_storage ≡ true
    → IsKept s
    → IsKept (run es s) × ((run es s).has_storage ≡ true)
run-IsKept [] s h k = (k, h)
run-IsKept (e ∷ es) s h k =
    run-IsKept es (handle e s) (handle-has_storage e s ∙ h) (handle-IsKept e s h k)

init_layout :
    (a : Bool) (aside : Option Bool) (toggle : Option RailToggle) (side : Option SideCollapse)
    (s : Rail)
    → (handle (init (some a) aside toggle side) s).layout ≡ some (is_filter_rail_collapsed s)
unfolding handle
init_layout a aside toggle side s = refl

-- Where the storage can be used, the rail is shown as it was last left, however it is served anew,
-- and its button tells whether it is expanded.
pub init-run :
    (es : List Event) (s : Rail) (b a : Bool) (aside : Option Bool) (toggle : Option RailToggle)
    (side : Option SideCollapse)
    → s.has_storage ≡ true
    → s.layout ≡ none
    → (run es s).layout ≡ some b
    → ((handle (init (some a) aside toggle side) (run es s)).layout ≡ some b)
      × ((t : RailToggle) → (run es s).toggle ≡ some t → t.expanded ≡ not b)
init-run es s b a aside toggle side h none_yet e =
    let (kept, storage) = run-IsKept es s h (no_layout-IsKept s none_yet) in
    (
      init_layout a aside toggle side (run es s) ∙ ap (λ (c : Bool). some c) (sym (kept.shown b e)),
      λ t f. kept.told t b f e,
    )
