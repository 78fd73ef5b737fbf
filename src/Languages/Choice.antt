-- ===== src/Languages/Choice.antt =====
-- What `syncTestLanguages` of app/webui/app.js leaves to choose, and chosen.
use vocagateway.Base.{
  ℕ, zero, suc, ◌≡◌, refl, sym, ap, ◌∙◌, true, false, not, ◌&&◌, ◌||◌, List, [], ◌∷◌, some, Text,
  text_eq, get_elem?, arith, Bool-cases, inl, inr,
}
use vocagateway.Languages.Picker.{
  Choice, Picker, Health, is_empty, is_unsupported, mark_choice, mark_choices, reselect, note_text,
  sync_test_languages,
}
use vocagateway.Languages.Found.{has_value, distinct_values, reselect-find_enabled}

pub get_elem?-mark_choices :
    (h : Health) (os : List Choice) (i : ℕ) (o : Choice)
    → get_elem? (mark_choices h os) i ≡ some o
    → (c : Choice) × (get_elem? os i ≡ some c) × (o ≡ mark_choice h c)
unfolding mark_choices
get_elem?-mark_choices h [] i o e = absurd (cc)
get_elem?-mark_choices h (c ∷ os) zero o e = (c, refl, cc)
get_elem?-mark_choices h (c ∷ os) (suc i) o e = get_elem?-mark_choices h os i o e

has_value-mark_choices :
    (h : Health) (os : List Choice) (v : Text) → has_value v (mark_choices h os) ≡ has_value v os
unfolding mark_choices mark_choice
has_value-mark_choices h [] v = refl
has_value-mark_choices h (o ∷ os) v =
    ap (λ b. text_eq o.value v || b) (has_value-mark_choices h os v)

pub distinct_values-mark_choices :
    (h : Health) (os : List Choice) → distinct_values (mark_choices h os) ≡ distinct_values os
unfolding mark_choices mark_choice
distinct_values-mark_choices h [] = refl
distinct_values-mark_choices h (o ∷ os) =
    ap (λ b. not b && distinct_values (mark_choices h os)) (has_value-mark_choices h os o.value)
    ∙ ap (λ b. not (has_value o.value os) && b) (distinct_values-mark_choices h os)

pub mark_choices-get :
    (h : Health) (os : List Choice) (i : ℕ) (c : Choice)
    → get_elem? os i ≡ some c
    → get_elem? (mark_choices h os) i ≡ some (mark_choice h c)
unfolding mark_choices
mark_choices-get h [] i c e = absurd (cc)
mark_choices-get h (x ∷ os) zero c e =
    let same : x ≡ c = cc in ap (λ y. some (mark_choice h y)) same
mark_choices-get h (x ∷ os) (suc i) c e = mark_choices-get h os i c e

disabled_lem : (h : Health) (c : Choice) → (mark_choice h c).disabled ≡ is_unsupported h c
unfolding mark_choice
disabled_lem h c = refl

selected_lem :
    (h : Health) (p : Picker)
    → (sync_test_languages (some h) p).selected ≡ reselect (mark_choices h p.options) p.selected
unfolding sync_test_languages
selected_lem h p = refl

-- Once the health answer is in, the selected language is one that the active model supports,
-- where the picker offers one at all, and a supported one that was selected stays selected.
-- The values of the options are distinct.
pub sync_test_languages-is_unsupported :
    (h : Health) (p : Picker) (i j : ℕ) (o d : Choice)
    → distinct_values p.options ≡ true
    → p.selected ≡ some i
    → get_elem? p.options i ≡ some o
    → get_elem? p.options j ≡ some d
    → is_unsupported h d ≡ false
    → (k : ℕ) × (f : Choice) × ((sync_test_languages (some h) p).selected ≡ some k)
      × (get_elem? p.options k ≡ some f)
      × (is_unsupported h f ≡ false)
      × (is_unsupported h o ≡ false → k ≡ i)
sync_test_languages-is_unsupported h p i j o d distinct at e there free =
    let (k, m, chosen, found, off, kept) =
      reselect-find_enabled (mark_choices h p.options) i j (mark_choice h o) (mark_choice h d)
        (distinct_values-mark_choices h p.options ∙ distinct) (mark_choices-get h p.options i o e)
        (mark_choices-get h p.options j d there) (disabled_lem h d ∙ free) in
    let (f, found, same) = get_elem?-mark_choices h p.options k m found in
    (
      k,
      f,
      selected_lem h p ∙ ap (reselect (mark_choices h p.options)) at ∙ chosen,
      found,
      sym (disabled_lem h f) ∙ ap Choice.disabled (sym same) ∙ off,
      λ x. kept (disabled_lem h o ∙ x),
    )

hidden_lem : (h : Health) (c : Choice) → (mark_choice h c).hidden ≡ (mark_choice h c).disabled
unfolding mark_choice
hidden_lem h c = refl

is_auto_lem :
    (h : Health) (c : Choice) → c.is_auto ≡ true → is_unsupported h c ≡ h.requires_explicit
unfolding is_unsupported
is_auto_lem h c auto = ground arith

options_lem :
    (h : Health) (p : Picker) (i : ℕ)
    → get_elem? (sync_test_languages (some h) p).options i ≡ get_elem? (mark_choices h p.options) i
unfolding sync_test_languages
options_lem h p i = refl

note_lem :
    (h : Health) (p : Picker)
    → (not (sync_test_languages (some h) p).note_hidden ≡ h.requires_explicit)
      × (is_empty (sync_test_languages (some h) p).note
          ≡ (sync_test_languages (some h) p).note_hidden)
unfolding sync_test_languages note_text
note_lem h p = elim (Bool-cases h.requires_explicit) [
  | inl b ↦ (ground arith, ground arith)
  | inr b ↦ (ground arith, ground arith)
]

-- The note stands exactly when the model cannot detect the language, and then no "Auto" option
-- is left; where it can, every "Auto" option is.
pub sync_test_languages-is_auto :
    (h : Health) (p : Picker) (i : ℕ) (c o : Choice)
    → get_elem? p.options i ≡ some c
    → c.is_auto ≡ true
    → get_elem? (sync_test_languages (some h) p).options i ≡ some o
    → (o.disabled ≡ not (sync_test_languages (some h) p).note_hidden)
      × (o.hidden ≡ o.disabled)
      × (is_empty (sync_test_languages (some h) p).note
          ≡ (sync_test_languages (some h) p).note_hidden)
sync_test_languages-is_auto h p i c o e auto there =
    let same : some o ≡ some (mark_choice h c) =
      sym there ∙ options_lem h p i ∙ mark_choices-get h p.options i c e in
    let same : o ≡ mark_choice h c = cc in
    (
      ap Choice.disabled same ∙ disabled_lem h c ∙ is_auto_lem h c auto ∙ sym (note_lem h p).0,
      ap Choice.hidden same ∙ hidden_lem h c ∙ sym (ap Choice.disabled same),
      (note_lem h p).1,
    )
