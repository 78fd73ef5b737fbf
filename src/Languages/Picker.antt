-- ===== src/Languages/Picker.antt =====
-- `syncTestLanguages` of app/webui/app.js: the options that the active model can take.
use vocagateway.Base.{
  ℕ, suc, Bool, true, false, not, ◌&&◌, List, [], ◌∷◌, Option, none, some, Text, text_eq, get_elem?,
  if◌then◌else◌, codes, any,
}

pub record Choice : Type 0 where
  pub value : Text
  -- it has the attribute `data-auto-language`
  pub is_auto : Bool
  pub hidden : Bool
  pub disabled : Bool

pub record Picker : Type 0 where
  pub options : List Choice
  -- the place of `selectedOptions[0]`
  pub selected : Option ℕ
  pub note : Text
  pub note_hidden : Bool

-- The fields of the health answer that are read. A `languages` that is no list counts as empty.
pub record Health : Type 0 where
  pub languages : List Text
  pub detects_automatically : Bool
  pub requires_explicit : Bool

abbrev pub includes : Text → List Text → Bool
includes v ls = any (λ l. text_eq l v) ls

abbrev pub is_empty {ℓ} : {A : Type ℓ} → List A → Bool
is_empty [] = true
is_empty (x ∷ xs) = false

unfoldable pub is_unsupported : Health → Choice → Bool
unfolding any
is_unsupported h o =
    if o.is_auto
    then h.requires_explicit
    else not (is_empty h.languages)
      && not h.detects_automatically
      && not (includes o.value h.languages)

unfoldable pub mark_choice : Health → Choice → Choice
unfolding is_unsupported
mark_choice h o = record o { hidden = is_unsupported h o; disabled = is_unsupported h o }

unfoldable pub mark_choices : Health → List Choice → List Choice
unfolding mark_choice
mark_choices h [] = []
mark_choices h (o ∷ os) = mark_choice h o ∷ mark_choices h os

unfoldable pub one_later : Option ℕ → Option ℕ
one_later none = none
one_later (some i) = some (suc i)

-- The place of the first option that has a value.
unfoldable pub find_index : Text → List Choice → Option ℕ
unfolding one_later
find_index v [] = none
find_index v (o ∷ os) =
    let later = find_index v os in if text_eq o.value v then some 0 else one_later later

-- `options.find((option) => !option.disabled)`
unfoldable pub find_enabled : List Choice → Option Choice
find_enabled [] = none
find_enabled (o ∷ os) = if o.disabled then find_enabled os else some o

abbrev pub selected_choice : List Choice → Option ℕ → Option Choice
selected_choice os none = none
selected_choice os (some i) = get_elem? os i

-- `select.value = fallback.value` selects the first option of that value.
unfoldable pub reselect : List Choice → Option ℕ → Option ℕ
unfolding find_enabled find_index
reselect os selected = elim (selected_choice os selected) [
  | none ↦ selected
  | some o ↦
      if o.disabled
      then (elim (find_enabled os) [
        | none ↦ selected
        | some fallback ↦ find_index fallback.value os
      ])
      else selected
]

unfoldable pub note_text : Text
note_text = codes "This model cannot detect the language — pick the one you will speak."

-- `none` stands for a request that failed or an answer that is not ok.
unfoldable pub sync_test_languages : Option Health → Picker → Picker
unfolding mark_choices reselect note_text
sync_test_languages none p = p
sync_test_languages (some h) p =
    let os = mark_choices h p.options in
    record {
      options = os;
      selected = reselect os p.selected;
      note = if h.requires_explicit then note_text else [];
      note_hidden = not h.requires_explicit;
    }
