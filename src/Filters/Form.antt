-- ===== src/Filters/Form.antt =====
-- `checkedFilterValues`, `currentModelFilters`, `updateFilterChrome`, the click on `filter-clear`
-- and the search over a list of checkboxes, of app/webui/app.js.
use vocagateway.Base.{
  ℕ, ◌+◌, Bool, true, false, not, ◌&&◌, List, [], ◌∷◌, Option, none, some, Text, ◌==◌,
  if◌then◌else◌, decimal,
}

-- A row `.filter-check` with its checkbox.
pub record Check : Type 0 where
  pub value : Text
  pub checked : Bool
  pub hidden : Bool

pub record Form : Type 0 where
  pub families : List Check
  pub languages : List Check
  pub engines : List Check
  -- the selected value of `max_size`, where there is such a list
  pub max_size : Option Text
  pub installed_only : Option Bool
  pub recommended_only : Option Bool
  -- the text of the search over the languages
  pub search : Text

pub record Filters : Type 0 where
  pub family : List Text
  pub language : List Text
  pub engine : List Text
  -- an entry that is left out is `none` or `false`
  pub max_size : Option Text
  pub installed_only : Bool
  pub recommended_only : Bool

abbrev pub is_nil {ℓ} : {A : Type ℓ} → List A → Bool
is_nil [] = true
is_nil (x ∷ xs) = false

unfoldable pub checked_filter_values : List Check → List Text
checked_filter_values [] = []
checked_filter_values (c ∷ cs) =
    let rest = checked_filter_values cs in
    if c.checked && not (is_nil c.value) then c.value ∷ rest else rest

abbrev pub non_empty : Option Text → Option Text
non_empty none = none
non_empty (some []) = none
non_empty (some (x ∷ xs)) = some (x ∷ xs)

abbrev pub is_checked : Option Bool → Bool
is_checked none = false
is_checked (some b) = b

unfoldable pub current_model_filters : Option Form → Filters
unfolding checked_filter_values
current_model_filters none = record {
  family = [];
  language = [];
  engine = [];
  max_size = none;
  installed_only = false;
  recommended_only = false;
}
current_model_filters (some f) = record {
  family = checked_filter_values f.families;
  language = checked_filter_values f.languages;
  engine = checked_filter_values f.engines;
  max_size = non_empty f.max_size;
  installed_only = is_checked f.installed_only;
  recommended_only = is_checked f.recommended_only;
}

pub record Badge : Type 0 where
  pub text : Text
  pub hidden : Bool

pub record Chrome : Type 0 where
  pub form : Option Form
  -- the class `has-active` of the rail and of its toggle
  pub rail_active : Option Bool
  pub toggle_active : Option Bool
  pub badge : Option Badge
  -- the filters of the requests for the list, the last one first
  pub requests : List Filters

abbrev pub one_if : Bool → ℕ
one_if true = 1
one_if false = 0

abbrev pub is_some {ℓ} : {A : Type ℓ} → Option A → Bool
is_some none = false
is_some (some a) = true

unfoldable pub count_filters : Filters → ℕ
count_filters q =
    one_if (not (is_nil q.family))
    + one_if (not (is_nil q.language))
    + one_if (not (is_nil q.engine))
    + one_if (is_some q.max_size)
    + one_if q.installed_only
    + one_if q.recommended_only

abbrev pub put_flag : Bool → Option Bool → Option Bool
put_flag b none = none
put_flag b (some _) = some b

unfoldable pub update_filter_chrome : Chrome → Chrome
unfolding current_model_filters count_filters
update_filter_chrome c =
    let count = count_filters (current_model_filters c.form) in
    elim c.badge [
      | none ↦ c
      | some _ ↦ record c {
        rail_active = put_flag (not (count == 0)) c.rail_active;
        toggle_active = put_flag (not (count == 0)) c.toggle_active;
        badge =
            some (record { text = if count == 0 then [] else decimal count; hidden = count == 0 });
      }
    ]

unfoldable pub uncheck : List Check → List Check
uncheck [] = []
uncheck (c ∷ cs) = record c { checked = false } ∷ uncheck cs

unfoldable pub uncheck_and_show : List Check → List Check
uncheck_and_show [] = []
uncheck_and_show (c ∷ cs) = record c { checked = false; hidden = false } ∷ uncheck_and_show cs

abbrev pub empty_select : Option Text → Option Text
empty_select none = none
empty_select (some _) = some []

-- The search field names the list of the languages.
unfoldable pub clear_form : Form → Form
unfolding uncheck uncheck_and_show
clear_form f = record {
  families = uncheck f.families;
  languages = uncheck_and_show f.languages;
  engines = uncheck f.engines;
  max_size = empty_select f.max_size;
  installed_only = put_flag false f.installed_only;
  recommended_only = put_flag false f.recommended_only;
  search = [];
}

abbrev pub clear_option : Option Form → Option Form
clear_option none = none
clear_option (some f) = some (clear_form f)

-- The click on `filter-clear`.
unfoldable pub clear_filters : Chrome → Chrome
unfolding clear_form update_filter_chrome current_model_filters
clear_filters c =
    let updated = update_filter_chrome (record c { form = clear_option c.form }) in
    record updated { requests = current_model_filters updated.form ∷ updated.requests }
