-- ===== src/Languages/Examples.antt =====
-- Runs of the language picker of app/webui/app.js.
use vocagateway.Base.{◌≡◌, refl, true, false, [], ◌∷◌, some, codes}
use vocagateway.Languages.Picker.{Choice, Picker, Health, is_unsupported, sync_test_languages}

abbrev auto_choice : Choice
auto_choice = record { value = codes "auto"; is_auto = true; hidden = false; disabled = false }

abbrev polish_choice : Choice
polish_choice = record { value = codes "pl"; is_auto = false; hidden = false; disabled = false }

abbrev english_choice : Choice
english_choice = record { value = codes "en"; is_auto = false; hidden = false; disabled = false }

abbrev fresh_picker : Picker
fresh_picker = record {
  options = auto_choice ∷ polish_choice ∷ english_choice ∷ [];
  selected = some 0;
  note = [];
  note_hidden = true;
}

-- A model for English that has to be told the language.
abbrev english_only : Health
english_only = record {
  languages = codes "en" ∷ [];
  detects_automatically = false;
  requires_explicit = true;
}

sync_test_languages_run : (sync_test_languages (some english_only) fresh_picker).selected ≡ some 2
unfolding sync_test_languages
sync_test_languages_run = refl

-- The English option is the one left.
is_unsupported_run : is_unsupported english_only english_choice ≡ false
unfolding is_unsupported
is_unsupported_run = refl
