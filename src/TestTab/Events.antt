-- ===== src/TestTab/Events.antt =====
-- What changes the controls of the Pair & test tab, of app/webui/app.js: the answers that
-- `syncTestLanguages` and `syncTestCleanup` wait for, which a swap asks for both at once, and the
-- "change" events of the two lists.
use vocagateway.Base.{
  ℕ, Bool, false, not, List, [], ◌∷◌, Option, none, some, Text, get_elem?, if◌then◌else◌,
}
use vocagateway.Languages.Picker.{Choice, Picker, Health, selected_choice, sync_test_languages}
use vocagateway.Cleanup.Warning.{
  Capability, Controls, TestPanel, sync_test_cleanup, sync_test_cleanup_warning,
}

pub record TestTab : Type 0 where
  pub picker : Picker
  pub panel : TestPanel

abbrev pub value_of : Option Choice → Text
value_of none = []
value_of (some o) = o.value

-- `document.getElementById("test-language").value`
unfoldable pub language : Picker → Text
language p = value_of (selected_choice p.options p.selected)

-- The handlers read the language as it is when they run.
unfoldable pub read_language : Picker → TestPanel → TestPanel
unfolding language
read_language p t = record t {
  controls = elim t.controls [ none ↦ none | some c ↦ some (record c { language = language p }) ];
}

abbrev pub put_mode : Text → Option Controls → Option Controls
put_mode mode none = none
put_mode mode (some c) = some (record c { mode = mode })

abbrev pub is_free : Option Choice → Bool
is_free none = false
is_free (some o) = not (o.disabled)

pub data Event : Type 0 where
  health : Option Health → Event
  capabilities : Option Capability → Event
  -- the user selects an option, by its place, or a mode
  choose : ℕ → Event
  choose_mode : Text → Event

-- A disabled option cannot be selected.
unfoldable pub handle : Event → TestTab → TestTab
unfolding sync_test_languages sync_test_cleanup sync_test_cleanup_warning read_language
handle (health reply) t = record t { picker = sync_test_languages reply t.picker }
handle (capabilities reply) t = record t {
  panel = sync_test_cleanup reply (read_language t.picker t.panel);
}
handle (choose place) t =
    let picked = record t.picker { selected = some place } in
    if is_free (get_elem? t.picker.options place)
    then record {
      picker = picked;
      panel = sync_test_cleanup_warning (read_language picked t.panel);
    }
    else t
handle (choose_mode mode) t =
    let chosen = record t.panel { controls = put_mode mode t.panel.controls } in
    record t { panel = sync_test_cleanup_warning (read_language t.picker chosen) }

abbrev pub run : List Event → TestTab → TestTab
run [] t = t
run (e ∷ es) t = run es (handle e t)
