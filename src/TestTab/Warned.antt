-- ===== src/TestTab/Warned.antt =====
-- The warning that a run would silently skip cleanup, against the language that is selected
-- (app/webui/app.js).
use vocagateway.Base.{
  ◌≡◌, ◌↔◌, refl, sym, Bool, true, false, not, ◌&&◌, List, [], ◌∷◌, Option, none, some, text_eq,
  text_eq_iff, get_elem?, arith, Bool-cases, Option-cases, inl, inr, subst,
}
use vocagateway.Languages.Picker.{Picker, sync_test_languages}
use vocagateway.Cleanup.Warning.{
  Capability, Controls, TestPanel, sync_controls, sync_test_cleanup, sync_test_cleanup_warning,
}
use vocagateway.Cleanup.Stranded.{IsStranded, sync_controls_lem}
use vocagateway.TestTab.Events.{
  TestTab, language, read_language, put_mode, is_free, Event, health, capabilities, choose,
  choose_mode, handle, run,
}

-- The warning is shown exactly if a run with the language that is selected would skip cleanup.
abbrev pub IsWarned : TestTab → Type 0
IsWarned t =
    (c : Controls)
    → t.panel.controls ≡ some c
    → (c.warning_hidden ≡ false)
      ↔ IsStranded t.panel.capability (record c { language = language t.picker })

warning_none :
    (p : Picker) (t : TestPanel)
    → t.controls ≡ none
    → (sync_test_cleanup_warning (read_language p t)).controls ≡ none
unfolding sync_test_cleanup_warning read_language
warning_none p t e = rw e refl

pub warning_some :
    (p : Picker) (t : TestPanel) (d : Controls)
    → t.controls ≡ some d
    → (sync_test_cleanup_warning (read_language p t)).controls
      ≡ some (sync_controls t.capability (record d { language = language p }))
unfolding sync_test_cleanup_warning read_language
warning_some p t d e = rw e refl

sync_controls_mode : (k : Capability) (c : Controls) → (sync_controls k c).mode ≡ c.mode
unfolding sync_controls
sync_controls_mode k c = refl

warned_panel :
    (p : Picker) (t : TestPanel) (c : Controls)
    → (sync_test_cleanup_warning (read_language p t)).controls ≡ some c
    → (c.warning_hidden ≡ false) ↔ IsStranded t.capability (record c { language = language p })
warned_panel p t c h = elim (Option-cases t.controls) [
  | inl e ↦ let gone = warning_none p t e in absurd (cc)
  | inr (d, e) ↦
      let spoken : Controls = record d { language = language p } in
      let shown = warning_some p t d e in
      let same : sync_controls t.capability spoken ≡ c = cc in
      subst
        (λ x.
          (x.warning_hidden ≡ false) ↔ IsStranded t.capability (record x { language = language p }))
        same (rw (sync_controls_mode t.capability spoken) (sync_controls_lem t.capability spoken).0)
]

IsWarned-tab :
    (p : Picker) (t : TestPanel)
    → IsWarned (record { picker = p; panel = sync_test_cleanup_warning (read_language p t) })
unfolding sync_test_cleanup_warning read_language
IsWarned-tab p t c h = warned_panel p t c h

abbrev pub has_field : TestTab → Bool
has_field t = elim t.panel.field_hidden [ none ↦ false | some _ ↦ true ]

-- The event shows or hides the warning anew.
abbrev pub renews : Event → TestTab → Bool
renews (health reply) t = false
renews (capabilities none) t = false
renews (capabilities (some k)) t = has_field t
renews (choose place) t = is_free (get_elem? t.picker.options place)
renews (choose_mode mode) t = true

-- It leaves the language that is selected, or is a choice of the user.
abbrev pub is_still : Event → TestTab → Bool
is_still (health reply) t =
    text_eq (language (sync_test_languages reply t.picker)) (language t.picker)
is_still (capabilities reply) t = true
is_still (choose place) t = true
is_still (choose_mode mode) t = true

abbrev pub are_still : List Event → TestTab → Bool
are_still [] t = true
are_still (e ∷ es) t = is_still e t && are_still es (handle e t)

abbrev pub offered : Capability → TestPanel → TestPanel
offered k t = record t {
  capability = k;
  field_hidden = some (not k.supported);
  tile_hidden = elim t.tile_hidden [ none ↦ none | some _ ↦ some (not k.supported) ];
}

-- An answer with the gateway's capability, on a page with the field.
pub answered :
    (k : Capability) (t : TestTab) (b : Bool)
    → t.panel.field_hidden ≡ some b
    → handle (capabilities (some k)) t
      ≡ record t { panel = sync_test_cleanup_warning (read_language t.picker (offered k t.panel)) }
unfolding handle sync_test_cleanup read_language
answered k t b e = rw e refl

has_field-none : (t : TestTab) → t.panel.field_hidden ≡ none → has_field t ≡ false
has_field-none t e = rw e refl

renewed-IsWarned : (e : Event) (t : TestTab) → renews e t ≡ true → IsWarned (handle e t)
renewed-IsWarned (health reply) t h = absurd (cc)
renewed-IsWarned (capabilities none) t h = absurd (cc)
renewed-IsWarned (capabilities (some k)) t h = elim (Option-cases t.panel.field_hidden) [
  | inl e ↦ let gone = has_field-none t e in absurd (cc)
  | inr (b, e) ↦ subst IsWarned (sym (answered k t b e)) (IsWarned-tab t.picker (offered k t.panel))
]
renewed-IsWarned (choose place) t h =
    unfold handle in rw h (IsWarned-tab (record t.picker { selected = some place }) t.panel)
renewed-IsWarned (choose_mode mode) t h =
    unfold handle in
    IsWarned-tab t.picker (record t.panel { controls = put_mode mode t.panel.controls })

read_language-none :
    (p : Picker) (t : TestPanel) → t.controls ≡ none → (read_language p t).controls ≡ none
unfolding read_language
read_language-none p t e = rw e refl

read_language-some :
    (p : Picker) (t : TestPanel) (d : Controls)
    → t.controls ≡ some d
    → (read_language p t).controls ≡ some (record d { language = language p })
unfolding read_language
read_language-some p t d e = rw e refl

-- A copy of the language changes no warning.
read_tab : TestTab → TestTab
read_tab t = record t { panel = read_language t.picker t.panel }

read_tab-IsWarned : (t : TestTab) → IsWarned t → IsWarned (read_tab t)
unfolding read_tab read_language
read_tab-IsWarned t w c h = elim (Option-cases t.panel.controls) [
  | inl e ↦ let gone = read_language-none t.picker t.panel e in absurd (cc)
  | inr (d, e) ↦
      let copied = read_language-some t.picker t.panel d e in
      let spoken : Controls = record d { language = language t.picker } in
      let same : spoken ≡ c = cc in
      subst
        (λ x.
          (x.warning_hidden ≡ false)
          ↔ IsStranded t.panel.capability (record x { language = language t.picker }))
        same (w d e)
]

unanswered : (t : TestTab) → handle (capabilities none) t ≡ read_tab t
unfolding handle sync_test_cleanup read_tab read_language
unanswered t = elim (Option-cases t.panel.field_hidden) [
  | inl e ↦ rw e refl
  | inr (b, e) ↦ rw e refl
]

no_field :
    (r : Option Capability) (t : TestTab)
    → t.panel.field_hidden ≡ none
    → handle (capabilities r) t ≡ read_tab t
unfolding handle sync_test_cleanup read_tab read_language
no_field r t e = rw e refl

still-IsWarned :
    (e : Event) (t : TestTab) → is_still e t ≡ true → IsWarned t → IsWarned (handle e t)
still-IsWarned (health reply) t h w =
    let same =
      (text_eq_iff (language (sync_test_languages reply t.picker)) (language t.picker)).0 h in
    unfold handle in λ c at. rw same (w c at)
still-IsWarned (capabilities none) t h w =
    subst IsWarned (sym (unanswered t)) (read_tab-IsWarned t w)
still-IsWarned (capabilities (some k)) t h w = elim (Option-cases t.panel.field_hidden) [
  | inl e ↦ subst IsWarned (sym (no_field (some k) t e)) (read_tab-IsWarned t w)
  | inr (b, e) ↦ renewed-IsWarned (capabilities (some k)) t (rw e refl)
]
still-IsWarned (choose place) t h w =
    elim (Bool-cases (is_free (get_elem? t.picker.options place))) [
      | inl e ↦ renewed-IsWarned (choose place) t e
      | inr e ↦ unfold handle in rw e w
    ]
still-IsWarned (choose_mode mode) t h w = renewed-IsWarned (choose_mode mode) t refl

stays-IsWarned :
    (es : List Event) (t : TestTab) → are_still es t ≡ true → IsWarned t → IsWarned (run es t)
stays-IsWarned [] t h w = w
stays-IsWarned (e ∷ es) t h w =
    stays-IsWarned es (handle e t) (ground arith) (still-IsWarned e t (ground arith) w)

-- From an answer with the gateway's capability or a change of the language or the mode on, and for
-- as long as no health answer moves the language: the warning is shown exactly if a run with what is
-- selected would silently skip cleanup.
pub run-IsWarned :
    (e : Event) (es : List Event) (t : TestTab)
    → renews e t ≡ true
    → are_still es (handle e t) ≡ true
    → IsWarned (run es (handle e t))
run-IsWarned e es t h s = stays-IsWarned es (handle e t) s (renewed-IsWarned e t h)
