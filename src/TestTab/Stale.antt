-- ===== src/TestTab/Stale.antt =====
-- A health answer that comes after the capabilities can leave a warning behind (app/webui/app.js).
use vocagateway.Base.{
  ℕ, zero, suc, ◌≡◌, ◌≢◌, refl, sym, ap, ◌∙◌, Bool, true, false, List, [], ◌∷◌, Option, some, codes,
  get_elem?, arith,
}
use vocagateway.Languages.Picker.{
  Choice, Picker, Health, is_unsupported, mark_choice, sync_test_languages,
}
use vocagateway.Languages.Found.{has_value, distinct_values, has_value-get}
use vocagateway.Languages.Choice.{sync_test_languages-is_unsupported, mark_choices-get}
use vocagateway.Cleanup.Warning.{Capability, Controls, TestPanel, sync_controls}
use vocagateway.Cleanup.Stranded.{IsStranded, sync_controls_lem}
use vocagateway.TestTab.Events.{TestTab, language, health, capabilities, handle}
use vocagateway.TestTab.Warned.{answered, offered, warning_some}

-- Options of one value are one.
pub get_elem?-distinct_values :
    (os : List Choice) (i j : ℕ) (o d : Choice)
    → distinct_values os ≡ true
    → get_elem? os i ≡ some o
    → get_elem? os j ≡ some d
    → o.value ≡ d.value
    → o ≡ d
get_elem?-distinct_values [] i j o d u p q e = absurd (cc)
get_elem?-distinct_values (c ∷ os) zero zero o d u p q e = cc
get_elem?-distinct_values (c ∷ os) zero (suc j) o d u p q e =
    let later = has_value-get os j d q in
    let first : c ≡ o = cc in
    let same : has_value c.value os ≡ true =
      ap (λ v. has_value v os) (ap Choice.value first ∙ e) ∙ later in
    absurd (ground arith)
get_elem?-distinct_values (c ∷ os) (suc i) zero o d u p q e =
    let later = has_value-get os i o p in
    let first : c ≡ d = cc in
    let same : has_value c.value os ≡ true =
      ap (λ v. has_value v os) (ap Choice.value first ∙ sym e) ∙ later in
    absurd (ground arith)
get_elem?-distinct_values (c ∷ os) (suc i) (suc j) o d u p q e =
    get_elem?-distinct_values os i j o d (ground arith) p q e

language_at :
    (p : Picker) (i : ℕ) (o : Choice)
    → p.selected ≡ some i
    → get_elem? p.options i ≡ some o
    → language p ≡ o.value
unfolding language
language_at p i o s e = rw (s, e) refl

synced_option :
    (h : Health) (p : Picker) (k : ℕ) (f : Choice)
    → get_elem? p.options k ≡ some f
    → (sync_test_languages (some h) p).selected ≡ some k
    → language (sync_test_languages (some h) p) ≡ f.value
unfolding sync_test_languages mark_choice
synced_option h p k f e s =
    language_at (sync_test_languages (some h) p) k (mark_choice h f) s
      (mark_choices-get h p.options k f e)

health_panel : (r : Option Health) (t : TestTab) → (handle (health r) t).panel ≡ t.panel
unfolding handle
health_panel r t = refl

health_picker :
    (r : Option Health) (t : TestTab)
    → (handle (health r) t).picker ≡ sync_test_languages r t.picker
unfolding handle
health_picker r t = refl

answered_picker :
    (r : Option Capability) (t : TestTab) → (handle (capabilities r) t).picker ≡ t.picker
unfolding handle
answered_picker r t = refl

-- The two requests of a swap are under way at once. Where cleanup is on, the language is left to be
-- detected, and the gateway has no language for that, an answer with the capability shows the
-- warning; a health answer of a model that must be told the language then selects another one, and
-- the warning stays, although a run would not skip cleanup.
pub late_health_lem :
    (h : Health) (k : Capability) (t : TestTab) (c : Controls) (b : Bool) (i j : ℕ) (o d : Choice)
    → t.panel.controls ≡ some c
    → t.panel.field_hidden ≡ some b
    → c.mode ≡ codes "conservative"
    → k.auto_language ≡ false
    → distinct_values t.picker.options ≡ true
    → t.picker.selected ≡ some i
    → get_elem? t.picker.options i ≡ some o
    → o.value ≡ codes "auto"
    → is_unsupported h o ≡ true
    → get_elem? t.picker.options j ≡ some d
    → is_unsupported h d ≡ false
    → (w : Controls) × ((handle (health (some h)) (handle (capabilities (some k)) t)).panel.controls
        ≡ some w)
      × (w.warning_hidden ≡ false)
      × (language (handle (health (some h)) (handle (capabilities (some k)) t)).picker
          ≢ codes "auto")
unfolding handle
late_health_lem h k t c b i j o d pc pf mode unknown distinct s at auto off there free =
    let spoken : Controls = record c { language = language t.picker } in
    let due : IsStranded k spoken = (mode, language_at t.picker i o s at ∙ auto, unknown) in
    let panel = ap TestTab.panel (answered k t b pf) in
    let shown = warning_some t.picker (offered k t.panel) c pc in
    let (m, f, chosen, found, fine, _) =
      sync_test_languages-is_unsupported h t.picker i j o d distinct s at there free in
    (
      sync_controls k spoken,
      ap (λ (q : TestPanel). q.controls) panel ∙ shown,
      (sync_controls_lem k spoken).0.1 due,
      λ e.
          let spoken_now : f.value ≡ codes "auto" =
            sym (synced_option h t.picker m f found chosen) ∙ e in
          let same =
            get_elem?-distinct_values t.picker.options m i f o distinct found at
              (spoken_now ∙ sym auto) in
          let supported : is_unsupported h o ≡ false = ap (is_unsupported h) (sym same) ∙ fine in
          cc,
    )
