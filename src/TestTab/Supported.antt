-- ===== src/TestTab/Supported.antt =====
-- The language that is selected is one that the model supports, as long as the page is open
-- (app/webui/app.js).
use vocagateway.Base.{
  ℕ, suc, ◌≡◌, refl, sym, ap, ◌∙◌, Bool, true, false, not, ◌&&◌, ◌||◌, List, [], ◌∷◌, Option, none,
  some, get_elem?, arith, Bool-cases, inl, inr, subst,
}
use vocagateway.Languages.Picker.{
  Choice, Picker, Health, is_unsupported, mark_choice, mark_choices, sync_test_languages,
}
use vocagateway.Languages.Found.{distinct_values}
use vocagateway.Languages.Choice.{
  sync_test_languages-is_unsupported, mark_choices-get, get_elem?-mark_choices,
  distinct_values-mark_choices,
}
use vocagateway.TestTab.Events.{
  TestTab, is_free, Event, health, capabilities, choose, choose_mode, handle, run,
}

-- The options are marked for the model of the answer `h`, and one that it supports is selected.
pub record IsChosen (h : Health) (p : Picker) : Type 0 where
  pub distinct : distinct_values p.options ≡ true
  pub marked :
      (i : ℕ) (o : Choice) → get_elem? p.options i ≡ some o → o.disabled ≡ is_unsupported h o
  pub chosen :
      (k : ℕ) × (f : Choice) × (p.selected ≡ some k)
      × (get_elem? p.options k ≡ some f)
      × (is_unsupported h f ≡ false)

-- The last health answer.
abbrev pub last_health : Health → List Event → Health
last_health h [] = h
last_health h (health (some g) ∷ es) = last_health g es
last_health h (health none ∷ es) = last_health h es
last_health h (capabilities r ∷ es) = last_health h es
last_health h (choose i ∷ es) = last_health h es
last_health h (choose_mode m ∷ es) = last_health h es

-- The model of each health answer supports one of the options.
abbrev pub offers : List Choice → Health → Bool
offers [] h = false
offers (o ∷ os) h = not (is_unsupported h o) || offers os h

abbrev pub are_offered : List Choice → List Event → Bool
are_offered os [] = true
are_offered os (health (some g) ∷ es) = offers os g && are_offered os es
are_offered os (health none ∷ es) = are_offered os es
are_offered os (capabilities r ∷ es) = are_offered os es
are_offered os (choose i ∷ es) = are_offered os es
are_offered os (choose_mode m ∷ es) = are_offered os es

offers-get :
    (os : List Choice) (h : Health)
    → offers os h ≡ true
    → (j : ℕ) × (d : Choice) × (get_elem? os j ≡ some d) × (is_unsupported h d ≡ false)
offers-get [] h e = absurd (cc)
offers-get (o ∷ os) h e = elim (Bool-cases (is_unsupported h o)) [
  | inr f ↦ (0, o, refl, f)
  | inl f ↦ let (j, d, at, free) = offers-get os h (ground arith) in (suc j, d, at, free)
]

unsupported-mark :
    (g h : Health) (o : Choice) → is_unsupported g (mark_choice h o) ≡ is_unsupported g o
unfolding is_unsupported mark_choice
unsupported-mark g h o = refl

offers-mark : (g h : Health) (os : List Choice) → offers (mark_choices h os) g ≡ offers os g
unfolding mark_choices
offers-mark g h [] = refl
offers-mark g h (o ∷ os) = rw (unsupported-mark g h o, offers-mark g h os) refl

answered-IsChosen :
    (h : Health) (p : Picker) (k : ℕ) (o : Choice)
    → distinct_values p.options ≡ true
    → p.selected ≡ some k
    → get_elem? p.options k ≡ some o
    → offers p.options h ≡ true
    → IsChosen h (sync_test_languages (some h) p)
unfolding sync_test_languages
answered-IsChosen h p k o u s at off =
    let (j, d, there, free) = offers-get p.options h off in
    let (m, f, chosen, found, fine, _) =
      sync_test_languages-is_unsupported h p k j o d u s at there free in
    record {
      distinct = distinct_values-mark_choices h p.options ∙ u;
      marked = λ i c e.
          let (b, here, same) = get_elem?-mark_choices h p.options i c e in
          rw same (unfold mark_choice is_unsupported in refl);
      chosen = (
        m,
        mark_choice h f,
        chosen,
        mark_choices-get h p.options m f found,
        unsupported-mark h h f ∙ fine,
      );
    }

are_offered-mark :
    (h : Health) (os : List Choice) (es : List Event)
    → are_offered (mark_choices h os) es ≡ are_offered os es
are_offered-mark h os [] = refl
are_offered-mark h os (health (some g) ∷ es) =
    rw (offers-mark g h os, are_offered-mark h os es) refl
are_offered-mark h os (health none ∷ es) = are_offered-mark h os es
are_offered-mark h os (capabilities r ∷ es) = are_offered-mark h os es
are_offered-mark h os (choose i ∷ es) = are_offered-mark h os es
are_offered-mark h os (choose_mode m ∷ es) = are_offered-mark h os es

free_option :
    (o : Option Choice) → is_free o ≡ true → (f : Choice) × (o ≡ some f) × (f.disabled ≡ false)
free_option none e = absurd (cc)
free_option (some f) e = (f, refl, ground arith)

picked-IsChosen :
    (h : Health) (p : Picker) (i : ℕ)
    → IsChosen h p
    → is_free (get_elem? p.options i) ≡ true
    → IsChosen h (record p { selected = some i })
picked-IsChosen h p i c e =
    let (f, at, on) = free_option (get_elem? p.options i) e in
    record {
      distinct = c.distinct;
      marked = c.marked;
      chosen = (i, f, refl, at, sym (c.marked i f at) ∙ on);
    }

choose_on :
    (i : ℕ) (t : TestTab)
    → is_free (get_elem? t.picker.options i) ≡ true
    → (handle (choose i) t).picker ≡ record t.picker { selected = some i }
unfolding handle
choose_on i t e = rw e refl

choose_off :
    (i : ℕ) (t : TestTab)
    → is_free (get_elem? t.picker.options i) ≡ false
    → (handle (choose i) t).picker ≡ t.picker
unfolding handle
choose_off i t e = rw e refl

choose-IsChosen :
    (h : Health) (t : TestTab) (i : ℕ)
    → IsChosen h t.picker
    → IsChosen h (handle (choose i) t).picker
      × ((handle (choose i) t).picker.options ≡ t.picker.options)
choose-IsChosen h t i c = elim (Bool-cases (is_free (get_elem? t.picker.options i))) [
  | inl e ↦ (
    subst (IsChosen h) (sym (choose_on i t e)) (picked-IsChosen h t.picker i c e),
    ap (λ (p : Picker). p.options) (choose_on i t e),
  )
  | inr e ↦ (
    subst (IsChosen h) (sym (choose_off i t e)) c,
    ap (λ (p : Picker). p.options) (choose_off i t e),
  )
]

run-IsChosen :
    (es : List Event) (h : Health) (t : TestTab)
    → IsChosen h t.picker
    → are_offered t.picker.options es ≡ true
    → IsChosen (last_health h es) (run es t).picker
unfolding handle
run-IsChosen [] h t c e = c
run-IsChosen (health (some g) ∷ es) h t c e =
    let (k, f, s, at, fine) = c.chosen in
    run-IsChosen es g (handle (health (some g)) t)
      (answered-IsChosen g t.picker k f c.distinct s at (ground arith))
      (unfold sync_test_languages in are_offered-mark g t.picker.options es ∙ ground arith)
run-IsChosen (health none ∷ es) h t c e = run-IsChosen es h (handle (health none) t) c e
run-IsChosen (capabilities r ∷ es) h t c e = run-IsChosen es h (handle (capabilities r) t) c e
run-IsChosen (choose i ∷ es) h t c e =
    let (d, same) = choose-IsChosen h t i c in
    run-IsChosen es h (handle (choose i) t) d (ap (λ os. are_offered os es) same ∙ e)
run-IsChosen (choose_mode m ∷ es) h t c e = run-IsChosen es h (handle (choose_mode m) t) c e

-- From a health answer on, through any further answers, failed ones too, and any choices of the
-- user: the language that is selected is one that the model of the last health answer supports, and
-- exactly the options that it does not support are disabled. Each of these models supports one of
-- the options, whose values are distinct.
pub run-health-IsChosen :
    (h : Health) (es : List Event) (t : TestTab) (k : ℕ) (o : Choice)
    → distinct_values t.picker.options ≡ true
    → t.picker.selected ≡ some k
    → get_elem? t.picker.options k ≡ some o
    → offers t.picker.options h ≡ true
    → are_offered t.picker.options es ≡ true
    → IsChosen (last_health h es) (run es (handle (health (some h)) t)).picker
unfolding handle
run-health-IsChosen h es t k o u s at off rest =
    run-IsChosen es h (handle (health (some h)) t) (answered-IsChosen h t.picker k o u s at off)
      (unfold sync_test_languages in are_offered-mark h t.picker.options es ∙ rest)
