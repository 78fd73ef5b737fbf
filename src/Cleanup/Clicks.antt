-- ===== src/Cleanup/Clicks.antt =====
-- What the buttons of the try-it box of app/webui/app.js do to the count of awaited replies.
use vocagateway.Base.{
  ℕ, ◌+◌, ◌≤◌, ◌<◌, ◌≡◌, ◌≢◌, refl, sym, ap, subst, ◌∙◌, Bool, true, false, not, ◌&&◌, List, [],
  ◌∷◌, none, some, Text, ◌==◌, ==_iff, text_eq, trim, codes, if◌then◌else◌, arith, Bool-cases,
  Option-cases, inl, inr,
}
use vocagateway.Cleanup.Preview.{Preview, begin_preview}
use vocagateway.Cleanup.Box.{Box, Page, map_box, waiting_for, answered, run_cleanup_preview}

abbrev pub are_asked : List Text → Bool
are_asked [] = true
are_asked (t ∷ ts) = not (text_eq t []) && are_asked ts

-- The button is disabled exactly while its panel awaits a reply, and its label tells which.
pub record IsTold (next : ℕ) (waiting : List ℕ) (b : Box) : Type 0 where
  pub earlier : b.panel < next
  pub disabled : b.preview.button_disabled ≡ (waiting_for b.panel waiting == 1)
  pub label : b.preview.button ≡ (
      if waiting_for b.panel waiting == 1 then codes "Correcting…" else codes "Correct this text")

-- No panel awaits more than one reply, a later one awaits none, and no empty text was sent.
pub record IsAlone (p : Page) : Type 0 where
  pub at_most_one : (k : ℕ) → waiting_for k p.waiting ≤ 1
  pub none_later : (k : ℕ) → p.next_panel ≤ k → waiting_for k p.waiting ≡ 0
  pub told : (b : Box) → p.box ≡ some b → IsTold p.next_panel p.waiting b
  pub asked : are_asked p.sent ≡ true

waiting_for-cons :
    (j k : ℕ) (js : List ℕ)
    → (j ≡ k → waiting_for k (j ∷ js) ≡ waiting_for k js + 1)
      × (j ≢ k → waiting_for k (j ∷ js) ≡ waiting_for k js)
waiting_for-cons j k js = (λ e. ground (arith, ==_iff j k), λ n. ground (arith, ==_iff j k))

-- After a reply the panel awaits one less, and the others as many as before.
pub waiting_for-answered :
    (k j : ℕ) (js : List ℕ)
    → (waiting_for k js ≢ 0 → waiting_for k (answered k js) + 1 ≡ waiting_for k js)
      × (j ≢ k → waiting_for j (answered k js) ≡ waiting_for j js)
waiting_for-answered k j [] = (λ n. absurd (n refl), λ n. refl)
waiting_for-answered k j (i ∷ js) =
    let (one_less, others) = waiting_for-answered k j js in
    elim (Bool-cases (i == k)) [
      | inl e ↦ ground (arith, ==_iff i k, ==_iff i j)
      | inr e ↦ ground (arith, one_less, others, ==_iff i k, ==_iff i j)
    ]

-- What a request from a panel, or the reply to it, makes of the box.
pub IsTold-map :
    (next : ℕ) (ws vs : List ℕ) (b c : Box)
    → c.panel ≡ b.panel
    → c.preview.button_disabled ≡ b.preview.button_disabled
    → c.preview.button ≡ b.preview.button
    → waiting_for b.panel vs ≡ waiting_for b.panel ws
    → IsTold next ws b
    → IsTold next vs c
IsTold-map next ws vs b c panel disabled label same t =
    let kept : waiting_for c.panel vs ≡ waiting_for b.panel ws =
      ap (λ k. waiting_for k vs) panel ∙ same in
    record {
      earlier = rw panel t.earlier;
      disabled = rw kept (disabled ∙ t.disabled);
      label = rw kept (label ∙ t.label);
    }

map_box-none : (f : Box → Box) (p : Page) → p.box ≡ none → map_box f p ≡ p
map_box-none f p e = ground arith

map_box-some :
    (f : Box → Box) (p : Page) (b : Box)
    → p.box ≡ some b
    → map_box f p ≡ record p { box = some (f b) }
map_box-some f p b e = ground arith

-- Another box of the same panel, while as many replies are awaited as before.
pub IsAlone-box :
    (p : Page) (b c : Box)
    → p.box ≡ some b
    → c.panel ≡ b.panel
    → c.preview.button_disabled ≡ b.preview.button_disabled
    → c.preview.button ≡ b.preview.button
    → IsAlone p
    → IsAlone (record p { box = some c })
IsAlone-box p b c e panel disabled label i = record {
  at_most_one = i.at_most_one;
  none_later = i.none_later;
  told = λ d h.
      let here : c ≡ d = cc in
      subst (IsTold p.next_panel p.waiting) here
        (IsTold-map p.next_panel p.waiting p.waiting b c panel disabled label refl (i.told b e));
  asked = i.asked;
}

pub map_box-IsAlone :
    (f : Box → Box) (p : Page)
    → ((b : Box) → ((f b).panel ≡ b.panel) × ((f b).preview ≡ b.preview))
    → IsAlone p
    → IsAlone (map_box f p)
map_box-IsAlone f p same i = elim (Option-cases p.box) [
  | inl e ↦ subst IsAlone (sym (map_box-none f p e)) i
  | inr (b, e) ↦ subst IsAlone (sym (map_box-some f p b e)) (
      IsAlone-box p b (f b) e (same b).0 (ap Preview.button_disabled (same b).1)
        (ap Preview.button (same b).1) i)
]

-- A request of the panel that is there.
send-IsAlone :
    (p : Page) (b : Box) (v : Preview) (text : Text)
    → p.box ≡ some b
    → waiting_for b.panel p.waiting ≡ 0
    → text_eq text [] ≡ false
    → v.button_disabled ≡ true
    → v.button ≡ codes "Correcting…"
    → IsAlone p
    → IsAlone (record p {
      box = some (record b { preview = v });
      sent = text ∷ p.sent;
      waiting = b.panel ∷ p.waiting;
    })
send-IsAlone p b v text e free spoken disabled label i =
    let earlier = (i.told b e).earlier in
    let one : waiting_for b.panel (b.panel ∷ p.waiting) ≡ 1 =
      ground (arith, (waiting_for-cons b.panel b.panel p.waiting).0) in
    record {
      at_most_one = λ k.
          ground
            (arith, ==_iff b.panel k, i.at_most_one k, free, ap (λ m. waiting_for m p.waiting));
      none_later = λ k h. ground (arith, ==_iff b.panel k, i.none_later k, earlier);
      told = λ d h.
          let here : record b { preview = v } ≡ d = cc in
          subst (IsTold p.next_panel (b.panel ∷ p.waiting)) here
            (record { earlier = earlier; disabled = rw one disabled; label = rw one label });
      asked = ground (arith, spoken, i.asked);
    }

click_none : (p : Page) → p.box ≡ none → run_cleanup_preview p ≡ p
unfolding run_cleanup_preview
click_none p e = ground arith

click_disabled :
    (p : Page) (b : Box)
    → p.box ≡ some b
    → b.preview.button_disabled ≡ true
    → run_cleanup_preview p ≡ p
unfolding run_cleanup_preview
click_disabled p b e d = ground arith

click_blank :
    (p : Page) (b : Box)
    → p.box ≡ some b
    → b.preview.button_disabled ≡ false
    → text_eq (trim b.input) [] ≡ true
    → run_cleanup_preview p ≡ record p { box = some (record b { input_focused = true }) }
unfolding run_cleanup_preview begin_preview
click_blank p b e d blank = ground arith

abbrev waits : Preview → Preview
waits v = record v { button_disabled = true; button = codes "Correcting…" }

click_sends :
    (p : Page) (b : Box)
    → p.box ≡ some b
    → b.preview.button_disabled ≡ false
    → text_eq (trim b.input) [] ≡ false
    → run_cleanup_preview p ≡ record p {
      box = some (record b { preview = waits b.preview });
      sent = trim b.input ∷ p.sent;
      waiting = b.panel ∷ p.waiting;
    }
unfolding run_cleanup_preview begin_preview
click_sends p b e d spoken = ground arith

pub run_cleanup_preview-IsAlone : (p : Page) → IsAlone p → IsAlone (run_cleanup_preview p)
run_cleanup_preview-IsAlone p i = elim (Option-cases p.box) [
  | inl e ↦ subst IsAlone (sym (click_none p e)) i
  | inr (b, e) ↦ elim (Bool-cases b.preview.button_disabled) [
    | inl d ↦ subst IsAlone (sym (click_disabled p b e d)) i
    | inr d ↦ elim (Bool-cases (text_eq (trim b.input) [])) [
      | inl blank ↦
          subst IsAlone (sym (click_blank p b e d blank))
            (IsAlone-box p b (record b { input_focused = true }) e refl refl refl i)
      | inr spoken ↦
          let free : waiting_for b.panel p.waiting ≡ 0 = ground (
            arith,
            (i.told b e).disabled,
            i.at_most_one b.panel,
            ==_iff (waiting_for b.panel p.waiting) 1,
          ) in
          subst IsAlone (sym (click_sends p b e d spoken))
            (send-IsAlone p b (waits b.preview) (trim b.input) e free spoken refl refl i)
    ]
  ]
]
