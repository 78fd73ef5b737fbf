-- ===== src/Cleanup/Alone.antt =====
-- Each panel of app/webui/app.js has at most one correction of its try-it box under way.
use vocagateway.Base.{
  ℕ, suc, ◌≤◌, ◌≡◌, ◌≢◌, refl, ap, subst, ◌∙◌, Bool, false, List, [], ◌∷◌, none, some, Text, ◌==◌,
  ==_iff, text_eq, codes, if◌then◌else◌, arith, Bool-cases, Option-cases, inl, inr, ◌>>=◌,
}
use vocagateway.Diff.Paint.{Comparison}
use vocagateway.Cleanup.Advice.{describe_cleanup}
use vocagateway.Diff.Results.{paint_comparison_lem}
use vocagateway.Cleanup.Preview.{
  Reply, thrown, not_ok, answer, Preview, text_content, paint_preview,
}
use vocagateway.Cleanup.Release.{finish_preview_lem}
use vocagateway.Cleanup.Box.{
  Box, Page, served_box, Event, write, move_focus, click_run, click_sample, swap_panel, receive,
  waiting_for, answered, finish_elsewhere, finish_in, receive_reply, handle, run,
}
use vocagateway.Cleanup.Clicks.{
  IsTold, IsAlone, waiting_for-answered, IsTold-map, map_box-IsAlone, run_cleanup_preview-IsAlone,
}

abbrev painted : Preview → Comparison → Text → Preview
painted v c status = record v { after = c.transcript; before = c.original; status = status }

abbrev IsKept : Preview → Preview → Type 0
IsKept v w = (w.button_disabled ≡ v.button_disabled) × (w.button ≡ v.button)

abbrev IsFree : Preview → Type 0
IsFree w = (w.button_disabled ≡ false) × (w.button ≡ codes "Correct this text")

finish_elsewhere_lem :
    (reply : Reply) (v : Preview) → (w : Preview) × (finish_elsewhere reply v ≡ some w) × IsKept v w
unfolding finish_elsewhere paint_preview
finish_elsewhere_lem (thrown message text) v = (v, refl, (refl, refl))
finish_elsewhere_lem not_ok v = (v, refl, (refl, refl))
finish_elsewhere_lem (answer p) v =
    let (c, e, _, _, _) = paint_comparison_lem p.without_cleanup p.transcript in
    elim (Bool-cases (text_eq p.without_cleanup p.transcript)) [
      | inl same ↦ (
        record v {
          after = text_content p.transcript;
          before = text_content p.without_cleanup;
          status = describe_cleanup p.cleanup 0;
        },
        rw same refl,
        (refl, refl),
      )
      | inr differ ↦
          (painted v c (describe_cleanup p.cleanup c.edits), rw (differ, e) refl, (refl, refl))
    ]

finish_in_lem :
    (k : ℕ) (reply : Reply) (b : Box)
    → (v : Preview) × (finish_in k reply b ≡ some (record b { preview = v }))
      × (b.panel ≡ k → IsFree v)
      × (b.panel ≢ k → IsKept b.preview v)
unfolding finish_in
finish_in_lem k reply b = elim (Bool-cases (b.panel == k)) [
  | inl e ↦
      let (v, done, free, label, _, _) = finish_preview_lem reply b.preview in
      (v, rw (e, done) refl, λ _. (free, label), λ n. absurd (n ((==_iff b.panel k).0 e)))
  | inr e ↦
      let (v, done, kept) = finish_elsewhere_lem reply b.preview in
      (v, rw (e, done) refl, λ q. absurd (ground (arith, ==_iff b.panel k)), λ _. kept)
]

answered-at_most_one :
    (k j : ℕ) (ws : List ℕ)
    → waiting_for k ws ≢ 0
    → waiting_for j (answered k ws) ≤ waiting_for j ws
answered-at_most_one k j ws busy =
    ground (arith, waiting_for-answered k j ws, ap (λ m. waiting_for m ws))

answered-IsTold :
    (k : ℕ) (p : Page) (b : Box) (v : Preview)
    → IsAlone p
    → waiting_for k p.waiting ≢ 0
    → p.box ≡ some b
    → (b.panel ≡ k → IsFree v)
    → (b.panel ≢ k → IsKept b.preview v)
    → IsTold p.next_panel (answered k p.waiting) (record b { preview = v })
answered-IsTold k p b v i busy e free kept = elim (Bool-cases (b.panel == k)) [
  | inl same ↦
      let here : b.panel ≡ k = (==_iff b.panel k).0 same in
      let none_left : waiting_for b.panel (answered k p.waiting) ≡ 0 =
        rw here (omega (arith, (waiting_for-answered k k p.waiting).0 busy, i.at_most_one k)) in
      record {
        earlier = (i.told b e).earlier;
        disabled = rw none_left (free here).0;
        label = rw none_left (free here).1;
      }
  | inr other ↦
      let elsewhere : b.panel ≢ k = λ q. ground (arith, ==_iff b.panel k) in
      IsTold-map p.next_panel p.waiting (answered k p.waiting) b (record b { preview = v }) refl
        (kept elsewhere).0 (kept elsewhere).1
        ((waiting_for-answered k b.panel p.waiting).1 elsewhere) (i.told b e)
]

receive_none :
    (k : ℕ) (reply : Reply) (p : Page)
    → p.box ≡ none
    → receive_reply k reply p ≡ some (record p { waiting = answered k p.waiting })
unfolding receive_reply
receive_none k reply p e = ground arith

receive_some :
    (k : ℕ) (reply : Reply) (p : Page) (b c : Box)
    → p.box ≡ some b
    → finish_in k reply b ≡ some c
    → receive_reply k reply p ≡ some (record p { box = some c; waiting = answered k p.waiting })
unfolding receive_reply
receive_some k reply p b c e done = rw (e, done) refl

answered-none_later :
    (k : ℕ) (p : Page)
    → IsAlone p
    → waiting_for k p.waiting ≢ 0
    → (j : ℕ) → p.next_panel ≤ j
    → waiting_for j (answered k p.waiting) ≡ 0
answered-none_later k p i busy j h =
    omega (arith, answered-at_most_one k j p.waiting busy, i.none_later j h)

receive_reply-IsAlone :
    (k : ℕ) (reply : Reply) (p : Page)
    → IsAlone p
    → waiting_for k p.waiting ≢ 0
    → (q : Page) × (receive_reply k reply p ≡ some q) × IsAlone q
receive_reply-IsAlone k reply p i busy =
    let fewer : (j : ℕ) → waiting_for j (answered k p.waiting) ≤ 1 =
      λ j. omega (arith, answered-at_most_one k j p.waiting busy, i.at_most_one j) in
    elim (Option-cases p.box) [
      | inl e ↦ (
        record p { waiting = answered k p.waiting },
        receive_none k reply p e,
        record {
          at_most_one = fewer;
          none_later = answered-none_later k p i busy;
          told = λ d h. absurd (cc);
          asked = i.asked;
        },
      )
      | inr (b, e) ↦
          let (v, done, free, kept) = finish_in_lem k reply b in
          let c : Box = record b { preview = v } in
          (
            record p { box = some c; waiting = answered k p.waiting },
            receive_some k reply p b c e done,
            record {
              at_most_one = fewer;
              none_later = answered-none_later k p i busy;
              told = λ d h.
                  let here : c ≡ d = cc in
                  subst (IsTold p.next_panel (answered k p.waiting)) here
                    (answered-IsTold k p b v i busy e free kept);
              asked = i.asked;
            },
          )
    ]

swap_panel-IsAlone :
    (has_box : Bool) (p : Page)
    → IsAlone p
    → IsAlone (record p {
      box = if has_box then some (served_box p.next_panel) else none;
      next_panel = suc p.next_panel;
    })
swap_panel-IsAlone has_box p i =
    let unasked = i.none_later p.next_panel (omega arith) in
    record {
      at_most_one = i.at_most_one;
      none_later = λ k h. i.none_later k (omega arith);
      told = elim (Bool-cases has_box) [
        | inl e ↦ λ d h.
            let here : served_box p.next_panel ≡ d = ground (arith, e) in
            subst (IsTold (suc p.next_panel) p.waiting) here (record {
              earlier = omega arith;
              disabled = rw unasked refl;
              label = rw unasked refl;
            })
        | inr e ↦ λ d h. absurd (ground (arith, e))
      ];
      asked = i.asked;
    }

handle-IsAlone : (e : Event) (p : Page) → IsAlone p → (q : Page) × (handle e p ≡ some q) × IsAlone q
unfolding handle
handle-IsAlone (write text) p i = (_, refl, map_box-IsAlone _ p (λ b. (refl, refl)) i)
handle-IsAlone (move_focus to_input) p i = (_, refl, map_box-IsAlone _ p (λ b. (refl, refl)) i)
handle-IsAlone click_run p i = (_, refl, run_cleanup_preview-IsAlone p i)
handle-IsAlone click_sample p i = (_, refl, map_box-IsAlone _ p (λ b. (refl, refl)) i)
handle-IsAlone (swap_panel has_box) p i = (_, refl, swap_panel-IsAlone has_box p i)
handle-IsAlone (receive k reply) p i = elim (Bool-cases (waiting_for k p.waiting == 0)) [
  | inl e ↦ (p, rw e refl, i)
  | inr e ↦
      rw e (
        receive_reply-IsAlone k reply p i (λ q. ground (arith, ==_iff (waiting_for k p.waiting) 0)))
]

-- However one writes, clicks, swaps panels and is answered, from a page on where this holds: every
-- run completes, no panel has more than one correction under way, the button that is there is
-- disabled, with the label "Correcting…", exactly while its own panel has one, and no empty text is
-- sent.
pub run-IsAlone :
    (es : List Event) (p : Page) → IsAlone p → (q : Page) × (run es p ≡ some q) × IsAlone q
run-IsAlone [] p i = (p, refl, i)
run-IsAlone (e ∷ es) p i =
    let (q, h, j) = handle-IsAlone e p i in
    let (r, k, l) = run-IsAlone es q j in (r, ap (λ o. o >>= λ x. run es x) h ∙ k, l)
