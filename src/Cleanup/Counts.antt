-- ===== src/Cleanup/Counts.antt =====
-- What the cleanup report of app/webui/app.js (`renderCleanupComparison`) shows.
use vocagateway.Base.{
  ◌↔◌, ◌++◌, ◌==◌, ==_iff, if◌then◌else◌, text_eq, text_eq_iff, arith, ℕ, ◌<◌, ◌≡◌, ◌⊎◌, ◌≢◌, ◌∷◌,
  refl, true, false, not, [], Option, none, some, Text, length, codes, decimal, filter, drop_while,
  is_space, inl, inr, Bool-cases,
}
use vocagateway.Diff.Common.{diff_token_limit}
use vocagateway.Diff.Tokens.{tokenize}
use vocagateway.Diff.Painting.{content, is_span}
use vocagateway.Diff.Results.{paint_comparison_lem, paint_comparison_over}
use vocagateway.Cleanup.Advice.{Cleanup, describe_cleanup, describe_cleanup-ne-nil, count_message}
use vocagateway.Cleanup.Report.{
  Payload, Report, or_empty, is_present, is_nonempty, is_changed, render_cleanup_comparison, report,
}

is_nonempty_lem : (s : Text) → s ≢ [] → is_nonempty s ≡ true
is_nonempty_lem [] h = absurd (h refl)
is_nonempty_lem (c ∷ s) h = refl

-- What the block with the plain transcript is there for: cleanup ran on a text, and changed it.
abbrev pub IsReported : Payload → Type 0
IsReported p =
    (p.cleanup ≢ none)
    × (or_empty p.original_transcript ≢ [])
    × (or_empty p.original_transcript ≢ or_empty p.transcript)

is_present_iff {ℓ} : {A : Type ℓ} (o : Option A) → (is_present o ≡ true) ↔ (o ≢ none)
is_present_iff none = (λ h. absurd (cc), λ h. absurd (h refl))
is_present_iff (some a) = (λ h q. cc, λ h. refl)

not-text_eq_iff : (s t : Text) → (not (text_eq s t) ≡ true) ↔ (s ≢ t)
not-text_eq_iff s t = (λ h q. ground (arith, text_eq_iff s t), λ h. ground (arith, text_eq_iff s t))

is_changed_iff : (p : Payload) → (is_changed p ≡ true) ↔ IsReported p
unfolding is_changed
is_changed_iff p =
    let cleanup = is_present_iff p.cleanup in
    let some_text = not-text_eq_iff (or_empty p.original_transcript) [] in
    let differ = not-text_eq_iff (or_empty p.original_transcript) (or_empty p.transcript) in
    (
      λ h. (cleanup.0 (ground arith), some_text.0 (ground arith), differ.0 (ground arith)),
      λ (a, b, c). ground (arith, cleanup.1 a, some_text.1 b, differ.1 c),
    )

status_hidden_lem :
    (c : Option Cleanup) (edits : ℕ)
    → (not (is_nonempty (describe_cleanup c edits)) ≡ true) ↔ (c ≡ none)
status_hidden_lem none edits = (λ h. refl, λ h. unfold describe_cleanup in refl)
status_hidden_lem (some c) edits = (
  λ h. absurd (ground (arith, is_nonempty_lem _ (describe_cleanup-ne-nil c edits))),
  λ h. absurd (cc),
)

-- Rendering always succeeds. The block with the plain transcript is shown exactly when there is a
-- cleanup object, the plain transcript is not empty, and the texts differ. Both texts are then shown
-- whole but for the spaces in front; else what was there before stays. The status line is hidden
-- exactly when there is no cleanup object.
pub render_cleanup_comparison_lem :
    (p : Payload) (before : Report)
    → (r : Report) × (render_cleanup_comparison p (some before) ≡ some (some r))
      × ((r.block_hidden ≡ false) ↔ IsReported p)
      × (IsReported p
          → (content r.transcript ≡ drop_while is_space (or_empty p.transcript))
            × (content r.original ≡ drop_while is_space (or_empty p.original_transcript)))
      × (¬ IsReported p → (r.transcript ≡ before.transcript) × (r.original ≡ before.original))
      × ((r.status_hidden ≡ true) ↔ (p.cleanup ≡ none))
unfolding render_cleanup_comparison
render_cleanup_comparison_lem p before =
    let (c, e, new, old, _) =
      paint_comparison_lem (or_empty p.original_transcript) (or_empty p.transcript) in
    let (reported, changed) = is_changed_iff p in
    elim (Bool-cases (is_changed p)) [
      | inl d ↦ (
        report c.transcript c.original true p.cleanup c.edits,
        rw (d, e) refl,
        (λ h. reported d, λ h. refl),
        λ h. (new, old),
        λ h. absurd (h (reported d)),
        status_hidden_lem p.cleanup c.edits,
      )
      | inr d ↦ (
        report before.transcript before.original false p.cleanup 0,
        rw d refl,
        (λ h. absurd (cc), λ h. absurd (ground (arith, changed h))),
        λ h. absurd (ground (arith, changed h)),
        λ h. (refl, refl),
        status_hidden_lem p.cleanup 0,
      )
    ]

if_many : (n : ℕ) (s t : Text) → n ≢ 1 → (if n == 1 then s else t) ≡ t
if_many n s t more = ground (arith, ==_iff n 1)

-- A correction that was applied and changed the text is reported in words: with the number of words
-- that are marked in the corrected text, where marks in the plain one do not count.
pub render_cleanup_comparison_count :
    (p : Payload) (c : Cleanup) (before : Report)
    → p.cleanup ≡ some c
    → c.status ≡ codes "applied"
    → or_empty p.original_transcript ≢ []
    → or_empty p.original_transcript ≢ or_empty p.transcript
    → (r : Report) × (render_cleanup_comparison p (some before) ≡ some (some r))
      × (length (filter is_span r.transcript) ≡ 1 → r.status ≡ codes "Cleanup changed 1 word.")
      × (length (filter is_span r.transcript) ≢ 1
          → r.status
            ≡ codes "Cleanup changed "
              ++ decimal (length (filter is_span r.transcript))
              ++ codes " words.")
unfolding render_cleanup_comparison describe_cleanup count_message
render_cleanup_comparison_count p c before pc applied some_text differ =
    let (d, e, new, old, edits) =
      paint_comparison_lem (or_empty p.original_transcript) (or_empty p.transcript) in
    let changed : is_changed p ≡ true =
      (is_changed_iff p).1 (λ q. absurd (cc), some_text, differ) in
    (
      report d.transcript d.original true p.cleanup d.edits,
      rw (changed, e) refl,
      λ one. rw (pc, applied, edits, one) refl,
      λ more. rw (pc, applied, edits) (if_many _ _ _ more),
    )

-- If either text has more than 400 words, an applied correction that changed the text is reported
-- as no change, although the block with the plain transcript is shown.
pub over_limit_reports_zero :
    (p : Payload) (c : Cleanup) (before : Report)
    → p.cleanup ≡ some c
    → c.status ≡ codes "applied"
    → is_changed p ≡ true
    → (diff_token_limit < length (tokenize (or_empty p.original_transcript)))
      ⊎ (diff_token_limit < length (tokenize (or_empty p.transcript)))
    → (r : Report) × (render_cleanup_comparison p (some before) ≡ some (some r))
      × (r.status ≡ codes "Cleanup changed 0 words.")
      × (r.block_hidden ≡ false)
unfolding render_cleanup_comparison describe_cleanup count_message decimal
over_limit_reports_zero p c before pc applied changed over =
    let (d, e, edits) =
      paint_comparison_over (or_empty p.original_transcript) (or_empty p.transcript) over in
    (
      report d.transcript d.original true p.cleanup d.edits,
      rw (changed, e) refl,
      rw (pc, applied, edits) refl,
      refl,
    )
