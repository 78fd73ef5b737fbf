-- ===== src/Cleanup/Release.antt =====
-- Every run of the try-it box of app/webui/app.js (`runCleanupPreview`) ends with the button free.
use vocagateway.Base.{
  ℕ, ◌≡◌, refl, Bool, true, false, not, List, some, text_eq, codes, inl, inr, Bool-cases,
}
use vocagateway.Diff.Paint.{Child}
use vocagateway.Diff.Results.{paint_comparison_lem}
use vocagateway.Cleanup.Advice.{describe_cleanup}
use vocagateway.Cleanup.Preview.{
  PreviewPayload, Reply, thrown, not_ok, answer, Preview, text_content, release_button,
  finish_preview,
}

abbrev pub is_answer : Reply → Bool
is_answer (thrown message text) = false
is_answer not_ok = false
is_answer (answer p) = true

abbrev answered : PreviewPayload → Preview → List Child → List Child → ℕ → Preview
answered p v after before edits = release_button (record v {
  after = after;
  before = before;
  status = describe_cleanup p.cleanup edits;
  result_hidden = false;
  error_hidden = true;
})

-- Whatever the request ends in, the run completes, the button is free again with its first label,
-- and exactly one of the two boxes is shown: the result for a payload, the error for the rest.
pub finish_preview_lem :
    (reply : Reply) (v : Preview)
    → (w : Preview) × (finish_preview reply v ≡ some w)
      × (w.button_disabled ≡ false)
      × (w.button ≡ codes "Correct this text")
      × (w.result_hidden ≡ not (is_answer reply))
      × (w.error_hidden ≡ is_answer reply)
unfolding finish_preview
finish_preview_lem (thrown message text) v = (_, refl, refl, refl, refl, refl)
finish_preview_lem not_ok v = (_, refl, refl, refl, refl, refl)
finish_preview_lem (answer p) v =
    let (c, e, _, _, _) = paint_comparison_lem p.without_cleanup p.transcript in
    elim (Bool-cases (text_eq p.without_cleanup p.transcript)) [
      | inl same ↦ (
        answered p v (text_content p.transcript) (text_content p.without_cleanup) 0,
        rw same refl,
        refl,
        refl,
        refl,
        refl,
      )
      | inr differ ↦ (
        answered p v c.transcript c.original c.edits,
        rw (differ, e) refl,
        refl,
        refl,
        refl,
        refl,
      )
    ]
