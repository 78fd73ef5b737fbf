-- ===== src/Benchmark/Figures.antt =====
-- The figures that a finished benchmark shows (app/webui/app.js). The numbers of a payload are
-- floating-point; their type and the operations on them that the script uses are parameters.
use vocagateway.Base.{
  ◌↔◌, false, ℕ, ◌-◌, ◌≤◌, ◌≡◌, refl, ap, Bool, List, [], ◌∷◌, ◌++◌, Option, none, some, Text,
  ◌>>=◌, length, ltb, if◌then◌else◌, codes, decimal, arith,
}
use vocagateway.Cleanup.Report.{Payload, Report, or_empty, is_present, render_cleanup_comparison}
use vocagateway.Cleanup.Preview.{text_content}
use vocagateway.Cleanup.Counts.{render_cleanup_comparison_lem, IsReported}

pub record Numbers (F : Type 0) : Type 0 where
  pub nought : F
  pub plus : F → F → F
  -- division by a count
  pub over : F → ℕ → F
  pub larger : F → F → F
  -- `value >= 1000`, `(value / 1000).toFixed(2)`, `Math.round(value)`, `toFixed(2)`, `toFixed(0)`
  pub is_second : F → Bool
  pub seconds : F → Text
  pub rounded : F → Text
  pub fixed_two : F → Text
  pub fixed_none : F → Text

-- The fields of one run's payload. `none` is a field that is missing or null.
pub record Measure (F : Type 0) : Type 0 where
  pub texts : Payload
  pub engine : Text
  pub duration_ms : Option F
  pub normalization_ms : Option F
  pub inference_ms : Option F
  pub cleanup_ms : Option F
  pub model_load_ms : F
  pub real_time_factor : Option F
  pub peak_memory_mb : Option F

-- The texts of the elements.
pub record Figures : Type 0 where
  pub report : Report
  pub meta : Text
  pub total : Text
  pub normalize : Text
  pub load : Text
  pub inference : Text
  pub cleanup : Text
  pub real_time_factor : Text
  pub memory : Text

module _ {F : Type 0} (n : Numbers F) where
  open n use {nought, plus, over, larger, is_second, seconds, rounded, fixed_two, fixed_none}

  -- `item[field] || 0`
  abbrev pub or_nought : Option F → F
  or_nought none = nought
  or_nought (some v) = v

  -- `payloads.length > 1 ? payloads.slice(1) : payloads`
  abbrev pub measured_payloads : List (Measure F) → List (Measure F)
  measured_payloads [] = []
  measured_payloads (p ∷ []) = p ∷ []
  measured_payloads (p ∷ q ∷ ps) = q ∷ ps

  abbrev pub sum_from : (Measure F → Option F) → F → List (Measure F) → F
  sum_from field sum [] = sum
  sum_from field sum (p ∷ ps) = sum_from field (plus sum (or_nought (field p))) ps

  unfoldable pub average : (Measure F → Option F) → List (Measure F) → F
  average field ps = over (sum_from field nought ps) (length ps)

  unfoldable pub format_ms : F → Text
  format_ms v = if is_second v then seconds v ++ codes "s" else rounded v ++ codes "ms"

  abbrev pub last : Measure F → List (Measure F) → Measure F
  last p [] = p
  last p (q ∷ ps) = last q ps

  -- `Math.max(...)` of the memory of all runs
  abbrev pub peak : Measure F → List (Measure F) → F
  peak p [] = or_nought p.peak_memory_mb
  peak p (q ∷ ps) = larger (or_nought p.peak_memory_mb) (peak q ps)

  abbrev pub or_dash : Option F → Text → Text
  or_dash none text = codes "—"
  or_dash (some v) text = text

  unfoldable pub meta_line : ℕ → Measure F → Text
  meta_line runs p =
      if ltb 1 runs
      then p.engine
        ++ codes " · warm average of runs 2-"
        ++ decimal runs
        ++ codes "; model load is run 1"
      else p.engine ++ codes " · 1-run result"

  abbrev pub figures_of : ℕ → Measure F → List (Measure F) → Report → Figures
  figures_of runs p ps r =
      let payload = last p ps in
      let warm = measured_payloads (p ∷ ps) in
      record {
        report = r;
        meta = meta_line runs payload;
        total = format_ms (average Measure.duration_ms warm);
        normalize = format_ms (average Measure.normalization_ms warm);
        load = format_ms p.model_load_ms;
        inference = format_ms (average Measure.inference_ms warm);
        cleanup =
            if is_present payload.texts.cleanup
            then format_ms (average Measure.cleanup_ms warm)
            else codes "—";
        real_time_factor =
            or_dash payload.real_time_factor
              (fixed_two (average Measure.real_time_factor warm) ++ codes "×");
        memory = or_dash payload.peak_memory_mb (fixed_none (peak p ps) ++ codes " MB");
      }

  -- Without a payload the script would throw; with one, `none` is a fault in the comparison.
  unfoldable pub show_figures : ℕ → List (Measure F) → Report → Option Figures
  unfolding average format_ms meta_line
  show_figures runs [] before = none
  show_figures runs (p ∷ ps) before =
      let payload = last p ps in
      let shown = record before { transcript = text_content (or_empty payload.texts.transcript) } in
      render_cleanup_comparison payload.texts (some shown) >>= λ r. elim r [
        | none ↦ none
        | some report ↦ some (figures_of runs p ps report)
      ]

  measured_payloads-length :
      (p : Measure F) (ps : List (Measure F))
      → (1 ≤ length (measured_payloads (p ∷ ps)))
        × (length (measured_payloads (p ∷ ps))
            ≡ (if ltb 1 (length (p ∷ ps)) then length (p ∷ ps) - 1 else 1))
  measured_payloads-length p [] = (omega arith, refl)
  measured_payloads-length p (q ∷ ps) = (omega arith, ground arith)

  -- A finished benchmark always has figures to show: those of the last run's texts, the first run's
  -- load time, and times that are means over the runs after the first, or over the only run.
  pub show_figures_lem :
      (runs : ℕ) (p : Measure F) (ps : List (Measure F)) (before : Report)
      → (f : Figures) × (show_figures runs (p ∷ ps) before ≡ some f)
        × ((f.report.block_hidden ≡ false) ↔ IsReported (last p ps).texts)
        × (f.load ≡ format_ms p.model_load_ms)
        × (f.total
            ≡ format_ms (
                over
                  (sum_from Measure.duration_ms nought (measured_payloads (p ∷ ps)))
                  (if ltb 1 (length (p ∷ ps)) then length (p ∷ ps) - 1 else 1)))
        × (f.inference
            ≡ format_ms (
                over
                  (sum_from Measure.inference_ms nought (measured_payloads (p ∷ ps)))
                  (if ltb 1 (length (p ∷ ps)) then length (p ∷ ps) - 1 else 1)))
  unfolding show_figures
  show_figures_lem runs p ps before =
      let shown : Report = record before {
        transcript = text_content (or_empty (last p ps).texts.transcript);
      } in
      let (r, e, block, _, _, _) = render_cleanup_comparison_lem (last p ps).texts shown in
      let count = (measured_payloads-length p ps).1 in
      (
        figures_of runs p ps r,
        rw e refl,
        block,
        refl,
        ap
            (λ k.
              format_ms (over (sum_from Measure.duration_ms nought (measured_payloads (p ∷ ps))) k))
            count,
        ap
            (λ k.
              format_ms
                (over (sum_from Measure.inference_ms nought (measured_payloads (p ∷ ps))) k))
            count,
      )
