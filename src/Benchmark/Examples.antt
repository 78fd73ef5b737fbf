-- ===== src/Benchmark/Examples.antt =====
-- Runs of the benchmark of app/webui/app.js, with whole numbers for its numbers.
use vocagateway.Base.{
  ℕ, zero, suc, ◌+◌, ◌/◌, ◌≤◌, ◌≡◌, refl, true, [], ◌++◌, none, some, max, leb, codes, decimal,
}
use vocagateway.Cleanup.Report.{Report}
use vocagateway.Benchmark.Runs.{
  Reply, refused, accepted, failed, Ends, runs_or_one, benchmark, benchmark-Ends,
}
use vocagateway.Benchmark.Figures.{Numbers, Measure}

abbrev whole : Numbers ℕ
whole = record {
  nought = 0;
  plus = λ a b. a + b;
  over = λ a k. a / k;
  larger = λ a b. max a b;
  is_second = λ a. leb 1000 a;
  seconds = λ a. decimal (a / 1000);
  rounded = λ a. decimal a;
  fixed_two = λ a. decimal a ++ codes ".00";
  fixed_none = λ a. decimal a;
}

abbrev heard : ℕ → Measure ℕ
heard ms = record {
  texts = record { cleanup = none; original_transcript = none; transcript = some (codes "hi") };
  engine = codes "e";
  duration_ms = some ms;
  normalization_ms = some 1;
  inference_ms = some ms;
  cleanup_ms = none;
  model_load_ms = 9;
  real_time_factor = none;
  peak_memory_mb = some ms;
}

-- Two runs go well, and the third is refused.
abbrev third_refused : ℕ → Reply (Measure ℕ)
third_refused zero = accepted (heard 900)
third_refused (suc zero) = accepted (heard 300)
third_refused (suc (suc k)) = refused none

third_refused_run :
    (benchmark third_refused (some 3)).outcome ≡ failed (codes "Transcription failed.")
unfolding benchmark
third_refused_run = refl

benchmark-Ends_example :
    Ends third_refused 0 (runs_or_one (some 3)) [] (benchmark third_refused (some 3))
    × (1 ≤ runs_or_one (some 3))
benchmark-Ends_example = benchmark-Ends third_refused (some 3)

abbrev blank : Report
blank = record {
  transcript = [];
  original = [];
  block_hidden = true;
  status = [];
  status_hidden = true;
}
