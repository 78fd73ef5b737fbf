-- ===== src/Benchmark/Runs.antt =====
-- The loop over the benchmark's runs, in the `onstop` of the recorder (app/webui/app.js).
use vocagateway.Base.{
  ℕ, zero, suc, ◌+◌, ◌<◌, ◌≤◌, ◌≡◌, refl, sym, ap, ◌∙◌, ◌⊎◌, inl, inr, List, [], ◌∷◌, ◌++◌, Option,
  none, some, Text, length, ltb, if◌then◌else◌, codes, decimal, arith, append_assoc, append-nil,
}

-- What becomes of one request: the request or the decoding throws, the answer is not ok, with the
-- message of its error where it has one, or it holds a payload.
pub data Reply {ℓ} (P : Type ℓ) : Type ℓ where
  threw : Text → Reply P
  refused : Option Text → Reply P
  accepted : P → Reply P

pub data Outcome {ℓ} (P : Type ℓ) : Type ℓ where
  measured : List P → Outcome P
  failed : Text → Outcome P

-- The status lines that were shown, one for each request, and the outcome.
pub record Trace {ℓ} (P : Type ℓ) : Type ℓ where
  pub lines : List Text
  pub outcome : Outcome P

-- `Number(value) || 1`
abbrev pub runs_or_one : Option ℕ → ℕ
runs_or_one none = 1
runs_or_one (some zero) = 1
runs_or_one (some (suc n)) = suc n

unfoldable pub status_line : ℕ → ℕ → Text
status_line runs run =
    if ltb 1 runs
    then codes "Benchmarking... run " ++ decimal (run + 1) ++ codes " of " ++ decimal runs
    else codes "Transcribing..."

-- `payload.error?.message || "Transcription failed."`
abbrev pub message_or_default : Option Text → Text
message_or_default none = codes "Transcription failed."
message_or_default (some []) = codes "Transcription failed."
message_or_default (some (c ∷ m)) = c ∷ m

module _ {ℓ} {P : Type ℓ} where
  abbrev pub after_line : Text → Trace P → Trace P
  after_line line t = record { lines = line ∷ t.lines; outcome = t.outcome }

  abbrev pub stop_with : Text → Text → Trace P
  stop_with line message = record { lines = line ∷ []; outcome = failed message }

  -- One round: the rest of the loop goes on from a payload.
  abbrev pub after_reply : Text → (P → Trace P) → Reply P → Trace P
  after_reply line rest (threw message) = stop_with line message
  after_reply line rest (refused message) = stop_with line (message_or_default message)
  after_reply line rest (accepted p) = after_line line (rest p)

  -- The loop, on the number of runs left; `run` counts up, and `payloads` is what came so far.
  unfoldable pub loop : (ℕ → Reply P) → ℕ → ℕ → ℕ → List P → Trace P
  unfolding status_line
  loop replies runs zero run payloads = record { lines = []; outcome = measured payloads }
  loop replies runs (suc left) run payloads =
      after_reply (status_line runs run)
        (λ p. loop replies runs left (suc run) (payloads ++ p ∷ [])) (replies run)

  unfoldable pub benchmark : (ℕ → Reply P) → Option ℕ → Trace P
  unfolding loop
  benchmark replies value = loop replies (runs_or_one value) (runs_or_one value) 0 []

  -- What a reply throws.
  abbrev pub error_of : Reply P → Option Text
  error_of (threw message) = some message
  error_of (refused message) = some (message_or_default message)
  error_of (accepted p) = none

  -- The payloads `ps` are those of the runs from `run` on.
  abbrev pub Answers : (ℕ → Reply P) → ℕ → List P → Type ℓ
  Answers replies run [] = Unit
  Answers replies run (p ∷ ps) = (replies run ≡ accepted p) × Answers replies (suc run) ps

  abbrev pub Ends : (ℕ → Reply P) → ℕ → ℕ → List P → Trace P → Type ℓ
  Ends replies run left before t =
      ((ps : List P) × (length ps ≡ left)
        × Answers replies run ps
        × (t.outcome ≡ measured (before ++ ps))
        × (length t.lines ≡ left))
      ⊎ ((ps : List P) × (message : Text) × (length ps < left)
          × Answers replies run ps
          × (error_of (replies (run + length ps)) ≡ some message)
          × (t.outcome ≡ failed message)
          × (length t.lines ≡ suc (length ps)))

  Reply-cases : (r : Reply P) → ((m : Text) × (error_of r ≡ some m)) ⊎ ((p : P) × (r ≡ accepted p))
  Reply-cases (threw m) = inl (m, refl)
  Reply-cases (refused m) = inl (message_or_default m, refl)
  Reply-cases (accepted p) = inr (p, refl)

  after_reply_failed :
      (line : Text) (rest : P → Trace P) (r : Reply P) (m : Text)
      → error_of r ≡ some m
      → ((after_reply line rest r).outcome ≡ failed m)
        × (length (after_reply line rest r).lines ≡ 1)
  after_reply_failed line rest (threw n) m e = (ap failed (cc), refl)
  after_reply_failed line rest (refused n) m e = (ap failed (cc), refl)
  after_reply_failed line rest (accepted p) m e = absurd (cc)

  loop_none :
      (replies : ℕ → Reply P) (runs run : ℕ) (before : List P)
      → (loop replies runs 0 run before).outcome ≡ measured (before ++ [])
  unfolding loop
  loop_none replies runs run before = ap measured (sym (append-nil before))

  loop_none_lines :
      (replies : ℕ → Reply P) (runs run : ℕ) (before : List P)
      → length (loop replies runs 0 run before).lines ≡ 0
  unfolding loop
  loop_none_lines replies runs run before = refl

  loop_failed :
      (replies : ℕ → Reply P) (runs left run : ℕ) (before : List P) (m : Text)
      → error_of (replies run) ≡ some m
      → ((loop replies runs (suc left) run before).outcome ≡ failed m)
        × (length (loop replies runs (suc left) run before).lines ≡ 1)
  unfolding loop
  loop_failed replies runs left run before m e =
      after_reply_failed (status_line runs run) _ (replies run) m e

  loop_accepted :
      (replies : ℕ → Reply P) (runs left run : ℕ) (before : List P) (p : P)
      → replies run ≡ accepted p
      → loop replies runs (suc left) run before
        ≡ after_line (status_line runs run) (loop replies runs left (suc run) (before ++ p ∷ []))
  unfolding loop
  loop_accepted replies runs left run before p e =
      ap
        (after_reply (status_line runs run)
          (λ q. loop replies runs left (suc run) (before ++ q ∷ [])))
        e

  after_first :
      (replies : ℕ → Reply P) (runs left run : ℕ) (before : List P) (p : P)
      → replies run ≡ accepted p
      → Ends replies
          (suc run)
          left
          (before ++ p ∷ [])
          (loop replies runs left (suc run) (before ++ p ∷ []))
      → Ends replies run (suc left) before (loop replies runs (suc left) run before)
  after_first replies runs left run before p e (inl (ps, count, answers, outcome, lines)) =
      let step = loop_accepted replies runs left run before p e in
      inl (
        p ∷ ps,
        ap suc count,
        (e, answers),
        ap Trace.outcome step ∙ outcome ∙ ap measured (append_assoc before (p ∷ []) ps),
        ap (λ t. length (Trace.lines t)) step ∙ ap suc lines,
      )
  after_first replies runs left run before p e
        (inr (ps, m, fewer, answers, error, outcome, lines)) =
      let step = loop_accepted replies runs left run before p e in
      inr (
        p ∷ ps,
        m,
        omega arith,
        (e, answers),
        ap (λ k. error_of (replies k)) (omega arith) ∙ error,
        ap Trace.outcome step ∙ outcome,
        ap (λ t. length (Trace.lines t)) step ∙ ap suc lines,
      )

  loop-Ends :
      (replies : ℕ → Reply P) (runs left run : ℕ) (before : List P)
      → Ends replies run left before (loop replies runs left run before)
  loop-Ends replies runs zero run before =
      inl ([], refl, tt, loop_none replies runs run before, loop_none_lines replies runs run before)
  loop-Ends replies runs (suc left) run before = elim (Reply-cases (replies run)) [
    | inl (m, e) ↦
        let (outcome, lines) = loop_failed replies runs left run before m e in
        inr
          ([], m, omega arith, tt, ap (λ k. error_of (replies k)) (omega arith) ∙ e, outcome, lines)
    | inr (p, e) ↦
        after_first replies runs left run before p e
          (loop-Ends replies runs left (suc run) (before ++ p ∷ []))
  ]

  -- The benchmark asks once for each run, in order, until one fails. Where none fails it measures
  -- all their payloads, one for each run and at least one; else it shows the first failure's
  -- message and measures nothing.
  pub benchmark-Ends :
      (replies : ℕ → Reply P) (value : Option ℕ)
      → Ends replies 0 (runs_or_one value) [] (benchmark replies value) × (1 ≤ runs_or_one value)
  unfolding benchmark
  benchmark-Ends replies none = (loop-Ends replies 1 1 0 [], omega arith)
  benchmark-Ends replies (some zero) = (loop-Ends replies 1 1 0 [], omega arith)
  benchmark-Ends replies (some (suc n)) = (loop-Ends replies (suc n) (suc n) 0 [], omega arith)
