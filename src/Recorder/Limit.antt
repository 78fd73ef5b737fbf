-- ===== src/Recorder/Limit.antt =====
-- A recording comes to its end by itself (app/webui/app.js).
use vocagateway.Base.{
  ℕ, ◌-◌, ◌*◌, ◌≤◌, ◌≡◌, refl, ap, ◌∙◌, Bool, false, List, [], ◌∷◌, ◌++◌, Option, none, some, Text,
  arith,
}
use vocagateway.Recorder.Machine.{
  Chunk, Take, Machine, maximum_or_default, Event, data_available, stopped, tick, finished, handle,
  run,
}
use vocagateway.Recorder.Phases.{
  IsIdle, IsHeld, IsIn, recording, has_self, without_self, are_own-append, IsHeld-data,
}

-- What the browser fires for a recorder from the interval at `now` on.
abbrev pub closing : ℕ → ℕ → Text → Option Text → List Event
closing r now content outcome =
    tick r now ∷ data_available r content ∷ stopped r ∷ finished outcome ∷ []

module _ (is_type_supported : Text → Bool) (maximum : Option ℕ) where
  -- The recorder was stopped; what it has got to send is in `s.chunks`.
  stops_at_limit :
      (r now : ℕ) (s : Machine)
      → IsHeld r (r ∷ []) [] s
      → maximum_or_default maximum * 1000 ≤ now - s.started_at
      → IsHeld r [] (r ∷ []) (handle is_type_supported maximum (tick r now) s)
        × ((handle is_type_supported maximum (tick r now) s).chunks ≡ s.chunks)
        × ((handle is_type_supported maximum (tick r now) s).takes ≡ s.takes)
  unfolding handle
  stops_at_limit r now s i due = ground (arith, has_self r, without_self r)

  data_kept :
      (r : ℕ) (content : Text) (s : Machine)
      → IsHeld r [] (r ∷ []) s
      → ((handle is_type_supported maximum (data_available r content) s).chunks
          ≡ s.chunks ++ record { source = r; content = content } ∷ [])
        × ((handle is_type_supported maximum (data_available r content) s).takes ≡ s.takes)
  unfolding handle
  data_kept r content s i = ground (arith, has_self r)

  -- The take is on its way, and the button waits for its end.
  record IsSent (r : ℕ) (blob : List Chunk) (takes : List Take) (s : Machine) : Type 0 where
    sent : s.takes ≡ takes ++ record { stopped_by = r; blob = blob } ∷ []
    idle_now : IsIdle s
    one : s.transcribing ≡ 1

  stopped-IsSent :
      (r : ℕ) (s : Machine)
      → IsHeld r [] (r ∷ []) s
      → IsSent r s.chunks s.takes (handle is_type_supported maximum (stopped r) s)
  unfolding handle
  stopped-IsSent r s i =
      ground (arith, has_self r, without_self r, are_own-append s.takes r s.chunks)

  finished_enabled :
      (r : ℕ) (b : List Chunk) (ts : List Take) (o : Option Text) (s : Machine)
      → IsSent r b ts s
      → IsIdle (handle is_type_supported maximum (finished o) s)
        × ((handle is_type_supported maximum (finished o) s).panel.button_disabled ≡ false)
        × ((handle is_type_supported maximum (finished o) s).takes
            ≡ ts ++ record { stopped_by = r; blob = b } ∷ [])
  unfolding handle
  finished_enabled r b ts none s i = ground arith
  finished_enabled r b ts (some m) s i = ground arith

  -- The first firing of its interval at the limit or later stops a recording; once its data and its
  -- "stop" event have come and the transcription is over, well or not, nothing records, the
  -- microphone and the interval are free, the button is enabled, and what was recorded to the end
  -- was sent, once.
  pub closing_lem :
      (r now : ℕ) (content : Text) (outcome : Option Text) (s : Machine)
      → IsIn (recording r) s
      → maximum_or_default maximum * 1000 ≤ now - s.started_at
      → IsIdle (run is_type_supported maximum (closing r now content outcome) s)
        × ((run is_type_supported maximum (closing r now content outcome) s).panel.button_disabled
            ≡ false)
        × ((run is_type_supported maximum (closing r now content outcome) s).takes
            ≡ s.takes
              ++ record {
                stopped_by = r;
                blob = s.chunks ++ record { source = r; content = content } ∷ [];
              }
                ∷ [])
  closing_lem r now content outcome s i due =
      let one = handle is_type_supported maximum (tick r now) s in
      let (held, chunks, takes) = stops_at_limit r now s i due in
      let two = handle is_type_supported maximum (data_available r content) one in
      let still = IsHeld-data is_type_supported maximum r r content [] (r ∷ []) one refl held in
      let (chunks2, takes2) = data_kept r content one held in
      let (quiet, enabled, all_takes) =
        finished_enabled r two.chunks two.takes outcome _ (stopped-IsSent r two still) in
      (
        quiet,
        enabled,
        all_takes
            ∙ ap (λ b. two.takes ++ record { stopped_by = r; blob = b } ∷ [])
                (chunks2 ∙ ap (λ cs. cs ++ record { source = r; content = content } ∷ []) chunks)
            ∙ ap
                (λ ts.
                  ts
                  ++ record {
                    stopped_by = r;
                    blob = s.chunks ++ record { source = r; content = content } ∷ [];
                  }
                    ∷ [])
                (takes2 ∙ takes),
      )
