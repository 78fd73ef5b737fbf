-- ===== src/Copy/Hint.antt =====
-- The hint on the pairing button (app/webui/app.js).
use vocagateway.Base.{
  ℕ, ◌≤◌, ◌≡◌, refl, sym, ap, subst, ◌∙◌, Bool, true, false, ◌||◌, List, [], ◌∷◌, ◌++◌, Option,
  none, some, Text, if◌then◌else◌, codes, length, filter, ℕ-cases, Bool-cases, Option-cases, inl,
  inr, arith,
}
use vocagateway.Timers.{
  Timer, clear_timeout, has_timer, fired, length-fired, clear_timeout-fired, clear_timeout_self,
}
use vocagateway.Copy.Pairing.{
  Button, is_nil, set_hint, resting_hint, reset_later, end_copy, Event, click, wrote, fire, handle,
  run,
}

-- As it is served: the hint invites to copy, and the button is not marked.
abbrev pub RestsAt : Option Text → Bool → Text → Type 0
RestsAt none copied title = Unit
RestsAt (some t) copied title =
    (t ≡ resting_hint) × (copied ≡ false) × (title ≡ codes "Copy gateway address and token")

abbrev pub IsResting : Button → Type 0
IsResting b = RestsAt b.hint b.is_copied b.title

pub record IsSettling (b : Button) : Type 0 where
  pub at_most_one : length b.timers ≤ 1
  pub known : clear_timeout b.copy_hint_timer b.timers ≡ []
  pub at_rest : b.timers ≡ [] → IsResting b

clear_none : (o : Option ℕ) (ts : List Timer) → ts ≡ [] → clear_timeout o ts ≡ []
unfolding filter
clear_none none ts e = e
clear_none (some t) [] e = refl
clear_none (some t) (u ∷ us) e = absurd (cc)

set_hint_timers :
    (t : Text) (c : Bool) (b : Button)
    → ((set_hint t c b).timers ≡ b.timers) × ((set_hint t c b).copy_hint_timer ≡ b.copy_hint_timer)
unfolding set_hint
set_hint_timers t c b = (ground arith, ground arith)

reset_later_timers :
    (b : Button)
    → clear_timeout b.copy_hint_timer b.timers ≡ []
    → ((reset_later b).timers ≡ record { id = b.next_timer; delay = 1600 } ∷ [])
      × ((reset_later b).copy_hint_timer ≡ some b.next_timer)
unfolding reset_later
reset_later_timers b k = (ap (λ ts. ts ++ record { id = b.next_timer; delay = 1600 } ∷ []) k, refl)

reset_later-IsSettling :
    (b : Button) → clear_timeout b.copy_hint_timer b.timers ≡ [] → IsSettling (reset_later b)
reset_later-IsSettling b k =
    let (timers, variable) = reset_later_timers b k in
    record {
      at_most_one = ground (arith, timers);
      known =
          ap (λ o. clear_timeout o (reset_later b).timers) variable
          ∙ ap (clear_timeout (some b.next_timer)) timers
          ∙ clear_timeout_self b.next_timer 1600;
      at_rest = λ e. absurd (ground (arith, timers));
    }

hinted-IsSettling :
    (t : Text) (c : Bool) (b : Button) → IsSettling b → IsSettling (reset_later (set_hint t c b))
hinted-IsSettling t c b i =
    let (timers, variable) = set_hint_timers t c b in
    reset_later-IsSettling (set_hint t c b) (
      ap (λ o. clear_timeout o (set_hint t c b).timers) variable
      ∙ ap (clear_timeout b.copy_hint_timer) timers
      ∙ i.known)

set_hint-none : (t : Text) (c : Bool) (b : Button) → b.hint ≡ none → set_hint t c b ≡ b
unfolding set_hint
set_hint-none t c b e = ground arith

abbrev hinted : Text → Bool → Button → Button
hinted t c b = record b {
  hint = some t;
  is_copied = c;
  title = if c then codes "Copied" else codes "Copy gateway address and token";
}

set_hint-some :
    (t u : Text) (c : Bool) (b : Button) → b.hint ≡ some u → set_hint t c b ≡ hinted t c b
unfolding set_hint
set_hint-some t u c b e = ground arith

set_hint-IsResting : (b : Button) → IsResting (set_hint resting_hint false b)
set_hint-IsResting b = elim (Option-cases b.hint) [
  | inl e ↦
      subst IsResting (sym (set_hint-none resting_hint false b e))
        (subst (λ h. RestsAt h b.is_copied b.title) (sym e) tt)
  | inr (t, e) ↦ subst IsResting (sym (set_hint-some resting_hint t false b e)) (refl, refl, refl)
]

end_copy-IsSettling : (ok : Bool) (b : Button) → IsSettling b → IsSettling (end_copy ok b)
unfolding end_copy
end_copy-IsSettling true b i = hinted-IsSettling (codes "Copied") true b i
end_copy-IsSettling false b i = hinted-IsSettling (codes "Copy failed") false b i

fired-IsSettling :
    (t : ℕ) (b : Button)
    → has_timer t b.timers ≡ true
    → IsSettling b
    → IsSettling (set_hint resting_hint false (record b { timers = fired t b.timers }))
fired-IsSettling t b h i =
    let u : Button = record b { timers = fired t b.timers } in
    let (timers, variable) = set_hint_timers resting_hint false u in
    record {
      at_most_one = omega (arith, ap length timers, length-fired t b.timers, i.at_most_one);
      known =
          ap (λ o. clear_timeout o (set_hint resting_hint false u).timers) variable
          ∙ ap (clear_timeout b.copy_hint_timer) timers
          ∙ clear_timeout-fired b.copy_hint_timer t b.timers i.known;
      at_rest = λ e. set_hint-IsResting u;
    }

module _ (json : Text → Text → Text) where
  handle-IsSettling : (e : Event) (b : Button) → IsSettling b → IsSettling (handle json e b)
  unfolding handle
  handle-IsSettling (click none) b i = elim (Bool-cases (is_nil b.url || is_nil b.token)) [
    | inl e ↦ rw e (hinted-IsSettling (codes "Nothing to copy") false b i)
    | inr e ↦ rw e (record { at_most_one = i.at_most_one; known = i.known; at_rest = i.at_rest })
  ]
  handle-IsSettling (click (some ok)) b i = elim (Bool-cases (is_nil b.url || is_nil b.token)) [
    | inl e ↦ rw e (hinted-IsSettling (codes "Nothing to copy") false b i)
    | inr e ↦ rw e (
        end_copy-IsSettling ok (record b { written = b.written ++ json b.url b.token ∷ [] })
          (record { at_most_one = i.at_most_one; known = i.known; at_rest = i.at_rest }))
  ]
  handle-IsSettling (wrote ok) b i = elim (ℕ-cases b.writing) [
    | inl e ↦ rw e (record { at_most_one = i.at_most_one; known = i.known; at_rest = i.at_rest })
    | inr (n, e) ↦ rw e (
        end_copy-IsSettling ok (record b { writing = n })
          (record { at_most_one = i.at_most_one; known = i.known; at_rest = i.at_rest }))
  ]
  handle-IsSettling (fire t) b i = elim (Bool-cases (has_timer t b.timers)) [
    | inl e ↦ rw e (fired-IsSettling t b e i)
    | inr e ↦ rw e i
  ]

  run-IsSettling : (es : List Event) (b : Button) → IsSettling b → IsSettling (run json es b)
  run-IsSettling [] b i = i
  run-IsSettling (e ∷ es) b i = run-IsSettling es (handle json e b) (handle-IsSettling e b i)

  -- However clicks, writes to the clipboard and timers follow one another from the served button on,
  -- at most one timer is set, and while none is the button reads as it was served.
  pub run-IsResting :
      (es : List Event) (b : Button)
      → b.timers ≡ []
      → IsResting b
      → (length (run json es b).timers ≤ 1)
        × ((run json es b).timers ≡ [] → IsResting (run json es b))
  run-IsResting es b none_set rest =
      let served : IsSettling b = record {
        at_most_one = ground arith;
        known = clear_none b.copy_hint_timer b.timers none_set;
        at_rest = λ e. rest;
      } in
      let i = run-IsSettling es b served in (i.at_most_one, i.at_rest)
