-- ===== src/Site/Opened.antt =====
-- At most one question of the static site stays open (web/script.js).
use vocagateway.Base.{
  ℕ, zero, suc, ◌+◌, ◌<◌, ◌≤◌, ◌≡◌, refl, sym, ap, ◌∙◌, Bool, true, false, not, ◌&&◌, List, [], ◌∷◌,
  none, some, ◌==◌, if◌then◌else◌, get_elem?, set, arith, Bool-cases, Option-cases, inl, inr,
  ==_iff,
}
use vocagateway.Site.Faq.{
  Detail, set_open, close_others, on_toggle, Event, click, fire, click_detail, fire_toggle, handle,
  run,
}

-- How many items are open, and how many of these have no event queued.
abbrev pub count_open : List Detail → ℕ
count_open [] = 0
count_open (d ∷ ds) = let rest = count_open ds in if d.is_open then suc rest else rest

abbrev pub count_settled : List Detail → ℕ
count_settled [] = 0
count_settled (d ∷ ds) =
    let rest = count_settled ds in if d.is_open && not d.pending then suc rest else rest

abbrev pub is_settled : List Detail → Bool
is_settled [] = true
is_settled (d ∷ ds) = not d.pending && is_settled ds

count_open-is_settled : (ds : List Detail) → is_settled ds ≡ true → count_open ds ≡ count_settled ds
count_open-is_settled [] h = refl
count_open-is_settled (d ∷ ds) h = ground (arith, count_open-is_settled ds)

count_settled-le : (ds : List Detail) → count_settled ds ≤ count_open ds
count_settled-le [] = ground arith
count_settled-le (d ∷ ds) = ground (arith, count_settled-le ds)

count_settled-close_others_later :
    (k i : ℕ) (ds : List Detail) → i < k → count_settled (close_others k i ds) ≡ 0
unfolding close_others
count_settled-close_others_later k i [] h = refl
count_settled-close_others_later k i (d ∷ ds) h =
    ground (arith, ==_iff k i, count_settled-close_others_later (suc k) i ds)

count_settled-close_others : (k i : ℕ) (ds : List Detail) → count_settled (close_others k i ds) ≤ 1
unfolding close_others
count_settled-close_others k i [] = ground arith
count_settled-close_others k i (d ∷ ds) = elim (Bool-cases (k == i)) [
  | inl same ↦ ground (arith, ==_iff k i, count_settled-close_others_later (suc k) i ds)
  | inr other ↦ ground (arith, count_settled-close_others (suc k) i ds)
]

count_settled-set :
    (ds : List Detail) (i : ℕ) (d : Detail)
    → d.is_open && not d.pending ≡ false
    → count_settled (set ds i d) ≤ count_settled ds
count_settled-set [] i d h = ground arith
count_settled-set (x ∷ ds) zero d h = ground arith
count_settled-set (x ∷ ds) (suc i) d h = ground (arith, count_settled-set ds i d h)

set_open_unsettled :
    (d : Detail)
    → (set_open (not d.is_open) d).is_open && not (set_open (not d.is_open) d).pending ≡ false
set_open_unsettled d = ground arith

click_detail-count_settled :
    (i : ℕ) (ds : List Detail) → count_settled (click_detail i ds) ≤ count_settled ds
unfolding click_detail
click_detail-count_settled i ds = elim (Option-cases (get_elem? ds i)) [
  | inl e ↦ ground arith
  | inr (d, e) ↦
      ground (arith, count_settled-set ds i (set_open (not d.is_open) d) (set_open_unsettled d))
]

get_elem?-set_there :
    (ds : List Detail) (i : ℕ) (d e : Detail)
    → get_elem? ds i ≡ some e
    → get_elem? (set ds i d) i ≡ some d
get_elem?-set_there [] i d e h = absurd (cc)
get_elem?-set_there (x ∷ ds) zero d e h = refl
get_elem?-set_there (x ∷ ds) (suc i) d e h = get_elem?-set_there ds i d e h

on_toggle_open :
    (i : ℕ) (ds : List Detail) (d : Detail)
    → get_elem? ds i ≡ some d
    → d.is_open ≡ true
    → on_toggle i ds ≡ close_others 0 i ds
unfolding on_toggle
on_toggle_open i ds d e h = ground arith

on_toggle_closed :
    (i : ℕ) (ds : List Detail) (d : Detail)
    → get_elem? ds i ≡ some d
    → d.is_open ≡ false
    → on_toggle i ds ≡ ds
unfolding on_toggle
on_toggle_closed i ds d e h = ground arith

fire_pending :
    (i : ℕ) (ds : List Detail) (d : Detail)
    → get_elem? ds i ≡ some d
    → d.pending ≡ true
    → fire_toggle i ds ≡ on_toggle i (set ds i (record d { pending = false }))
unfolding fire_toggle
fire_pending i ds d e h = ground arith

fire_idle :
    (i : ℕ) (ds : List Detail) (d : Detail)
    → get_elem? ds i ≡ some d
    → d.pending ≡ false
    → fire_toggle i ds ≡ ds
unfolding fire_toggle
fire_idle i ds d e h = ground arith

fire_none : (i : ℕ) (ds : List Detail) → get_elem? ds i ≡ none → fire_toggle i ds ≡ ds
unfolding fire_toggle
fire_none i ds e = ground arith

fire_pending-count_settled :
    (i : ℕ) (ds : List Detail) (d : Detail)
    → get_elem? ds i ≡ some d
    → count_settled ds ≤ 1
    → count_settled (on_toggle i (set ds i (record d { pending = false }))) ≤ 1
fire_pending-count_settled i ds d e h = elim (Bool-cases d.is_open) [
  | inl up ↦
      let same =
        on_toggle_open i (set ds i (record d { pending = false })) (record d { pending = false })
          (get_elem?-set_there ds i (record d { pending = false }) d e) up in
      ground (arith, same, count_settled-close_others 0 i (set ds i (record d { pending = false })))
  | inr down ↦
      let same =
        on_toggle_closed i (set ds i (record d { pending = false })) (record d { pending = false })
          (get_elem?-set_there ds i (record d { pending = false }) d e) down in
      ground (arith, same, count_settled-set ds i (record d { pending = false }) (ground arith))
]

fire_toggle-count_settled :
    (i : ℕ) (ds : List Detail) → count_settled ds ≤ 1 → count_settled (fire_toggle i ds) ≤ 1
fire_toggle-count_settled i ds h = elim (Option-cases (get_elem? ds i)) [
  | inl e ↦ ground (arith, fire_none i ds e)
  | inr (d, e) ↦ elim (Bool-cases d.pending) [
    | inl waits ↦ ground (arith, fire_pending i ds d e waits, fire_pending-count_settled i ds d e h)
    | inr idle ↦ ground (arith, fire_idle i ds d e idle)
  ]
]

handle-count_settled :
    (e : Event) (ds : List Detail) → count_settled ds ≤ 1 → count_settled (handle e ds) ≤ 1
unfolding handle
handle-count_settled (click i) ds h = ground (arith, click_detail-count_settled i ds)
handle-count_settled (fire i) ds h = fire_toggle-count_settled i ds h

run-count_settled :
    (es : List Event) (ds : List Detail) → count_settled ds ≤ 1 → count_settled (run es ds) ≤ 1
run-count_settled [] ds h = h
run-count_settled (e ∷ es) ds h = run-count_settled es (handle e ds) (handle-count_settled e ds h)

-- However the clicks and the events of the browser interleave, once no event is queued at most one
-- question is open, where at most one was at the start.
pub run-count_open :
    (es : List Event) (ds : List Detail)
    → count_open ds ≤ 1
    → is_settled (run es ds) ≡ true
    → count_open (run es ds) ≤ 1
run-count_open es ds h settled = ground (
  arith,
  count_open-is_settled (run es ds) settled,
  run-count_settled es ds (ground (arith, count_settled-le ds)),
)

close_others-get :
    (k i j : ℕ) (ds : List Detail) (e : Detail)
    → get_elem? (close_others k i ds) j ≡ some e
    → (c : Detail) × (get_elem? ds j ≡ some c)
      × (e ≡ (if (k + j) == i then c else set_open false c))
unfolding close_others
close_others-get k i j [] e h = absurd (cc)
close_others-get k i zero (d ∷ ds) e h =
    let same : e ≡ (if k == i then d else set_open false d) = cc in
    (d, refl, same ∙ ap (λ n. if n == i then d else set_open false d) (ground arith))
close_others-get k i (suc j) (d ∷ ds) e h =
    let (c, there, same) = close_others-get (suc k) i j ds e h in
    (c, there, same ∙ ap (λ n. if n == i then c else set_open false c) (ground arith))

close_others-is_open :
    (i j : ℕ) (ds : List Detail) (d e : Detail)
    → get_elem? ds i ≡ some d
    → d.is_open ≡ true
    → get_elem? (close_others 0 i ds) j ≡ some e
    → e.is_open ≡ (j == i)
close_others-is_open i j ds d e there up found =
    let (c, here, is) = close_others-get 0 i j ds e found in
    let is : e ≡ (if j == i then c else set_open false c) =
      is ∙ ap (λ n. if n == i then c else set_open false c) (ground arith) in
    elim (Bool-cases (j == i)) [
      | inl same ↦
          let place : j ≡ i = (==_iff j i).0 same in
          let kept : some c ≡ some d = sym here ∙ ap (get_elem? ds) place ∙ there in
          let kept : c ≡ d = cc in ground (arith, is, up, kept)
      | inr other ↦ ground (arith, is)
    ]

-- When the event of a question that is open is fired, it is the only one open.
pub fire_toggle_lem :
    (i : ℕ) (ds : List Detail) (d : Detail) (j : ℕ) (e : Detail)
    → get_elem? ds i ≡ some d
    → d.pending ≡ true
    → d.is_open ≡ true
    → get_elem? (fire_toggle i ds) j ≡ some e
    → e.is_open ≡ (j == i)
fire_toggle_lem i ds d j e there waits up found =
    let cleared : Detail = record d { pending = false } in
    let at = get_elem?-set_there ds i cleared d there in
    let same : fire_toggle i ds ≡ close_others 0 i (set ds i cleared) =
      fire_pending i ds d there waits ∙ on_toggle_open i (set ds i cleared) cleared at up in
    close_others-is_open i j (set ds i cleared) cleared e at up
      (sym (ap (λ xs. get_elem? xs j) same) ∙ found)
