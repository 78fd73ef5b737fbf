-- ===== src/Poll/Found.antt =====
-- Which entry of an answer a card's model has (`pollModelProgress` of app/webui/app.js).
use vocagateway.Base.{
  ◌≡◌, ◌≢◌, ◌↔◌, refl, sym, ap, ◌∙◌, false, List, [], ◌∷◌, none, some, ◌⊎◌, inl, inr, Text, text_eq,
  text_eq_iff, codes, arith, Bool-cases, Option-cases,
}
use vocagateway.Poll.Progress.{Ratios, Entry, Card, find_entry, update_element, update_cards}

module _ {F : Type 0} where
  -- No entry has the id; and an entry has it and is the last one that does.
  abbrev pub NoneNamed : Text → List (Entry F) → Type 0
  NoneNamed id [] = Unit
  NoneNamed id (e ∷ es) = (e.id ≢ id) × NoneNamed id es

  abbrev pub LastNamed : Text → Entry F → List (Entry F) → Type 0
  LastNamed id e [] = ⊥
  LastNamed id e (f ∷ fs) = LastNamed id e fs ⊎ ((f ≡ e) × (f.id ≡ id) × NoneNamed id fs)

  find_entry-none : (id : Text) (es : List (Entry F)) → find_entry id es ≡ none → NoneNamed id es
  unfolding find_entry
  find_entry-none id [] h = tt
  find_entry-none id (e ∷ es) h = elim (Option-cases (find_entry id es)) [
    | inl m ↦ (λ q. ground (arith, m, text_eq_iff e.id id), find_entry-none id es m)
    | inr (f, m) ↦ absurd (ground (arith, m))
  ]

  find_entry-some :
      (id : Text) (es : List (Entry F)) (e : Entry F)
      → find_entry id es ≡ some e
      → LastNamed id e es
  unfolding find_entry
  find_entry-some id [] e h = absurd (cc)
  find_entry-some id (f ∷ fs) e h = elim (Option-cases (find_entry id fs)) [
    | inr (g, m) ↦ inl (find_entry-some id fs e (ground (arith, m)))
    | inl m ↦ elim (Bool-cases (text_eq f.id id)) [
      | inl q ↦ inr (ground (arith, m), (text_eq_iff f.id id).0 q, find_entry-none id fs m)
      | inr q ↦ absurd (ground (arith, m))
    ]
  ]

  none-find_entry : (id : Text) (es : List (Entry F)) → NoneNamed id es → find_entry id es ≡ none
  unfolding find_entry
  none-find_entry id [] h = refl
  none-find_entry id (e ∷ es) h =
      ground (arith, none-find_entry id es h.1, h.0, text_eq_iff e.id id)

  last-find_entry :
      (id : Text) (es : List (Entry F)) (e : Entry F)
      → LastNamed id e es
      → find_entry id es ≡ some e
  unfolding find_entry
  last-find_entry id [] e h = absurd h
  last-find_entry id (f ∷ fs) e (inl h) = ground (arith, last-find_entry id fs e h)
  last-find_entry id (f ∷ fs) e (inr (same, named, others)) =
      ground (arith, none-find_entry id fs others, text_eq_iff f.id id)

  -- The last entry of a card's model, which counts, says that it is still downloading.
  abbrev pub IsGoing : List (Entry F) → Card → Type 0
  IsGoing es c = (e : Entry F) × LastNamed c.model_id e es × (e.state ≡ codes "downloading")

  abbrev pub AllGoing : List (Entry F) → List Card → Type 0
  AllGoing es [] = Unit
  AllGoing es (c ∷ cs) = IsGoing es c × AllGoing es cs

  module _ (n : Ratios F) where
    -- The list is asked for again exactly where some model is not downloading any more.
    pub needs_refresh_lem :
        (es : List (Entry F)) (cs page : List Card)
        → ((update_cards n es cs page).1 ≡ false) ↔ AllGoing es cs
    unfolding update_cards
    needs_refresh_lem es [] page = (λ h. tt, λ h. refl)
    needs_refresh_lem es (c ∷ cs) page = elim (Option-cases (find_entry c.model_id es)) [
      | inl m ↦ (
        λ h. absurd (ground (arith, m)),
        λ ((e, last, going), rest).
            absurd (ground (arith, m, last-find_entry c.model_id es e last)),
      )
      | inr (e, m) ↦
          let ih = needs_refresh_lem es cs (update_element n c.element e page) in
          elim (Bool-cases (text_eq e.state (codes "downloading"))) [
            | inl d ↦ (
              λ h. (
                (
                  e,
                  find_entry-some c.model_id es e m,
                  (text_eq_iff e.state (codes "downloading")).0 d,
                ),
                ih.0 (ground (arith, m, d)),
              ),
              λ (_, rest). ground (arith, m, d, ih.1 rest),
            )
            | inr d ↦ (
              λ h. absurd (ground (arith, m, d)),
              λ ((f, last, going), rest).
                  let found = last-find_entry c.model_id es f last in
                  let same : f ≡ e = cc in
                  let state : e.state ≡ codes "downloading" = sym (ap Entry.state same) ∙ going in
                  absurd (ground (arith, d, (text_eq_iff e.state (codes "downloading")).1 state)),
            )
          ]
    ]
