-- ===== src/Poll/Cards.antt =====
-- How an answer about the models goes through the cards (`pollModelProgress` of app/webui/app.js).
use vocagateway.Base.{
  ℕ, ◌≡◌, refl, inl, inr, true, false, List, [], ◌∷◌, none, some, text_eq, codes, arith,
  Option-cases,
}
use vocagateway.Poll.Progress.{Ratios, Entry, Card, find_entry, update_element, update_cards}
use vocagateway.Poll.Timer.{is_nil}

module _ {F : Type 0} (n : Ratios F) where
  is_nil-update_element :
      (element : ℕ) (e : Entry F) (cs : List Card)
      → is_nil (update_element n element e cs) ≡ is_nil cs
  unfolding update_element
  is_nil-update_element element e [] = refl
  is_nil-update_element element e (c ∷ cs) = refl

  pub is_nil-update_cards :
      (es : List (Entry F)) (sent page : List Card)
      → is_nil (update_cards n es sent page).0 ≡ is_nil page
  unfolding update_cards
  is_nil-update_cards es [] page = refl
  is_nil-update_cards es (c ∷ cs) page = elim (Option-cases (find_entry c.model_id es)) [
    | inl m ↦ ground (arith, is_nil-update_cards es cs page)
    | inr (e, m) ↦ ground (
      arith,
      is_nil-update_cards es cs page,
      is_nil-update_cards es cs (update_element n c.element e page),
      is_nil-update_element c.element e page,
    )
  ]

  pub update_cards_nil :
      (es : List (Entry F)) (page : List Card) → (update_cards n es [] page).0 ≡ page
  unfolding update_cards
  update_cards_nil es page = refl

  pub update_cards-none :
      (es : List (Entry F)) (c : Card) (cs page : List Card)
      → find_entry c.model_id es ≡ none
      → (update_cards n es (c ∷ cs) page).0 ≡ (update_cards n es cs page).0
  unfolding update_cards
  update_cards-none es c cs page m = ground arith

  pub update_cards_going :
      (es : List (Entry F)) (c : Card) (cs page : List Card) (e : Entry F)
      → find_entry c.model_id es ≡ some e
      → text_eq e.state (codes "downloading") ≡ true
      → (update_cards n es (c ∷ cs) page).0
        ≡ (update_cards n es cs (update_element n c.element e page)).0
  unfolding update_cards
  update_cards_going es c cs page e m d = ground arith

  pub update_cards_stale :
      (es : List (Entry F)) (c : Card) (cs page : List Card) (e : Entry F)
      → find_entry c.model_id es ≡ some e
      → text_eq e.state (codes "downloading") ≡ false
      → (update_cards n es (c ∷ cs) page).0 ≡ (update_cards n es cs page).0
  unfolding update_cards
  update_cards_stale es c cs page e m d = ground arith
