-- ===== src/Rail/Search.antt =====
-- The search over the languages of the filters, without a request (app/webui/app.js).
use vocagateway.Base.{
  ℕ, ◌≡◌, refl, sym, ap, subst, ◌∙◌, ◌⊎◌, ◌↔◌, zero, suc, some, get_elem?, Bool, true, false, not,
  ◌&&◌, ◌||◌, List, [], ◌∷◌, ◌++◌, Text, ◌==◌, trim, arith, Bool-cases, inl, inr,
}

pub record Row : Type 0 where
  pub content : Text
  pub hidden : Bool

abbrev pub is_nil {ℓ} : {A : Type ℓ} → List A → Bool
is_nil [] = true
is_nil (x ∷ xs) = false

unfoldable pub starts_with : Text → Text → Bool
starts_with [] t = true
starts_with (c ∷ q) [] = false
starts_with (c ∷ q) (d ∷ t) = c == d && starts_with q t

-- `text.includes(q)`
unfoldable pub includes : Text → Text → Bool
unfolding starts_with
includes q [] = is_nil q
includes q (c ∷ t) = starts_with q (c ∷ t) || includes q t

-- `lower` is `toLowerCase`.
module _ (lower : Text → Text) where
  unfoldable pub search_row : Text → Row → Row
  unfolding includes
  search_row q r = record r { hidden = not (is_nil q) && not (includes q (lower r.content)) }

  unfoldable pub search_rows : Text → List Row → List Row
  unfolding search_row
  search_rows q [] = []
  search_rows q (r ∷ rs) = search_row q r ∷ search_rows q rs

  -- The "input" event, with the text of the search field.
  unfoldable pub search_filters : Text → List Row → List Row
  unfolding search_rows
  search_filters value rs = search_rows (lower (trim value)) rs

starts_with_append : (q t : Text) → starts_with q (q ++ t) ≡ true
unfolding starts_with
starts_with_append [] t = refl
starts_with_append (c ∷ q) t = ground (arith, starts_with_append q t)

starts_with_rest : (q t : Text) → starts_with q t ≡ true → (post : Text) × (t ≡ q ++ post)
unfolding starts_with
starts_with_rest [] t h = (t, refl)
starts_with_rest (c ∷ q) [] h = absurd (cc)
starts_with_rest (c ∷ q) (d ∷ t) h =
    let (post, e) = starts_with_rest q t (ground arith) in (post, ground (arith, e))

-- Somewhere in the text the query stands.
abbrev pub Contains : Text → Text → Type 0
Contains q t = (pre : Text) × (post : Text) × (t ≡ pre ++ (q ++ post))

Contains-includes : (q pre post : Text) → includes q (pre ++ (q ++ post)) ≡ true
unfolding includes
Contains-includes [] [] [] = refl
Contains-includes [] [] (c ∷ post) = refl
Contains-includes (d ∷ q) [] post = ground (arith, starts_with_append (d ∷ q) post)
Contains-includes q (c ∷ pre) post = ground (arith, Contains-includes q pre post)

includes-Contains : (q t : Text) → includes q t ≡ true → Contains q t
unfolding includes
includes-Contains [] [] h = ([], [], refl)
includes-Contains (c ∷ q) [] h = absurd (cc)
includes-Contains q (c ∷ t) h = elim (Bool-cases (starts_with q (c ∷ t))) [
  | inl e ↦ let (post, f) = starts_with_rest q (c ∷ t) e in ([], post, f)
  | inr e ↦
      let (pre, post, f) = includes-Contains q t (ground arith) in (c ∷ pre, post, ap (c ∷◌) f)
]

shown_lem : (b c : Bool) → (not b && not c ≡ false → (b ≡ true) ⊎ (c ≡ true))
shown_lem true c h = inl refl
shown_lem false true h = inr refl
shown_lem false false h = absurd (cc)

contained_lem : (b c : Bool) → c ≡ true → not b && not c ≡ false
contained_lem true c h = refl
contained_lem false c h = ap not h

module _ (lower : Text → Text) where
  search_row_hidden :
      (q : Text) (r : Row)
      → (search_row lower q r).hidden ≡ not (is_nil q) && not (includes q (lower r.content))
  unfolding search_row
  search_row_hidden q r = refl

  content_kept : (q : Text) (r : Row) → (search_row lower q r).content ≡ r.content
  unfolding search_row
  content_kept q r = refl

  nil_Contains : (q t : Text) → is_nil q ≡ true → Contains q t
  nil_Contains [] t h = ([], t, refl)
  nil_Contains (c ∷ q) t h = absurd (cc)

  search_row-Contains :
      (q : Text) (r : Row) → ((search_row lower q r).hidden ≡ false) ↔ Contains q (lower r.content)
  search_row-Contains q r = (
    λ h.
        elim (shown_lem (is_nil q) (includes q (lower r.content))
          (sym (search_row_hidden q r) ∙ h)) [
            | inl e ↦ nil_Contains q (lower r.content) e
            | inr e ↦ includes-Contains q (lower r.content) e
          ],
    λ (pre, post, e).
        search_row_hidden q r
        ∙ contained_lem (is_nil q) (includes q (lower r.content))
            (ap (includes q) e ∙ Contains-includes q pre post),
  )

  search_rows-get :
      (q : Text) (rs : List Row) (i : ℕ) (r : Row)
      → get_elem? (search_rows lower q rs) i ≡ some r
      → (o : Row) × (get_elem? rs i ≡ some o) × (r ≡ search_row lower q o)
  unfolding search_rows
  search_rows-get q [] i r e = absurd (cc)
  search_rows-get q (o ∷ rs) zero r e = (o, refl, cc)
  search_rows-get q (o ∷ rs) (suc i) r e = search_rows-get q rs i r e

  -- The search leaves each row in its place, and shows it exactly if its text has what was typed in
  -- it, the spaces around that and the case of the letters left out.
  pub search_filters-Contains :
      (value : Text) (rs : List Row) (i : ℕ) (r : Row)
      → get_elem? (search_filters lower value rs) i ≡ some r
      → (o : Row) × (get_elem? rs i ≡ some o)
        × (r.content ≡ o.content)
        × ((r.hidden ≡ false) ↔ Contains (lower (trim value)) (lower o.content))
  unfolding search_filters
  search_filters-Contains value rs i r e =
      let (o, there, same) = search_rows-get (lower (trim value)) rs i r e in
      (
        o,
        there,
        ap Row.content same ∙ content_kept (lower (trim value)) o,
        subst (λ x. (Row.hidden x ≡ false) ↔ Contains (lower (trim value)) (lower o.content))
            (sym same) (search_row-Contains (lower (trim value)) o),
      )
