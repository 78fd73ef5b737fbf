-- ===== src/Families/Arrange.antt =====
-- The anchors of app/webui/app.js put each open panel under its row.
use vocagateway.Base.{
  ℕ, zero, suc, ◌+◌, ◌/◌, ◌<◌, ◌≡◌, refl, sym, ap, ◌∙◌, Bool, true, List, [], ◌∷◌, some, length,
  get_elem?, lt-length_of_get_elem?, ◌==◌, ==_iff, any, filter, arith, Bool-cases, inl, inr,
  if◌then◌else◌, ◌&&◌,
}
use vocagateway.Families.Grid.{index_of, row_end}
use vocagateway.Families.Rows.{one_later_lem}
use vocagateway.Families.RowEnds.{true_iff, row_end-is_row_end}
use vocagateway.Families.Collapse.{distinct}
use vocagateway.Families.Sessions.{get_elem?-is_in}
use vocagateway.Families.Placing.{behind, spread}
use vocagateway.Families.Anchors.{anchor_of, anchor_of_lem}
use vocagateway.Families.Picture.{is_row_end, open_in_row, rows_from, picture}

-- Two places of a list without repetitions that hold the same are one.
get_elem?-distinct :
    (ts : List ℕ) (i j a : ℕ)
    → distinct ts ≡ true
    → get_elem? ts i ≡ some a
    → get_elem? ts j ≡ some a
    → i ≡ j
unfolding any
get_elem?-distinct [] i j a d p q = absurd (cc)
get_elem?-distinct (t ∷ ts) zero zero a d p q = refl
get_elem?-distinct (t ∷ ts) zero (suc j) a d p q =
    let later = get_elem?-is_in ts j a q in absurd (ground arith)
get_elem?-distinct (t ∷ ts) (suc i) zero a d p q =
    let later = get_elem?-is_in ts i a p in absurd (ground arith)
get_elem?-distinct (t ∷ ts) (suc i) (suc j) a d p q =
    ap suc (get_elem?-distinct ts i j a (ground arith) p q)

index_of-get_elem? :
    (t : ℕ) (ts : List ℕ) (i : ℕ) → index_of t ts ≡ some i → get_elem? ts i ≡ some t
unfolding index_of
index_of-get_elem? t [] i h = absurd (cc)
index_of-get_elem? t (u ∷ ts) i h = elim (Bool-cases (u == t)) [
  | inl e ↦ ground (arith, e, ==_iff u t)
  | inr e ↦
      let (k, at, s) = one_later_lem (index_of t ts) i (rw e at h) in
      rw (← s) (index_of-get_elem? t ts k at)
]

-- Which tile is the anchor of the family at the place `j`.
anchor_of-is_row_end :
    (cols i j u v : ℕ) (ts : List ℕ)
    → 0 < cols
    → distinct ts ≡ true
    → get_elem? ts i ≡ some u
    → get_elem? ts j ≡ some v
    → (anchor_of cols ts v == u) ≡ (is_row_end cols (length ts) i && j / cols == i / cols)
anchor_of-is_row_end cols i j u v ts c d at_i at_j =
    let n = length ts in
    let (k, index, low, anchor) = anchor_of_lem cols v ts c (get_elem?-is_in ts j v at_j) in
    let same = get_elem?-distinct ts k j v d (index_of-get_elem? v ts k index) at_j in
    let there : get_elem? ts (row_end cols j n) ≡ some (anchor_of cols ts v) = rw same at anchor in
    true_iff (anchor_of cols ts v == u) (row_end cols j n == i)
      (λ h.
        let e = (==_iff (anchor_of cols ts v) u).0 h in
        (==_iff (row_end cols j n) i).1
          (get_elem?-distinct ts (row_end cols j n) i u d (there ∙ ap (λ a. some a) e) at_i))
      (λ h.
        let e = (==_iff (row_end cols j n) i).0 h in
        let found : get_elem? ts i ≡ some (anchor_of cols ts v) = rw e at there in
        (==_iff (anchor_of cols ts v) u).1 (cc))
    ∙ row_end-is_row_end cols i j n c (lt-length_of_get_elem? ts i u at_i)
        (lt-length_of_get_elem? ts j v at_j)

-- The list `vs` is what `ts` holds from the place `j` on.
abbrev HoldsFrom : List ℕ → ℕ → List ℕ → Type 0
HoldsFrom ts j vs = (k v : ℕ) → get_elem? vs k ≡ some v → get_elem? ts (j + k) ≡ some v

HoldsFrom-first : (ts vs : List ℕ) (j v : ℕ) → HoldsFrom ts j (v ∷ vs) → get_elem? ts j ≡ some v
HoldsFrom-first ts vs j v h =
    let e : j + 0 ≡ j = omega arith in ap (get_elem? ts) (sym e) ∙ h 0 v refl

HoldsFrom-rest : (ts vs : List ℕ) (j v : ℕ) → HoldsFrom ts j (v ∷ vs) → HoldsFrom ts (suc j) vs
HoldsFrom-rest ts vs j v h k w at =
    let e : suc j + k ≡ j + suc k = omega arith in ap (get_elem? ts) e ∙ h (suc k) w at

behind-open_in_row :
    (cols i u j : ℕ) (is_open : ℕ → Bool) (ts vs : List ℕ)
    → 0 < cols
    → distinct ts ≡ true
    → get_elem? ts i ≡ some u
    → HoldsFrom ts j vs
    → behind (anchor_of cols ts) u (filter is_open vs)
      ≡ (if is_row_end cols (length ts) i then open_in_row cols is_open (i / cols) j vs else [])
unfolding behind filter open_in_row
behind-open_in_row cols i u j is_open ts [] c d at h = ground arith
behind-open_in_row cols i u j is_open ts (v ∷ vs) c d at h =
    let ih =
      behind-open_in_row cols i u (suc j) is_open ts vs c d at (HoldsFrom-rest ts vs j v h) in
    let test = anchor_of-is_row_end cols i j u v ts c d at (HoldsFrom-first ts vs j v h) in
    ground (arith, ih, test)

spread-rows_from :
    (cols i : ℕ) (is_open : ℕ → Bool) (ts us : List ℕ)
    → 0 < cols
    → distinct ts ≡ true
    → HoldsFrom ts i us
    → spread (anchor_of cols ts) (filter is_open ts) us ≡ rows_from cols is_open ts i us
unfolding spread rows_from
spread-rows_from cols i is_open ts [] c d h = refl
spread-rows_from cols i is_open ts (u ∷ us) c d h =
    let here =
      behind-open_in_row cols i u 0 is_open ts ts c d (HoldsFrom-first ts us i u h)
        (λ k v e. ap (get_elem? ts) (zero_plus k) ∙ e) in
    let rest = spread-rows_from cols (suc i) is_open ts us c d (HoldsFrom-rest ts us i u h) in
    ground (arith, here, rest)
  where
    zero_plus : (k : ℕ) → 0 + k ≡ k
    zero_plus k = omega arith

-- Behind the anchors the open panels make the picture.
pub spread-picture :
    (cols : ℕ) (is_open : ℕ → Bool) (ts : List ℕ)
    → 0 < cols
    → distinct ts ≡ true
    → spread (anchor_of cols ts) (filter is_open ts) ts ≡ picture cols is_open ts
unfolding picture
spread-picture cols is_open ts c d =
    spread-rows_from cols 0 is_open ts ts c d
      (λ k v e. let zero_plus : 0 + k ≡ k = omega arith in ap (get_elem? ts) zero_plus ∙ e)
