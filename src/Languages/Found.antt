-- ===== src/Languages/Found.antt =====
-- The search for an option by its value, and for the first enabled one, in `syncTestLanguages` of
-- app/webui/app.js.
use vocagateway.Base.{
  ℕ, zero, suc, ◌≡◌, ◌≢◌, refl, sym, ap, ◌∙◌, Bool, true, false, not, ◌&&◌, ◌||◌, List, [], ◌∷◌,
  some, Text, text_eq, text_eq_iff, text_eq_refl, get_elem?, arith, Bool-cases, inl, inr,
}
use vocagateway.Languages.Picker.{Choice, find_index, one_later, find_enabled, reselect}

-- No two options have one value.
abbrev pub has_value : Text → List Choice → Bool
has_value v [] = false
has_value v (o ∷ os) = text_eq o.value v || has_value v os

abbrev pub distinct_values : List Choice → Bool
distinct_values [] = true
distinct_values (o ∷ os) = not (has_value o.value os) && distinct_values os

pub has_value-get :
    (os : List Choice) (i : ℕ) (c : Choice) → get_elem? os i ≡ some c → has_value c.value os ≡ true
has_value-get [] i c e = absurd (cc)
has_value-get (o ∷ os) zero c e =
    let same : o ≡ c = cc in
    ap (λ x. text_eq x.value c.value || has_value c.value os) same
    ∙ ap (λ b. b || has_value c.value os) (text_eq_refl c.value)
has_value-get (o ∷ os) (suc i) c e = ground (arith, has_value-get os i c e)

has_value_same :
    (os : List Choice) (u v : Text) → text_eq u v ≡ true → has_value u os ≡ has_value v os
has_value_same os u v e = ap (λ x. has_value x os) ((text_eq_iff u v).0 e)

find_enabled_none : (f : Choice) → find_enabled [] ≢ some f
unfolding find_enabled
find_enabled_none f e = absurd (cc)

find_enabled_hd :
    (o f : Choice) (os : List Choice) → o.disabled ≡ false → find_enabled (o ∷ os) ≡ some f → o ≡ f
unfolding find_enabled
find_enabled_hd o f os off e = ground arith

find_enabled_tl :
    (o f : Choice) (os : List Choice)
    → o.disabled ≡ true
    → find_enabled (o ∷ os) ≡ some f
    → find_enabled os ≡ some f
unfolding find_enabled
find_enabled_tl o f os off e = ground arith

find_index_hd :
    (v : Text) (o : Choice) (os : List Choice)
    → text_eq o.value v ≡ true
    → find_index v (o ∷ os) ≡ some 0
unfolding find_index
find_index_hd v o os e = ground arith

find_index_tl :
    (v : Text) (o : Choice) (os : List Choice) (i : ℕ)
    → text_eq o.value v ≡ false
    → find_index v os ≡ some i
    → find_index v (o ∷ os) ≡ some (suc i)
unfolding find_index one_later
find_index_tl v o os i other e = ground arith

value_eq : (o f : Choice) → o ≡ f → text_eq o.value f.value ≡ true
value_eq o f e = ap (λ x. text_eq x.value f.value) e ∙ text_eq_refl f.value

distinct_values_hd :
    (o : Choice) (os : List Choice) (i : ℕ) (f : Choice)
    → distinct_values (o ∷ os) ≡ true
    → get_elem? os i ≡ some f
    → text_eq o.value f.value ≡ false
distinct_values_hd o os i f d e = elim (Bool-cases (text_eq o.value f.value)) [
  | inl same ↦
      absurd (ground (arith, has_value_same os o.value f.value same, has_value-get os i f e))
  | inr other ↦ other
]

distinct_values_tl :
    (o : Choice) (os : List Choice) → distinct_values (o ∷ os) ≡ true → distinct_values os ≡ true
distinct_values_tl o os d = ground arith

-- The first option with the value of the first enabled one is that one.
find_index-enabled :
    (os : List Choice) (f : Choice)
    → distinct_values os ≡ true
    → find_enabled os ≡ some f
    → (i : ℕ) × (find_index f.value os ≡ some i) × (get_elem? os i ≡ some f) × (f.disabled ≡ false)
find_index-enabled [] f d e = absurd (find_enabled_none f e)
find_index-enabled (o ∷ os) f d e = elim (Bool-cases o.disabled) [
  | inr off ↦
      let same : o ≡ f = find_enabled_hd o f os off e in
      (
        0,
        find_index_hd f.value o os (value_eq o f same),
        ap some same,
        ap Choice.disabled (sym same) ∙ off,
      )
  | inl on ↦
      let (i, found, there, enabled) =
        find_index-enabled os f (distinct_values_tl o os d) (find_enabled_tl o f os on e) in
      (
        suc i,
        find_index_tl f.value o os i (distinct_values_hd o os i f d there) found,
        there,
        enabled,
      )
]

find_enabled-some :
    (os : List Choice) (i : ℕ) (o : Choice)
    → get_elem? os i ≡ some o
    → o.disabled ≡ false
    → (f : Choice) × (find_enabled os ≡ some f)
unfolding find_enabled
find_enabled-some [] i o e off = absurd (cc)
find_enabled-some (c ∷ os) zero o e off =
    let same : c ≡ o = cc in (c, ground (arith, ap Choice.disabled same))
find_enabled-some (c ∷ os) (suc i) o e off = elim (Bool-cases c.disabled) [
  | inr free ↦ (c, ground arith)
  | inl taken ↦ let (f, found) = find_enabled-some os i o e off in (f, ground arith)
]

reselect_kept :
    (os : List Choice) (i : ℕ) (o : Choice)
    → get_elem? os i ≡ some o
    → o.disabled ≡ false
    → reselect os (some i) ≡ some i
unfolding reselect
reselect_kept os i o e off = ground arith

reselect_moved :
    (os : List Choice) (i k : ℕ) (o f : Choice)
    → get_elem? os i ≡ some o
    → o.disabled ≡ true
    → find_enabled os ≡ some f
    → find_index f.value os ≡ some k
    → reselect os (some i) ≡ some k
unfolding reselect
reselect_moved os i k o f e on found at = ground arith

pub reselect-find_enabled :
    (os : List Choice) (i j : ℕ) (o d : Choice)
    → distinct_values os ≡ true
    → get_elem? os i ≡ some o
    → get_elem? os j ≡ some d
    → d.disabled ≡ false
    → (k : ℕ) × (f : Choice) × (reselect os (some i) ≡ some k)
      × (get_elem? os k ≡ some f)
      × (f.disabled ≡ false)
      × (o.disabled ≡ false → k ≡ i)
reselect-find_enabled os i j o d distinct e there off = elim (Bool-cases o.disabled) [
  | inr free ↦ (i, o, reselect_kept os i o e free, e, free, λ x. refl)
  | inl taken ↦
      let (f, found) = find_enabled-some os j d there off in
      let (k, at, there, free) = find_index-enabled os f distinct found in
      (k, f, reselect_moved os i k o f e taken found at, there, free, λ x. absurd (cc))
]
