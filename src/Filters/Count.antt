-- ===== src/Filters/Count.antt =====
-- How many filters a request carries (`updateFilterChrome` of app/webui/app.js).
use vocagateway.Base.{
  ℕ, ◌+◌, ◌≡◌, ◌≢◌, ◌↔◌, refl, ap, Bool, true, false, not, List, [], ◌∷◌, Option, none, some, arith,
}
use vocagateway.Filters.Form.{Filters, is_nil, one_if, is_some, count_filters}

-- A request that asks for the whole list.
abbrev pub unfiltered : Filters
unfiltered = record {
  family = [];
  language = [];
  engine = [];
  max_size = none;
  installed_only = false;
  recommended_only = false;
}

is_nil-inv {ℓ} : {A : Type ℓ} (xs : List A) → one_if (not (is_nil xs)) ≡ 0 → xs ≡ []
is_nil-inv [] h = refl
is_nil-inv (x ∷ xs) h = absurd (ground arith)

is_some-inv {ℓ} : {A : Type ℓ} (o : Option A) → one_if (is_some o) ≡ 0 → o ≡ none
is_some-inv none h = refl
is_some-inv (some a) h = absurd (ground arith)

one_if-inv : (b : Bool) → one_if b ≡ 0 → b ≡ false
one_if-inv true h = absurd (ground arith)
one_if-inv false h = refl

-- One where something holds, and zero where not.
abbrev pub IsIndicator : Type 0 → ℕ → Type 0
IsIndicator P n = (P → n ≡ 1) × (¬ P → n ≡ 0)

-- How many of the six filters a request carries.
pub record IsCount (q : Filters) (count : ℕ) : Type 0 where
  pub family : ℕ
  pub language : ℕ
  pub engine : ℕ
  pub max_size : ℕ
  pub installed : ℕ
  pub recommended : ℕ
  pub family_set : IsIndicator (q.family ≢ []) family
  pub language_set : IsIndicator (q.language ≢ []) language
  pub engine_set : IsIndicator (q.engine ≢ []) engine
  pub max_size_set : IsIndicator (q.max_size ≢ none) max_size
  pub installed_set : IsIndicator (q.installed_only ≡ true) installed
  pub recommended_set : IsIndicator (q.recommended_only ≡ true) recommended
  pub total : count ≡ family + language + engine + max_size + installed + recommended

one_if-is_nil {ℓ} :
    {A : Type ℓ} (xs : List A)
    → (xs ≢ [] → one_if (not (is_nil xs)) ≡ 1) × (¬ (xs ≢ []) → one_if (not (is_nil xs)) ≡ 0)
one_if-is_nil [] = (λ h. absurd (h refl), λ h. refl)
one_if-is_nil (x ∷ xs) = (λ h. refl, λ h. absurd (h (λ q. cc)))

one_if-is_some {ℓ} :
    {A : Type ℓ} (o : Option A)
    → (o ≢ none → one_if (is_some o) ≡ 1) × (¬ (o ≢ none) → one_if (is_some o) ≡ 0)
one_if-is_some none = (λ h. absurd (h refl), λ h. refl)
one_if-is_some (some a) = (λ h. refl, λ h. absurd (h (λ q. cc)))

one_if-true : (b : Bool) → IsIndicator (b ≡ true) (one_if b)
one_if-true true = (λ h. refl, λ h. absurd (h refl))
one_if-true false = (λ h. absurd (cc), λ h. refl)

pub count_filters-zero : (q : Filters) → (count_filters q ≡ 0) ↔ (q ≡ unfiltered)
unfolding count_filters
count_filters-zero q = (
  λ h.
      let a = is_nil-inv q.family (omega arith) in
      let b = is_nil-inv q.language (omega arith) in
      let c = is_nil-inv q.engine (omega arith) in
      let d = is_some-inv q.max_size (omega arith) in
      let e = one_if-inv q.installed_only (omega arith) in
      let f = one_if-inv q.recommended_only (omega arith) in cc,
  λ h. ap count_filters h,
)

pub count_filters-IsCount : (q : Filters) → IsCount q (count_filters q)
unfolding count_filters
count_filters-IsCount q = record {
  family = one_if (not (is_nil q.family));
  language = one_if (not (is_nil q.language));
  engine = one_if (not (is_nil q.engine));
  max_size = one_if (is_some q.max_size);
  installed = one_if q.installed_only;
  recommended = one_if q.recommended_only;
  family_set = one_if-is_nil q.family;
  language_set = one_if-is_nil q.language;
  engine_set = one_if-is_nil q.engine;
  max_size_set = one_if-is_some q.max_size;
  installed_set = one_if-true q.installed_only;
  recommended_set = one_if-true q.recommended_only;
  total = refl;
}
