-- ===== src/Poll/Progress.antt =====
-- What an answer about the models writes into the cards of the downloads (`pollModelProgress` of
-- app/webui/app.js). A progress is a floating-point number; its operations are parameters.
use vocagateway.Base.{
  ℕ, ◌+◌, ◌≤◌, ◌≡◌, Bool, true, false, List, [], ◌∷◌, ◌++◌, Option, none, some, Text, ◌==◌, text_eq,
  if◌then◌else◌, codes, decimal,
}
use vocagateway.Poll.Size.{format_bytes}

-- An integer, and its order and its text (`String`).
pub data ℤ : Type 0 where
  pos negsuc : ℕ → ℤ

abbrev pub LeInt : ℤ → ℤ → Type 0
LeInt (pos m) (pos n) = m ≤ n
LeInt (negsuc m) (pos n) = Unit
LeInt (pos m) (negsuc n) = ⊥
LeInt (negsuc m) (negsuc n) = n ≤ m

abbrev pub string_of : ℤ → Text
string_of (pos n) = decimal n
string_of (negsuc n) = b'-' ∷ decimal (n + 1)

pub record Ratios (F : Type 0) : Type 0 where
  pub nought : F
  pub one : F
  -- `Math.min`, `Math.max`
  pub smaller : F → F → F
  pub larger : F → F → F
  -- `Math.round(ratio * 100)`, and `(ratio * 100).toFixed(2)`
  pub percent : F → ℤ
  pub width : F → Text
  -- `(size / 1e9).toFixed(1)`, in tenths
  pub tenths : ℕ → ℕ

-- What the code relies on: the larger and the smaller of two numbers are in order with one, and
-- rounding keeps order.
pub record IsOrdered {F : Type 0} (n : Ratios F) : Type 1 where
  pub Le : F → F → Type 0
  pub nought_one : Le n.nought n.one
  pub smaller_left : (a b : F) → Le (n.smaller a b) a
  pub larger_left : (a b : F) → Le a (n.larger a b)
  pub larger_least : (a b c : F) → Le a c → Le b c → Le (n.larger a b) c
  pub percent_mono : (a b : F) → Le a b → LeInt (n.percent a) (n.percent b)
  pub percent_nought : n.percent n.nought ≡ pos 0
  pub percent_one : n.percent n.one ≡ pos 100

-- The fields of one entry of the answer. `none` is a field that is missing or null.
pub record Entry (F : Type 0) : Type 0 where
  pub id : Text
  pub state : Text
  pub progress : Option F
  pub downloaded_bytes : Option ℕ
  pub total_bytes : Option ℕ

-- A card of a download: which element it is, its `data-model-id`, and the parts that it has.
pub record Card : Type 0 where
  pub element : ℕ
  pub model_id : Text
  -- `aria-valuenow` of `.progress`
  pub value_now : Option ℤ
  -- the width of `.bar`, in percent
  pub bar_width : Option Text
  pub copy : Option Text

abbrev pub put {ℓ} : {A : Type ℓ} → A → Option A → Option A
put a none = none
put a (some _) = some a

-- `new Map(entries.map((entry) => [entry.id, entry])).get(id)`: the last entry of that id.
unfoldable pub find_entry : {F : Type 0} → Text → List (Entry F) → Option (Entry F)
find_entry id [] = none
find_entry id (e ∷ es) =
    let found = find_entry id es in
    elim found [ some f ↦ some f | none ↦ if text_eq e.id id then some e else none ]

abbrev pub or_zero : Option ℕ → ℕ
or_zero none = 0
or_zero (some k) = k

module _ {F : Type 0} (n : Ratios F) where
  open n use {nought, one, smaller, larger, percent, width, tenths}

  -- `entry.progress || 0`
  abbrev pub or_nought : Option F → F
  or_nought none = nought
  or_nought (some v) = v

  abbrev pub ratio_of : Entry F → F
  ratio_of e = larger nought (smaller one (or_nought e.progress))

  unfoldable pub show_progress : Entry F → Card → Card
  show_progress e c = record c {
    value_now = put (percent (ratio_of e)) c.value_now;
    bar_width = put (width (ratio_of e)) c.bar_width;
    copy =
        put
          (string_of (percent (ratio_of e))
            ++ codes "% · "
            ++ format_bytes tenths (or_zero e.downloaded_bytes)
            ++ codes " / "
            ++ format_bytes tenths (or_zero e.total_bytes))
          c.copy;
  }

  -- The card of the page that is the same element gets the progress.
  unfoldable pub update_element : ℕ → Entry F → List Card → List Card
  unfolding show_progress
  update_element element e [] = []
  update_element element e (c ∷ cs) =
      (if c.element == element then show_progress e c else c) ∷ update_element element e cs

  -- `cards.forEach`, over the cards that were found before the request; the page may have others by
  -- now. Also whether the list needs a refresh.
  unfoldable pub update_cards : List (Entry F) → List Card → List Card → List Card × Bool
  unfolding find_entry update_element
  update_cards es [] page = (page, false)
  update_cards es (c ∷ cs) page = elim (find_entry c.model_id es) [
    | none ↦ ((update_cards es cs page).0, true)
    | some e ↦
        let shown = update_cards es cs (update_element c.element e page) in
        let stale : List Card × Bool = ((update_cards es cs page).0, true) in
        if text_eq e.state (codes "downloading") then shown else stale
  ]
