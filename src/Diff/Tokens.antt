-- ===== src/Diff/Tokens.antt =====
-- `tokenize` of app/webui/app.js: the matches of `/\S+\s*/g`.
use vocagateway.Base.{
  ℕ, zero, suc, ◌+◌, ◌<◌, ◌≡◌, ◌≢◌, refl, sym, ap, ◌∙◌, Bool, true, false, List, [], ◌∷◌, ◌++◌,
  Text, length, arith, append_assoc, is_space, not_space, take_while, drop_while, all,
  take_while-append-drop_while, all-take_while, length-drop_while, drop_while_idem, Bool-cases, inl,
  inr, codes,
}

-- The matches, left to right, on fuel. A match starts at the next character that is no space and
-- takes all that follow it, then all the spaces.
unfoldable pub matches_from : ℕ → Text → List Text
matches_from zero text = []
matches_from (suc fuel) text =
    let rest = drop_while is_space text in
    let word = take_while not_space rest in
    let behind = drop_while not_space rest in
    let others =
      (word ++ take_while is_space behind) ∷ matches_from fuel (drop_while is_space behind) in
    elim rest [ [] ↦ [] | c ∷ s ↦ others ]

-- Each match takes a character at least, so the length of the text is enough fuel.
unfoldable pub tokenize : Text → List Text
unfolding matches_from
tokenize text = matches_from (length text + 1) text

unfoldable pub concat : List Text → Text
concat [] = []
concat (t ∷ ts) = t ++ concat ts

tokenize_test : tokenize (codes " so, i  said ") ≡ codes "so, " ∷ codes "i  " ∷ codes "said " ∷ []
unfolding tokenize take_while drop_while is_space
tokenize_test = refl

-- A word and the spaces behind it.
pub record IsToken (token : Text) : Type 0 where
  pub word : Text
  pub gap : Text
  pub parts : token ≡ word ++ gap
  pub some_word : word ≢ []
  pub no_space : all not_space word ≡ true
  pub only_space : all is_space gap ≡ true

abbrev pub All {ℓ κ} : {A : Type ℓ} → (A → Type κ) → List A → Type κ
All P [] = Unit
All P (x ∷ xs) = P x × All P xs

drop_while-head :
    (p : ℕ → Bool) (xs : Text) {c : ℕ} {s : Text} → drop_while p xs ≡ c ∷ s → p c ≡ false
unfolding drop_while
drop_while-head p [] h = absurd (cc)
drop_while-head p (x ∷ xs) {c} {s} h = elim (Bool-cases (p x)) [
  | inl e ↦ drop_while-head p xs (rw e at h)
  | inr e ↦ ground (arith, e, rw e at h)
]

-- Where a match starts: the first character that is no space.
record Start (text : Text) (c : ℕ) (s : Text) : Type 0 where
  begins : drop_while is_space text ≡ c ∷ s
  visible : is_space c ≡ false
  shorter :
      length (drop_while is_space (drop_while not_space (drop_while is_space text))) < length text

Start_lem : (text : Text) {c : ℕ} {s : Text} → drop_while is_space text ≡ c ∷ s → Start text c s
unfolding drop_while
Start_lem text {c} {s} e = record {
  begins = e;
  visible = drop_while-head is_space text e;
  shorter = rw e (behind (drop_while-head is_space text e));
}
  where
    behind :
        is_space c ≡ false
        → length (drop_while is_space (drop_while not_space (c ∷ s))) < length text
    behind v = rw v (
        omega (
          arith,
          length-drop_while is_space (drop_while not_space s),
          length-drop_while not_space s,
          ap length e,
          length-drop_while is_space text,
        ))

-- The text behind the first match.
abbrev next_text : Text → Text
next_text text = drop_while is_space (drop_while not_space (drop_while is_space text))

concat-matches_from :
    (fuel : ℕ) (text : Text)
    → length text < fuel
    → concat (matches_from fuel text) ≡ drop_while is_space text
unfolding concat matches_from
concat-matches_from zero text h = absurd (omega arith)
concat-matches_from (suc fuel) text h =
    go (drop_while is_space text) refl (λ l. concat-matches_from fuel (next_text text) l)
  where
    go :
        (rest : Text)
        → drop_while is_space text ≡ rest
        → (length (next_text text) < fuel
            → concat (matches_from fuel (next_text text)) ≡ drop_while is_space (next_text text))
        → concat (matches_from (suc fuel) text) ≡ drop_while is_space text
    go [] e ih = rw (e, matches_from) refl
    go (c ∷ s) e ih =
        rw (e, matches_from)
          (rw
            (
              ih (omega (arith, (Start_lem text e).shorter)),
              drop_while_idem is_space (drop_while not_space (drop_while is_space text)),
              append_assoc,
              take_while-append-drop_while is_space,
              take_while-append-drop_while not_space,
            )
            e)

first-IsToken :
    (text : Text) {c : ℕ} {s : Text}
    → drop_while is_space text ≡ c ∷ s
    → (k : IsToken (
        take_while not_space (drop_while is_space text)
        ++ take_while is_space (drop_while not_space (drop_while is_space text))))
      × (k.gap ≡ take_while is_space (drop_while not_space (drop_while is_space text)))
first-IsToken text {c} {s} e = (
  record {
    word = take_while not_space (drop_while is_space text);
    gap = take_while is_space (drop_while not_space (drop_while is_space text));
    parts = refl;
    some_word = rw e (unfold take_while in rw ((Start_lem text e).visible) (λ q. cc));
    no_space = all-take_while not_space _;
    only_space = all-take_while is_space _;
  },
  refl,
)

matches_from-IsToken : (fuel : ℕ) (text : Text) → All IsToken (matches_from fuel text)
unfolding matches_from
matches_from-IsToken zero text = tt
matches_from-IsToken (suc fuel) text =
    go (drop_while is_space text) refl (matches_from-IsToken fuel (next_text text))
  where
    go :
        (rest : Text)
        → drop_while is_space text ≡ rest
        → All IsToken (matches_from fuel (next_text text))
        → All IsToken (matches_from (suc fuel) text)
    go [] e ih = rw (e, matches_from) tt
    go (c ∷ s) e ih = rw (e, matches_from) ((first-IsToken text e).0, ih)

-- Each token that another one follows has spaces behind its word: its word goes on to the first
-- space.
abbrev pub AreSplit : List Text → Type 0
AreSplit [] = Unit
AreSplit (t ∷ ts) = (ts ≢ [] → (k : IsToken t) × (k.gap ≢ [])) × AreSplit ts

matches_from-nil : (fuel : ℕ) → matches_from fuel [] ≡ []
unfolding matches_from drop_while
matches_from-nil zero = refl
matches_from-nil (suc fuel) = refl

-- Where no space follows a word, nothing does.
gap_nil :
    (rest behind : Text)
    → drop_while not_space rest ≡ behind
    → take_while is_space behind ≡ []
    → behind ≡ []
unfolding take_while
gap_nil rest [] e h = refl
gap_nil rest (c ∷ s) e h = absurd (ground (arith, drop_while-head not_space rest e))

last_match :
    (fuel : ℕ) (text : Text)
    → take_while is_space (drop_while not_space (drop_while is_space text)) ≡ []
    → matches_from fuel (next_text text) ≡ []
unfolding drop_while
last_match fuel text h =
    ap (λ x. matches_from fuel (drop_while is_space x))
      (gap_nil (drop_while is_space text) _ refl h)
    ∙ matches_from-nil fuel

matches_from-AreSplit : (fuel : ℕ) (text : Text) → AreSplit (matches_from fuel text)
unfolding matches_from
matches_from-AreSplit zero text = tt
matches_from-AreSplit (suc fuel) text =
    go (drop_while is_space text) refl (matches_from-AreSplit fuel (next_text text))
  where
    go :
        (rest : Text)
        → drop_while is_space text ≡ rest
        → AreSplit (matches_from fuel (next_text text))
        → AreSplit (matches_from (suc fuel) text)
    go [] e ih = rw (e, matches_from) tt
    go (c ∷ s) e ih =
        rw (e, matches_from)
          (
            λ more.
                let (token, gap) = first-IsToken text e in
                (token, λ h. more (last_match fuel text (sym gap ∙ h))),
            ih,
          )

-- Nothing of the text is lost but the spaces in front, each token is a word with the spaces behind
-- it, and a token without spaces behind it is the last one, so that each word goes on to the next
-- space or to the end.
pub tokenize_lem :
    (text : Text)
    → (concat (tokenize text) ≡ drop_while is_space text)
      × All IsToken (tokenize text)
      × AreSplit (tokenize text)
unfolding tokenize
tokenize_lem text = (
  concat-matches_from (length text + 1) text (omega arith),
  matches_from-IsToken _ text,
  matches_from-AreSplit _ text,
)
