-- ===== src/Diff/Trimmed.antt =====
-- What is left of a token of the word diff of app/webui/app.js as it is trimmed.
use mathlib.Core.List.{reverse, reverse-append, reverse-cons, reverse-reverse}
use vocagateway.Base.{
  ℕ, ◌≡◌, ◌≢◌, refl, Bool, true, ◌&&◌, [], ◌∷◌, ◌++◌, Text, arith, is_space, not_space, drop_while,
  all, trim,
}
use vocagateway.Diff.Tokens.{IsToken}

all-append : (p : ℕ → Bool) (xs ys : Text) → all p (xs ++ ys) ≡ (all p xs && all p ys)
unfolding all
all-append p [] ys = refl
all-append p (x ∷ xs) ys = ground (arith, all-append p xs ys)

all-reverse : (p : ℕ → Bool) (xs : Text) → all p xs ≡ true → all p (reverse xs) ≡ true
unfolding all
all-reverse p [] h = refl
all-reverse p (x ∷ xs) h =
    rw (reverse-cons x xs, all-append p (reverse xs) (x ∷ [])) (ground (arith, all-reverse p xs))

drop_while-append :
    (p : ℕ → Bool) (xs ys : Text) → all p xs ≡ true → drop_while p (xs ++ ys) ≡ drop_while p ys
unfolding drop_while all
drop_while-append p [] ys h = refl
drop_while-append p (x ∷ xs) ys h = ground (arith, drop_while-append p xs ys)

drop_while_none :
    (xs ys : Text) → all not_space xs ≡ true → xs ≢ [] → drop_while is_space (xs ++ ys) ≡ xs ++ ys
unfolding drop_while all
drop_while_none [] ys h ne = absurd (ne refl)
drop_while_none (x ∷ xs) ys h ne = ground arith

drop_while_id : (xs : Text) → all not_space xs ≡ true → drop_while is_space xs ≡ xs
unfolding drop_while all
drop_while_id [] h = refl
drop_while_id (x ∷ xs) h = ground arith

-- Trimmed, as the tokens are compared, a token is its word.
pub trim-IsToken : (token : Text) (t : IsToken token) → trim token ≡ t.word
unfolding trim
trim-IsToken token t =
    rw
      (
        t.parts,
        drop_while_none t.word t.gap t.no_space t.some_word,
        reverse-append t.word t.gap,
        drop_while-append is_space (reverse t.gap) (reverse t.word)
            (all-reverse is_space t.gap t.only_space),
        drop_while_id (reverse t.word) (all-reverse not_space t.word t.no_space),
      )
      (reverse-reverse t.word)
