-- ===== src/Timers.antt =====
-- Timers of the browser, and a variable that holds the one that was set last: `clearTimeout(t)`,
-- then `t = setTimeout(...)`, in app/webui/app.js.
use vocagateway.Base.{
  ℕ, ◌≤◌, ◌≡◌, refl, Bool, true, false, not, ◌||◌, List, [], ◌∷◌, ◌++◌, Option, none, some, ◌==◌,
  ==_iff, filter, length, arith,
}

pub record Timer : Type 0 where
  pub id : ℕ
  pub delay : ℕ

abbrev pub clear_timeout : Option ℕ → List Timer → List Timer
clear_timeout none ts = ts
clear_timeout (some t) ts = filter (λ u. not (u.id == t)) ts

abbrev pub has_timer : ℕ → List Timer → Bool
has_timer t [] = false
has_timer t (u ∷ us) = u.id == t || has_timer t us

-- A timer that fires is gone.
abbrev pub fired : ℕ → List Timer → List Timer
fired t ts = filter (λ u. not (u.id == t)) ts

filter-filter-nil :
    (p q : Timer → Bool) (ts : List Timer) → filter p ts ≡ [] → filter p (filter q ts) ≡ []
unfolding filter
filter-filter-nil p q [] h = refl
filter-filter-nil p q (t ∷ ts) h = ground (arith, filter-filter-nil p q ts)

pub length-fired : (t : ℕ) (ts : List Timer) → length (fired t ts) ≤ length ts
unfolding filter
length-fired t [] = omega arith
length-fired t (u ∷ ts) = ground (arith, length-fired t ts)

pub clear_timeout-fired :
    (o : Option ℕ) (t : ℕ) (ts : List Timer)
    → clear_timeout o ts ≡ []
    → clear_timeout o (fired t ts) ≡ []
unfolding filter
clear_timeout-fired none t ts h = rw h refl
clear_timeout-fired (some s) t ts h =
    filter-filter-nil (λ u. not (u.id == s)) (λ u. not (u.id == t)) ts h

pub clear_timeout_self :
    (t delay : ℕ) → clear_timeout (some t) (record { id = t; delay = delay } ∷ []) ≡ []
unfolding filter
clear_timeout_self t delay = ground (arith, ==_iff t t)

-- The only timer, once it has fired, leaves none.
pub fired_last : (t : ℕ) (ts : List Timer) → length ts ≤ 1 → has_timer t ts ≡ true → fired t ts ≡ []
unfolding filter
fired_last t [] h k = refl
fired_last t (u ∷ []) h k = ground (arith, ==_iff u.id t)
fired_last t (u ∷ v ∷ ts) h k = absurd (omega arith)

-- At most one timer is set, and clearing the one that the variable holds leaves none.
pub record IsOnly (variable : Option ℕ) (ts : List Timer) : Type 0 where
  pub at_most_one : length ts ≤ 1
  pub known : clear_timeout variable ts ≡ []

pub IsOnly-none : (variable : Option ℕ) → IsOnly variable []
unfolding filter
IsOnly-none none = record { at_most_one = omega arith; known = refl }
IsOnly-none (some t) = record { at_most_one = omega arith; known = refl }

-- `clearTimeout(variable)`, then `variable = setTimeout(...)`.
pub reset_lem :
    (variable : Option ℕ) (t delay : ℕ) (ts : List Timer)
    → IsOnly variable ts
    → clear_timeout variable ts ++ record { id = t; delay = delay } ∷ []
      ≡ record { id = t; delay = delay } ∷ []
reset_lem variable t delay ts i = rw i.known refl

pub reset-IsOnly : (t delay : ℕ) → IsOnly (some t) (record { id = t; delay = delay } ∷ [])
reset-IsOnly t delay = record { at_most_one = omega arith; known = clear_timeout_self t delay }
