-- ===== src/Session/Guard.antt =====
-- The token dialog of app/webui/app.js guards the page: it is up whenever there is no token, and
-- the page behind it is out of reach exactly then.
use vocagateway.Base.{
  ℕ, ◌≤◌, ◌<◌, ◌≡◌, ◌≢◌, ◌↔◌, refl, ap, Bool, true, false, not, List, [], ◌∷◌, ◌++◌, Option, none,
  some, Text, text_eq, length, ltb, ◌==◌, if◌then◌else◌, codes, trim, arith, Bool-cases, inl, inr,
  text_eq_iff, lt→ltb, ==_iff,
}
use vocagateway.Session.State.{
  Session, get_token, authorization, show_overlay, show_toast, store_token, save_token,
  response_error, failure_message, start, Event, type_token, save, forget, expired, hide_toast,
  failed, handle, open_tab, partial, tab_to_open,
}

pub record IsGuarded (s : Session) : Type 0 where
  pub inert : s.background_inert ≡ not s.overlay_hidden
  pub aria : s.overlay_aria_hidden ≡ s.overlay_hidden
  pub error_shown : s.error_hidden ≡ text_eq s.error []
  pub token_known : s.overlay_hidden ≡ true → get_token s ≢ []

-- The page as it is served: the dialog and its message are hidden.
pub record IsServed (s : Session) : Type 0 where
  pub overlay_hidden : s.overlay_hidden ≡ true
  pub aria : s.overlay_aria_hidden ≡ true
  pub inert : s.background_inert ≡ false
  pub no_error : s.error ≡ []
  pub error_hidden : s.error_hidden ≡ true

show_overlay-IsGuarded : (message : Text) (s : Session) → IsGuarded (show_overlay message s)
unfolding show_overlay
show_overlay-IsGuarded message s = record {
  inert = refl;
  aria = refl;
  error_shown = refl;
  token_known = λ e. absurd (cc);
}

text_eq-nil : (s : Text) → text_eq s [] ≡ false → s ≢ []
text_eq-nil s h e = absurd (ground (arith, text_eq_iff s []))

long-ne-nil : (s : Text) → ltb (length s) 32 ≡ false → s ≢ []
long-ne-nil s h e = absurd (ground (arith, ap length e))

le→ltb-false : (n : ℕ) → 32 ≤ n → ltb n 32 ≡ false
le→ltb-false n h = ground arith

store_token-IsGuarded :
    (t : Text) (s : Session) → t ≢ [] → IsGuarded s → IsGuarded (store_token t s)
unfolding store_token get_token
store_token-IsGuarded t s ne h = record {
  inert = refl;
  aria = refl;
  error_shown = h.error_shown;
  token_known = λ _. ne;
}

-- What a handler does to the input and the toast leaves the guard alone.
pub same-IsGuarded :
    {s u : Session}
    → IsGuarded s
    → u.token ≡ s.token
    → u.overlay_hidden ≡ s.overlay_hidden
    → u.overlay_aria_hidden ≡ s.overlay_aria_hidden
    → u.background_inert ≡ s.background_inert
    → u.error ≡ s.error
    → u.error_hidden ≡ s.error_hidden
    → IsGuarded u
unfolding get_token
same-IsGuarded {s} {u} h t o a i e eh = record {
  inert = rw (i, o) h.inert;
  aria = rw (a, o) h.aria;
  error_shown = rw (e, eh) h.error_shown;
  token_known = rw (t, o) h.token_known;
}

pub handle-IsGuarded : (e : Event) (s : Session) → IsGuarded s → IsGuarded (handle e s)
unfolding handle show_toast
handle-IsGuarded (type_token text) s h = same-IsGuarded h refl refl refl refl refl refl
handle-IsGuarded save s h = elim (Bool-cases (ltb (length (trim s.input)) 32)) [
  | inl e ↦ rw e (show_overlay-IsGuarded (codes "Token must be at least 32 characters.") s)
  | inr e ↦ rw e (store_token-IsGuarded (trim s.input) s (long-ne-nil (trim s.input) e) h)
]
handle-IsGuarded forget s h = show_overlay-IsGuarded _ (record s { token = none })
handle-IsGuarded expired s h = show_overlay-IsGuarded _ (record s { token = none })
handle-IsGuarded hide_toast s h = go s.toast_pending
  where
    go :
        (b : Bool)
        → IsGuarded (if b then record s { toast_hidden = true; toast_pending = false } else s)
    go true = same-IsGuarded h refl refl refl refl refl refl
    go false = h
handle-IsGuarded (failed status message) s h = elim (Bool-cases (status == 401)) [
  | inl e ↦ rw e (show_overlay-IsGuarded _ (record s { token = none }))
  | inr e ↦ rw e (same-IsGuarded h refl refl refl refl refl refl)
]

-- A session on the page.
abbrev pub run : List Event → Session → Session
run [] s = s
run (e ∷ es) s = run es (handle e s)

run-IsGuarded : (es : List Event) (s : Session) → IsGuarded s → IsGuarded (run es s)
run-IsGuarded [] s h = h
run-IsGuarded (e ∷ es) s h = run-IsGuarded es (handle e s) (handle-IsGuarded e s h)

pub start-IsGuarded : (s : Session) → IsServed s → IsGuarded (start s)
unfolding start
start-IsGuarded s v = elim (Bool-cases (text_eq (get_token s) [])) [
  | inl e ↦ rw e (show_overlay-IsGuarded [] s)
  | inr e ↦ rw e (record {
    inert = rw (v.overlay_hidden, v.inert) refl;
    aria = rw (v.overlay_hidden, v.aria) refl;
    error_shown = rw (v.no_error, v.error_hidden) refl;
    token_known = λ _. text_eq-nil (get_token s) e;
  })
]

-- From the served page on, after any handlers in any order: the page behind the dialog is inert
-- exactly while the dialog is up, its message is shown exactly when there is one, and while the
-- dialog is down there is a token.
pub run-start-IsGuarded :
    (es : List Event) (s : Session) → IsServed s → IsGuarded (run es (start s))
run-start-IsGuarded es s v = run-IsGuarded es (start s) (start-IsGuarded s v)

-- Saving a text of at least 32 characters, spaces around it not counted, makes it the token of
-- every later request, clears the input, takes the dialog down and reloads the open tab and the
-- three other partials. A shorter one changes no token and sends nothing.
pub save_token_lem :
    (s : Session)
    → (32 ≤ length (trim s.input)
        → (authorization (save_token s) ≡ codes "Bearer " ++ trim s.input)
          × ((save_token s).input ≡ [])
          × ((save_token s).overlay_hidden ≡ true)
          × ((save_token s).requests
              ≡ s.requests
                ++ open_tab (tab_to_open s)
                  ∷ partial (codes "/ui/partials/engine-pill") (codes "#engine-pill")
                  ∷ partial (codes "/ui/partials/cleanup/pill") (codes "#cleanup-pill")
                  ∷ partial (codes "/ui/partials/exposure-banner") (codes "#exposure-banner")
                  ∷ []))
      × (length (trim s.input) < 32
          → ((save_token s).token ≡ s.token)
            × ((save_token s).overlay_hidden ≡ false)
            × ((save_token s).input ≡ s.input)
            × ((save_token s).requests ≡ s.requests))
unfolding save_token authorization
save_token_lem s = (
  λ h. rw (le→ltb-false (length (trim s.input)) h) (refl, refl, refl, refl),
  λ h. rw (lt→ltb _ _ h) (refl, refl, refl, refl),
)

ne→==-false : (a b : ℕ) → a ≢ b → (a == b) ≡ false
ne→==-false a b h = ground arith

rejected_message :
    (t : Text)
    → ((if text_eq t [] then [] else codes "Token rejected. Paste the current gateway token.") ≡ [])
      ↔ (t ≡ [])
rejected_message [] = (λ _. refl, λ _. refl)
rejected_message (c ∷ t) = (λ e. absurd (cc), λ e. absurd (cc))

failure_message-ne-nil : (status : ℕ) (message : Option Text) → failure_message status message ≢ []
unfolding failure_message
failure_message-ne-nil status none = λ e. cc
failure_message-ne-nil status (some []) = λ e. cc
failure_message-ne-nil status (some (c ∷ m)) = λ e. cc

-- A response with status 401 drops the token and asks for another, with a message only if there
-- was one. Any other status leaves token and dialog alone, and its message, never empty, is shown
-- as an error.
pub response_error_lem :
    (status : ℕ) (message : Option Text) (s : Session)
    → (status ≡ 401
        → ((response_error status message s).token ≡ none)
          × ((response_error status message s).overlay_hidden ≡ false)
          × (((response_error status message s).error ≡ []) ↔ (get_token s ≡ []))
          × ((response_error status message s).toast ≡ s.toast))
      × (status ≢ 401
          → ((response_error status message s).token ≡ s.token)
            × ((response_error status message s).overlay_hidden ≡ s.overlay_hidden)
            × ((response_error status message s).toast ≢ [])
            × ((response_error status message s).toast_hidden ≡ false)
            × ((response_error status message s).toast_is_error ≡ true))
unfolding response_error
response_error_lem status message s = (
  λ e. rw ((==_iff status 401).1 e) (refl, refl, rejected_message (get_token s), refl),
  λ ne.
      rw (ne→==-false status 401 ne)
        (refl, refl, failure_message-ne-nil status message, refl, refl),
)
