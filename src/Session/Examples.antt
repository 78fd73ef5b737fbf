-- ===== src/Session/Examples.antt =====
-- Runs of the token handlers of app/webui/app.js, and their theorems at a concrete page.
use vocagateway.Base.{
  ◌≡◌, refl, true, false, List, [], ◌∷◌, none, some, Text, codes, trim, is_space, drop_while,
  decimal,
}
use vocagateway.Session.State.{Session, Event, type_token, save, hide_toast, failed, start, handle}
use vocagateway.Session.Guard.{IsGuarded, run, run-start-IsGuarded}

abbrev served : Session
served = record {
  token = none;
  overlay_hidden = true;
  overlay_aria_hidden = true;
  background_inert = false;
  input = [];
  error = [];
  error_hidden = true;
  toast = [];
  toast_is_error = false;
  toast_hidden = true;
  toast_pending = false;
  active_tab = some (codes "overview");
  requests = [];
}

abbrev secret : Text
secret = codes " 0123456789abcdef0123456789abcdef "

abbrev events : List Event
events = type_token secret ∷ save ∷ failed 401 none ∷ failed 500 none ∷ hide_toast ∷ []

events_test :
    ((run events (start served)).overlay_hidden ≡ false)
    × ((run events (start served)).error ≡ codes "Token rejected. Paste the current gateway token.")
    × ((run events (start served)).toast ≡ codes "Request failed (500).")
unfolding start handle is_space drop_while decimal trim
events_test = (refl, refl, refl)

run-start-IsGuarded_example : IsGuarded (run events (start served))
run-start-IsGuarded_example = run-start-IsGuarded events served (record {
  overlay_hidden = refl;
  aria = refl;
  inert = refl;
  no_error = refl;
  error_hidden = refl;
})

abbrev typed : Session
typed = record served { input = secret }
