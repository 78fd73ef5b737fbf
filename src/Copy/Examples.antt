-- ===== src/Copy/Examples.antt =====
-- Runs of the copy and download buttons of app/webui/app.js.
use vocagateway.Base.{
  ◌≤◌, ◌≡◌, refl, true, false, List, [], ◌∷◌, ◌++◌, none, some, Text, codes, length,
}
use vocagateway.Copy.Pairing.{Button, Event, click, wrote, fire, handle, run}
use vocagateway.Copy.Hint.{IsResting, run-IsResting}

abbrev pair : Text → Text → Text
pair url token = url ++ b' ' ∷ token

abbrev button : Button
button = record {
  url = codes "http://a";
  token = codes "t";
  hint = some (codes "Copy address & token");
  is_copied = false;
  title = codes "Copy gateway address and token";
  timers = [];
  copy_hint_timer = none;
  next_timer = 0;
  writing = 0;
  written = [];
}

abbrev impatient : List Event
impatient = click none ∷ click none ∷ wrote true ∷ wrote false ∷ fire 1 ∷ []

impatient-run :
    ((run pair impatient button).hint ≡ some (codes "Copy address & token"))
    × ((run pair (click none ∷ wrote true ∷ []) button).hint ≡ some (codes "Copied"))
unfolding handle
impatient-run = (refl, refl)

run-IsResting_example :
    (length (run pair impatient button).timers ≤ 1)
    × ((run pair impatient button).timers ≡ [] → IsResting (run pair impatient button))
run-IsResting_example = run-IsResting pair impatient button refl (refl, refl, refl)
