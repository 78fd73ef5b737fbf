-- ===== src/Recorder/Hasty.antt =====
-- Two clicks that wait at once (app/webui/app.js): the button stays enabled while a click waits for
-- the pickers and for the microphone, and what it does then does not look at `recorder` again.
use vocagateway.Base.{
  ℕ, suc, ◌+◌, ◌≡◌, refl, ap, ◌∙◌, Bool, true, false, List, [], ◌∷◌, ◌++◌, Option, none, some, Text,
  ==_iff, any, arith,
}
use vocagateway.Recorder.Machine.{
  Machine, has, Event, click, synced, granted, is_recording, pick_mime_type, handle, run,
}
use vocagateway.Recorder.Phases.{IsIdle}
use vocagateway.Recorder.Orphan.{IsOrphan, ends, run-IsOrphan}

-- Two clicks while nothing records, and the microphone granted to both.
abbrev pub hasty : ℕ → ℕ → List Event
hasty a b = click ∷ click ∷ synced ∷ synced ∷ granted a ∷ granted b ∷ []

module _ (is_type_supported : Text → Bool) (maximum : Option ℕ) where
  -- Clicks that wait, of a recorder that has made `n` recordings, none of which goes on.
  record AreWaiting (n pickers permissions : ℕ) (s : Machine) : Type 0 where
    count : s.made ≡ n
    none_recording : s.recording ≡ []
    none_stopping : s.stopping ≡ []
    none_live : s.microphones ≡ []
    enabled : s.panel.button_disabled ≡ false
    at_pickers : s.syncing ≡ pickers
    at_permission : s.asking ≡ permissions

  is_recording_nil : (o : Option ℕ) → is_recording o [] ≡ false
  unfolding any
  is_recording_nil none = refl
  is_recording_nil (some r) = refl

  click-AreWaiting :
      (n k m : ℕ) (s : Machine)
      → AreWaiting n k m s
      → AreWaiting n (suc k) m (handle is_type_supported maximum click s)
  unfolding handle
  click-AreWaiting n k m s w = ground (arith, is_recording_nil s.recorder)

  synced-AreWaiting :
      (n k m : ℕ) (s : Machine) (t : Text)
      → pick_mime_type is_type_supported ≡ some t
      → AreWaiting n (suc k) m s
      → AreWaiting n k (suc m) (handle is_type_supported maximum synced s)
  unfolding handle
  synced-AreWaiting n k m s t e w = ground arith

  -- The first of two waiting clicks has got its microphone.
  record IsFirst (n : ℕ) (s : Machine) : Type 0 where
    count : s.made ≡ suc n
    this_recording : s.recording ≡ n ∷ []
    none_stopping : s.stopping ≡ []
    this_live : s.microphones ≡ n ∷ []
    at_permission : s.asking ≡ 1

  granted-IsFirst :
      (n a : ℕ) (s : Machine)
      → AreWaiting n 0 2 s
      → IsFirst n (handle is_type_supported maximum (granted a) s)
  unfolding handle
  granted-IsFirst n a s w = ground arith

  granted-IsOrphan :
      (n b : ℕ) (s : Machine)
      → IsFirst n s
      → IsOrphan n (handle is_type_supported maximum (granted b) s)
  unfolding handle any
  granted-IsOrphan n b s w = record {
    replaced = (suc n, ground arith, ground arith);
    earlier = ground arith;
    recording_on = ground (arith, ==_iff n n);
    stopping_not = ground arith;
    microphone_on = ground (arith, ==_iff n n);
  }

  hasty-IsOrphan :
      (a b : ℕ) (s : Machine) (t : Text)
      → pick_mime_type is_type_supported ≡ some t
      → AreWaiting s.made 0 0 s
      → IsOrphan s.made (run is_type_supported maximum (hasty a b) s)
  hasty-IsOrphan a b s t m w = granted-IsOrphan s.made b _ (
      granted-IsFirst s.made a _ (
        synced-AreWaiting s.made 0 1 _ t m (
          synced-AreWaiting s.made 1 0 _ t m
            (click-AreWaiting s.made 1 0 _ (click-AreWaiting s.made 0 0 s w)))))

  run-append :
      (es fs : List Event) (s : Machine)
      → run is_type_supported maximum (es ++ fs) s
        ≡ run is_type_supported maximum fs (run is_type_supported maximum es s)
  run-append [] fs s = refl
  run-append (e ∷ es) fs s = run-append es fs (handle is_type_supported maximum e s)

  -- Two quick clicks on an idle recorder, both granted the microphone, leave a recording behind: it
  -- goes on with its microphone live whatever is clicked and however long it takes, until the
  -- browser itself ends it.
  pub hasty_lem :
      (a b : ℕ) (es : List Event) (s : Machine) (t : Text)
      → IsIdle s
      → s.syncing + s.asking ≡ 0
      → s.panel.button_disabled ≡ false
      → pick_mime_type is_type_supported ≡ some t
      → any (ends s.made) es ≡ false
      → (has s.made (run is_type_supported maximum (hasty a b ++ es) s).recording ≡ true)
        × (has s.made (run is_type_supported maximum (hasty a b ++ es) s).microphones ≡ true)
  hasty_lem a b es s t i none_wait enabled m never =
      let waiting : AreWaiting s.made 0 0 s = ground arith in
      let orphan =
        run-IsOrphan is_type_supported maximum s.made es
          (run is_type_supported maximum (hasty a b) s) never (hasty-IsOrphan a b s t m waiting) in
      let whole = run-append (hasty a b) es s in
      (
        ap (λ u. has s.made (Machine.recording u)) whole ∙ orphan.recording_on,
        ap (λ u. has s.made (Machine.microphones u)) whole ∙ orphan.microphone_on,
      )
