-- ===== src/Script/Events.antt =====
-- Events that concern the token, the list of models and what is downloaded, as they reach the parts
-- of app/webui/app.js that share them: each part's own handlers, one after the other.
use vocagateway.Base.{ℕ, Bool, true, List, [], ◌∷◌, Text}
use vocagateway.Session.State.{Session}
use vocagateway.Session.State
use vocagateway.Families.Grid.{Grid}
use vocagateway.Families.Grid
use vocagateway.Poll.Progress.{Ratios, Card}
use vocagateway.Poll.Timer.{Poller}
use vocagateway.Poll.Timer
use vocagateway.Swap.Hooks.{Page, map_grid}
use vocagateway.Swap.Hooks
use vocagateway.Copy.Messages.{
  Diagnostics, Download, download_diagnostics, copy_new_token, copy_transcript,
}

pub record Script : Type 0 where
  -- the downloads and their polling, with the session and the filters
  pub poller : Poller
  -- the list of models, and what is kept over its swaps
  pub page : Page
  -- the names of the files that were downloaded
  pub files : List Text

pub data Event (F : Type 0) : Type 0 where
  act : State.Event → Event F
  poll : Timer.Event F → Event F
  family : Grid.Event → Event F
  -- htmx puts a new list in place: the columns, the families and the cards of the downloads
  swap_list : ℕ → Grid → List Card → Event F
  download : Diagnostics → Event F
  copy_token : Bool → Event F
  copy_text : Bool → Event F

abbrev pub put_session : Session → Script → Script
put_session u s = record s { poller = record s.poller { session = u } }

abbrev pub put_download : Download → Script → Script
put_download d s = record s { poller = record s.poller { session = d.session }; files = d.files }

module _ {F : Type 0} (n : Ratios F) where
  unfoldable pub handle : Event F → Script → Script
  unfolding State.handle Timer.handle Grid.handle Hooks.swap_list download_diagnostics
      copy_new_token copy_transcript
  handle (act e) s = put_session (State.handle e s.poller.session) s
  handle (poll e) s = record s { poller = Timer.handle n e s.poller }
  handle (family e) s = record s {
    page = record s.page { grid = map_grid (Grid.handle e) s.page.grid };
  }
  handle (swap_list cols served cards) s = record s {
    page = Hooks.swap_list cols served s.page;
    poller = Timer.handle n (Timer.Event.after_swap cards true) s.poller;
  }
  handle (download a) s =
      put_download (download_diagnostics a (record { session = s.poller.session; files = s.files }))
        s
  handle (copy_token copied) s = put_session (copy_new_token copied s.poller.session) s
  handle (copy_text copied) s = put_session (copy_transcript copied s.poller.session) s

  abbrev pub run : List (Event F) → Script → Script
  run [] s = s
  run (e ∷ es) s = run es (handle e s)
