-- ===== src/Lib.antt =====
-- The browser code of VocaGateway. The gateway itself is a Python server; its WebUI is one page
-- whose script is app/webui/app.js. An early script, app/webui/theme-boot.js, sets the theme
-- before the page is painted. The page gets its partials from the server by htmx and keeps the
-- access token and the theme in localStorage.
--
-- The parts of the script share one page but little state. A rejected token or an expired session
-- (Session) puts up the dialog, and a saved token reloads the active tab, whose name Tabs keeps in
-- the address. A recording or the try-it box of the cleanup tab ends in the report of Cleanup, which
-- shows the two texts compared by Diff. The model that is active decides what the pickers of
-- Languages and the controls of Cleanup offer. While a model is downloaded, Poll asks for its progress
-- and writes it into the cards of the list; a token that is refused there, or as the diagnostics are
-- downloaded, ends the session like any other. A swap of the list keeps the families open that were
-- (Swap, on the grid of Families; Script has these parts together), and each swap on the models tab sets up its filters, views, rail and
-- families anew (Setup). What a stop of the recorder (Recorder) sends is a take, which
-- Benchmark has transcribed as often as runs are asked for; the outcome is the event `finished` of
-- Recorder, and the figures go with the report of Cleanup.
--
-- Files:
--   Base       conditions, lists over the native numbers, texts as lists of code units
--   Diff       tokenize, commonTokens, paintDiff, paintComparison: Tokens (the regular expression
--              /\S+\s*/g), Common (the table, a flat Uint32Array, and the walk over it), Paint;
--              Subsequence, Trimmed, Cells, Table, Walk, Longest, Painting, Results prove what they compute
--   Cleanup    renderCleanupComparison and describeCleanup (Report, Advice), runCleanupPreview,
--              requestCleanupPreview, paintPreview (Preview), the try-it box with its two
--              buttons (Box), syncTestCleanup and syncTestCleanupWarning (Warning); Counts, Release,
--              Clicks, Alone, Stranded prove
--   Families   the grid of model families: Grid has the moves of the panels between the tiles,
--              from familyTiles to relayoutOpenFamilyPanels, and the click, Resize the "resize"
--              event with its timer; Order, Collapse, Sessions follow the children of the grid,
--              Rows, Opened, Shown the flags; Picture says what the page is to look like, and
--              Placing, Anchors, RowEnds, Arrange, Members, Layout, Settled relate the two
--   Session    getToken, showToast, showOverlay, hideOverlay, the token's handlers and the answers
--              with status 401 (State); Guard proves
--   Theme      readThemePreference to initTheme (Page) and app/webui/theme-boot.js (Boot);
--              Invariant proves
--   Tabs       activateTab, openTabByName, the tabs' clicks and keys, the start (Bar); Single and
--              Keys prove
--   Languages  syncTestLanguages (Picker); Found and Choice prove
--   TestTab    what moves the language and the cleanup switch of the Pair & test tab: the answers
--              that syncTestLanguages and syncTestCleanup wait for, and the "change" events
--              (Events); Warned, Stale, Supported prove
--   Filters    checkedFilterValues, currentModelFilters, updateFilterChrome and the clear button
--              (Form), syncModelViews and the views' clicks (Views); Count and Chrome prove
--   Dialogs    openDialog, closeDialog and their handlers (Focus); Tracked and Return prove
--   Timers     clearTimeout and setTimeout with a variable that holds the timer
--   Recorder   the click on record-toggle, the MediaRecorder and its interval (Machine),
--              updateRecordingTimer (Clock); Phases and Exclusive relate it to three phases, Limit
--              ends a recording, Orphan and Hasty follow two quick clicks
--   Benchmark  the loop of the onstop handler (Runs) and what it shows at the end (Figures)
--   Poll       formatBytes (Size), the cards of pollModelProgress (Progress), scheduleModelPoll and
--              the timer of pollModelProgress (Timer); Single, Found, Cards, Answers prove
--   Swap       the handlers of htmx's events around a request and a swap (Hooks); Kept proves
--   Exposure   exposureDismissedUntil to dismissExposureBanner (Banner); Dismissed proves
--   Rail       isFilterRailCollapsed, setFilterRailCollapsed and their handlers (Collapse), the
--              search over the languages (Search); Kept proves
--   Copy       the click on copy-pairing-qr (Pairing), the diagnostics and the copies that end in
--              a toast (Messages); Hint proves
--   Setup      initModelFilters, which calls the parts of Filters, Rail and Families after a swap and
--              registers the listeners, and the clicks and changes that they handle (Wiring); Bound,
--              Changes, Once prove
--   Script     the parts that share the session and the list of models, together (Events); Guarded
--              and Whole prove
--   Site       web/script.js, the script of the static site: the menu (Menu), the questions of
--              which one is open at a time (Faq), the clock and the reveal on scrolling (Reveal);
--              Opened proves
--
-- How the code corresponds to the model:
--   - a function that changes the page is a function from a record of the page's part to the next
--     one; an event of the browser is a constructor of the part's `Event`, and `handle` is the
--     handler that the script registers for it. A `run` is any list of events.
--   - a request is an entry in a list of what was asked for. What comes back is an argument (a
--     reply, a status, a health answer), so that every answer is covered, failures too.
--   - an element that may be missing is an `Option`.
--   - htmx 2.0.4 (app/webui/htmx.min.js) names in `detail.target` of "htmx:afterSwap" the element that
--     it was to swap; with `hx-swap` outerHTML that element is no longer in the page (Exposure).
--   - what a handler holds on to over a wait may be out of the page by then: the try-it box (Cleanup.Box)
--     goes by the panel that brought it, and a reply to an earlier panel changes only what is looked up
--     anew.
--   - a handler that awaits is cut there: what it does up to the wait and what it does after it are
--     two functions, and the events that come between are any. Several clicks may wait at once.
--   - a MediaRecorder, its stream and the interval set with it go by one number.
--   - a floating-point number is of a type that is a parameter, with the operations on it that the
--     code uses (Poll.Progress.Ratios, Benchmark.Figures.Numbers); so are Number, toLowerCase,
--     JSON.stringify and toFixed.
--   - a text is the list of its UTF-16 code units. `trim` and `\s` remove the same characters.
--
-- Bounds and fuel:
--   - the walk of commonTokens runs on n + m + 1 rounds for texts of n and m words: each round
--     moves at least one of the two places on, and it ends where one of them is at its end.
--   - tokenize runs on one round more than the text has code units; each match takes at least one.
--   - a cell of the table is kept modulo 2 ^ 32. A text of more than 400 words is not compared,
--     so a cell is at most 400.
--
-- The loop of the benchmark runs on the number of runs that are left, so it ends by itself.
--
-- Where the browser puts the focus as a dialog is shown or closed is a parameter of Dialogs.
--
-- Taken as given: writes to localStorage succeed where it can be read, but for the rail, which
-- catches the error; the keys of CLEANUP_ADVICE are looked up as its own keys; the page has one family
-- grid, a panel for each tile, and the browser puts its tiles into rows of equally many columns; the
-- last row may be shorter. The clock does not run backwards, and the elements of the test tab stay
-- while it records. The number of runs is a natural number.
--
-- Not modelled: the Python server and its templates; htmx and Swagger UI, which are vendored, and the
-- call in app/webui/swagger/docs-init.js that starts the latter, which has no logic of its own; what
-- the browser draws.
pub mod Base
pub mod Timers
pub mod Diff
pub mod Cleanup
pub mod Theme
pub mod TestTab
pub mod Script
pub mod Setup
pub mod Session
pub mod Tabs
pub mod Families
pub mod Languages
pub mod Site
pub mod Poll
pub mod Swap
pub mod Exposure
pub mod Rail
pub mod Copy
pub mod Recorder
pub mod Benchmark
pub mod Filters
pub mod Dialogs
