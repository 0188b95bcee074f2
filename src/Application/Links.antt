-- ===== src/Application/Links.antt =====
-- A link that starts the application, and one that is opened while it runs.
use anysphere_messaging.Common.{◌≡◌, arith, true, false, [], ◌∷◌, JsString, none, some}
use anysphere_messaging.Daemon.Paths.{log_path}
use anysphere_messaging.Startup.{darwin}
use anysphere_messaging.Links.{load_url, create_window, last_segment, on_open_url}
use anysphere_messaging.Application.{
  Machine, launched, becomes_ready, opens_url, closes, activates, step, handle, run, on_ready,
  on_url, open_window, close_window, after_closing, on_all_closed, on_activated, ready, App,
}

-- On macOS, where Electron refuses a window before the application is ready and makes one
-- afterwards, and the path of the logs is known: a link that comes before `whenReady` is settled,
-- as when it starts the application, is lost, and the window shows no contact to add. The same link
-- after it is shown.
pub opens_url-becomes_ready :
    (m : Machine) (url path : JsString)
    → m.platform ≡ darwin
    → m.makes_window false ≡ false
    → m.makes_window true ≡ true
    → log_path m.path_join m.env ≡ some path
    → ((run m (opens_url url ∷ becomes_ready ∷ []) launched).windows ≡ load_url m.pages none ∷ [])
      × ((run m (becomes_ready ∷ opens_url url ∷ []) launched).windows
          ≡ load_url m.pages (some (last_segment url)) ∷ [])
unfolding run step handle on_ready on_url open_window create_window on_open_url load_url
opens_url-becomes_ready m url path mac early late logs = (ground arith, ground arith)

-- On macOS the application outlives its last window: when that is closed, the notifications go on,
-- and a click on the dock gives one window, which shows no contact to add.
pub closes-activates :
    (m : Machine) (w : JsString) (s : App)
    → m.platform ≡ darwin
    → m.makes_window true ≡ true
    → s.phase ≡ ready
    → s.windows ≡ w ∷ []
    → run m (closes 0 ∷ activates ∷ []) s ≡ record s { windows = load_url m.pages none ∷ [] }
unfolding run step handle close_window after_closing on_all_closed on_activated open_window
    create_window
closes-activates m w s mac late e full = ground arith
