-- ===== src/Application.antt =====
-- The application from its start to its end: the events of Electron that client/gui/src/main/main.ts
-- handles, outside development, where `createWindow` does not wait for anything. A window is the
-- address that it has loaded. Whether `new BrowserWindow` succeeds is a parameter, by whether the
-- application is ready, and so is what `readdirSync` reads.
pub mod Lifetime
pub mod Policy
pub mod Links
mod Tests
use anysphere_messaging.Common.{
  ℕ, Bool, true, false, JsString, text, str_eq, Option, none, some, List, [], ◌∷◌, all, remove_at,
  if◌then◌else◌,
}
use anysphere_messaging.Daemon.Paths.{Env, log_path}
use anysphere_messaging.Startup.{Platform, darwin, linux, other, Ending, finished, exited, threw}
use anysphere_messaging.Links.{Platform as Pages, last_segment, create_window, on_open_url}

-- What the application stands on.
pub record Machine : Type 0 where
  pub pages : Pages
  pub makes_window : Bool → Bool
  pub path_join : List JsString → JsString
  -- `none` where `readdirSync` throws.
  pub read_dir : JsString → Option (List JsString)
  pub platform : Platform
  pub env : Env
  pub appdir : Option JsString

-- Before `whenReady` is settled, after its callback has ended or has thrown, and after the end.
pub data Phase : Type 0 where
  starting ready stuck quitted gone : Phase

-- The stream that `registerForNotifications` reads.
pub data Stream : Type 0 where
  unregistered streaming cancelled : Stream

pub record App : Type 0 where
  pub phase : Phase
  pub windows : List JsString
  pub stream : Stream
  -- What `openExternal` was given, the last one first.
  pub opened_outside : List JsString

abbrev pub launched : App
launched = record { phase = starting; windows = []; stream = unregistered; opened_outside = [] }

pub data AppEvent : Type 0 where
  becomes_ready activates quits : AppEvent
  -- The window at a position is closed.
  closes : ℕ → AppEvent
  opens_url navigates : JsString → AppEvent
  -- `startDaemonIfNeeded` ends.
  daemon_started : Ending → AppEvent

abbrev is_darwin : Platform → Bool
is_darwin darwin = true
is_darwin linux = false
is_darwin other = false

abbrev is_linux : Platform → Bool
is_linux darwin = false
is_linux linux = true
is_linux other = false

-- Whether the application is ready for windows.
abbrev pub is_ready : Phase → Bool
is_ready starting = false
is_ready ready = true
is_ready stuck = true
is_ready quitted = true
is_ready gone = true

-- Whether `readdirSync` reads this directory.
abbrev is_read : Option (List JsString) → Bool
is_read none = false
is_read (some files) = true

-- `app.quit()`: the windows are closed, and `will-quit` cancels the stream if it is registered.
unfoldable pub cancel : Stream → Stream
cancel unregistered = unregistered
cancel streaming = cancelled
cancel cancelled = cancelled

unfoldable pub quit : App → App
unfolding cancel
quit s = record s { phase = quitted; windows = []; stream = cancel s.stream }

-- `exit(1)`: nothing is told to the handlers.
unfoldable pub exit : App → App
exit s = record s { phase = gone; windows = [] }

module _ (m : Machine) where
  -- The listing of the directory of the AppImage, up to the first `readdirSync` that throws.
  unfoldable pub lists_resources : JsString → List JsString → Bool
  unfolding text
  lists_resources appdir resources =
      all
        (λ resource.
          if str_eq resource (text "x64")
          then is_read (m.read_dir (m.path_join (appdir ∷ text "resources" ∷ resource ∷ [])))
          else true)
        resources

  unfoldable pub lists_files : JsString → List JsString → Bool
  unfolding lists_resources text
  lists_files appdir files =
      all
        (λ file.
          if str_eq file (text "resources")
          then elim (m.read_dir (m.path_join (appdir ∷ file ∷ []))) [
            | none ↦ false
            | some resources ↦ lists_resources appdir resources
          ]
          else true)
        files

  unfoldable pub lists_appdir : Option JsString → Bool
  unfolding lists_files
  lists_appdir none = true
  lists_appdir (some appdir) = elim (m.read_dir appdir) [
    | none ↦ false
    | some files ↦ lists_files appdir files
  ]

  -- `createWindow`: where the window cannot be made, the promise is rejected and nothing is left.
  unfoldable pub open_window : Option JsString → App → App
  unfolding create_window
  open_window public_id s =
      if m.makes_window (is_ready s.phase)
      then record s { windows = create_window m.pages public_id s.windows }
      else s

  -- The callback of `whenReady`.
  unfoldable pub on_ready : App → App
  unfolding lists_appdir log_path open_window exit
  on_ready s = elim (log_path m.path_join m.env) [
    | none ↦ exit s
    | some path ↦
        let started = record s { phase = ready } in
        if is_linux m.platform
        then (if lists_appdir m.appdir
            then record (open_window none started) { stream = streaming }
            else record s { phase = stuck })
        else record (open_window none started) { stream = streaming }
  ]

  -- `window-all-closed`
  unfoldable pub on_all_closed : App → App
  unfolding quit
  on_all_closed s = if is_darwin m.platform then s else quit s

  unfoldable pub after_closing : List JsString → App → App
  unfolding on_all_closed
  after_closing [] s = on_all_closed (record s { windows = [] })
  after_closing (w ∷ windows) s = record s { windows = w ∷ windows }

  -- A window is closed where there is one.
  unfoldable pub close_window : ℕ → App → App
  unfolding after_closing
  close_window i s = elim s.windows [
    | [] ↦ s
    | w ∷ windows ↦ after_closing (remove_at i (w ∷ windows)) s
  ]

  -- `activate` is handled after the callback of `whenReady` only.
  unfoldable pub on_activated : App → App
  unfolding open_window
  on_activated s = elim s.phase [
    | ready ↦ elim s.windows [ [] ↦ open_window none s | w ∷ windows ↦ s ]
    | _ ↦ s
  ]

  unfoldable pub on_url : JsString → App → App
  unfolding open_window on_open_url last_segment
  on_url url s = elim s.windows [
    | [] ↦ open_window (some (last_segment url)) s
    | w ∷ windows ↦ record s { windows = on_open_url m.pages url (w ∷ windows) }
  ]

  -- `will-navigate` of a window.
  unfoldable pub on_navigate : JsString → App → App
  on_navigate url s = elim s.windows [
    | [] ↦ s
    | w ∷ windows ↦ record s { opened_outside = url ∷ s.opened_outside }
  ]

  unfoldable pub on_daemon_started : Ending → App → App
  unfolding exit
  on_daemon_started finished s = s
  on_daemon_started exited s = exit s
  on_daemon_started threw s = s

  unfoldable pub handle : AppEvent → App → App
  unfolding on_ready close_window on_activated on_url on_navigate quit on_daemon_started
  handle becomes_ready s = elim s.phase [ starting ↦ on_ready s | _ ↦ s ]
  handle activates s = on_activated s
  handle quits s = quit s
  handle (closes i) s = close_window i s
  handle (opens_url url) s = on_url url s
  handle (navigates url) s = on_navigate url s
  handle (daemon_started e) s = on_daemon_started e s

  -- After the end nothing is handled.
  unfoldable pub step : AppEvent → App → App
  unfolding handle
  step e s = elim s.phase [ quitted ↦ s | gone ↦ s | _ ↦ handle e s ]

  unfoldable pub run : List AppEvent → App → App
  unfolding step
  run [] s = s
  run (e ∷ events) s = run events (step e s)
