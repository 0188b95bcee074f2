-- ===== src/Application/Lifetime.antt =====
-- How long the application lives, and what it shows.
use anysphere_messaging.Common.{
  ℕ, ◌≡◌, ◌≢◌, ◌⊎◌, inl, inr, refl, arith, true, false, List, [], ◌∷◌, JsString, Option, none, some,
  All, All-append, All-remove_at, remove_at, Bool-cases, List-cases, ◌++◌,
}
use anysphere_messaging.Startup.{Ending, finished, exited, threw}
use anysphere_messaging.Links.{load_url, create_window, on_open_url, last_segment}
use anysphere_messaging.Application.{
  Machine, ready, stuck, quitted, Stream, unregistered, streaming, cancelled, App, launched,
  AppEvent, becomes_ready, activates, quits, closes, opens_url, navigates, daemon_started,
  is_darwin, is_ready, cancel, quit, exit, open_window, on_ready, on_all_closed, after_closing,
  close_window, on_activated, on_url, on_navigate, on_daemon_started, handle, step, run,
}

module _ (m : Machine) where
  -- The address of the page of the application, with or without an id.
  abbrev pub IsOwnPage : JsString → Type 0
  IsOwnPage w = (id : Option JsString) × (w ≡ load_url m.pages id)

  pub record IsSound (s : App) : Type 0 where
    pub own : All IsOwnPage s.windows
    pub notified : s.phase ≡ ready → s.stream ≡ streaming
    pub silent : s.phase ≡ quitted → s.stream ≢ streaming
    pub shown : s.phase ≡ ready → is_darwin m.platform ≡ false → s.windows ≢ []
    pub closed : s.phase ≡ quitted → s.windows ≡ []

  launched-IsSound : IsSound launched
  launched-IsSound = record {
    own = tt;
    notified = λ e. cc;
    silent = λ e. cc;
    shown = λ e. cc;
    closed = λ e. refl;
  }

  cancel-ne-streaming : (t : Stream) → cancel t ≢ streaming
  unfolding cancel
  cancel-ne-streaming unregistered e = cc
  cancel-ne-streaming streaming e = cc
  cancel-ne-streaming cancelled e = cc

  quit-IsSound : (s : App) → IsSound (quit s)
  unfolding quit
  quit-IsSound s = record {
    own = tt;
    notified = λ e. cc;
    silent = λ e. cancel-ne-streaming s.stream;
    shown = λ e. cc;
    closed = λ e. refl;
  }

  exit-IsSound : (s : App) → IsSound (exit s)
  unfolding exit
  exit-IsSound s = record {
    own = tt;
    notified = λ e. cc;
    silent = λ e. cc;
    shown = λ e. cc;
    closed = λ e. cc;
  }

  on_daemon_started-IsSound : (e : Ending) (s : App) → IsSound s → IsSound (on_daemon_started m e s)
  unfolding on_daemon_started
  on_daemon_started-IsSound finished s h = h
  on_daemon_started-IsSound exited s h = exit-IsSound s
  on_daemon_started-IsSound threw s h = h

  open_window-own :
      (id : Option JsString) (s : App)
      → All IsOwnPage s.windows
      → All IsOwnPage (open_window m id s).windows
  unfolding open_window create_window
  open_window-own id s h = elim (Bool-cases (m.makes_window (is_ready s.phase))) [
    | inl makes ↦
        rw (makes, open_window)
          (All-append IsOwnPage s.windows (load_url m.pages id ∷ []) h ((id, refl), tt))
    | inr fails ↦ rw (fails, open_window) h
  ]

-- The three ways in which the callback of `whenReady` ends.
on_ready-cases :
    (m : Machine) (s : App)
    → (on_ready m s ≡ exit s)
      ⊎ ((on_ready m s ≡ record s { phase = stuck })
          ⊎ (on_ready m s
              ≡ record (open_window m none (record s { phase = ready })) { stream = streaming }))
unfolding on_ready
on_ready-cases m s = ground arith

handle_ready-cases :
    (m : Machine) (s : App)
    → (handle m becomes_ready s ≡ s) ⊎ (handle m becomes_ready s ≡ on_ready m s)
unfolding handle
handle_ready-cases m s = ground arith

step-cases :
    (m : Machine) (e : AppEvent) (s : App)
    → (step m e s ≡ s) ⊎ ((step m e s ≡ handle m e s) × (s.phase ≢ quitted))
unfolding step
step-cases m e s = ground arith

module _ (m : Machine) (made : m.makes_window true ≡ true) where
  snoc-ne-nil : (ws : List JsString) (w : JsString) → ws ++ w ∷ [] ≢ []
  snoc-ne-nil [] w e = cc
  snoc-ne-nil (v ∷ ws) w e = cc

  open_window-phase : (id : Option JsString) (s : App) → (open_window m id s).phase ≡ s.phase
  unfolding open_window
  open_window-phase id s = ground arith

  open_window-stream : (id : Option JsString) (s : App) → (open_window m id s).stream ≡ s.stream
  unfolding open_window
  open_window-stream id s = ground arith

  open_window-shown :
      (id : Option JsString) (s : App) → s.phase ≡ ready → (open_window m id s).windows ≢ []
  unfolding open_window create_window
  open_window-shown id s e q = ground (arith, made, snoc-ne-nil s.windows (load_url m.pages id))

  open_window-IsSound :
      (id : Option JsString) (s : App)
      → s.phase ≢ quitted
      → IsSound m s
      → IsSound m (open_window m id s)
  open_window-IsSound id s alive h =
      let phase = open_window-phase id s in
      let stream = open_window-stream id s in
      record {
        own = open_window-own m id s h.own;
        notified = λ e. rw stream (h.notified (rw phase at e));
        silent = λ e. absurd (alive (rw phase at e));
        shown = λ e _. open_window-shown id s (rw phase at e);
        closed = λ e. absurd (alive (rw phase at e));
      }

  on_all_closed-IsSound :
      (s : App)
      → s.phase ≢ quitted
      → IsSound m s
      → IsSound m (on_all_closed m (record s { windows = [] }))
  unfolding on_all_closed
  on_all_closed-IsSound s alive h = elim (Bool-cases (is_darwin m.platform)) [
    | inl mac ↦
        rw (mac, on_all_closed)
          (record {
            own = tt;
            notified = h.notified;
            silent = h.silent;
            shown = λ e other. cc;
            closed = λ e. refl;
          })
    | inr not_mac ↦ rw (not_mac, on_all_closed) (quit-IsSound m (record s { windows = [] }))
  ]

  relabelled-IsSound :
      (w : JsString) (ws : List JsString) (s : App)
      → s.phase ≢ quitted
      → All (IsOwnPage m) (w ∷ ws)
      → IsSound m s
      → IsSound m (record s { windows = w ∷ ws })
  relabelled-IsSound w ws s alive own h = record {
    own = own;
    notified = h.notified;
    silent = h.silent;
    shown = λ e other q. cc;
    closed = λ e. absurd (alive e);
  }

  after_closing-IsSound :
      (ws : List JsString) (s : App)
      → s.phase ≢ quitted
      → All (IsOwnPage m) ws
      → IsSound m s
      → IsSound m (after_closing m ws s)
  unfolding after_closing
  after_closing-IsSound [] s alive own h = on_all_closed-IsSound s alive h
  after_closing-IsSound (w ∷ ws) s alive own h = relabelled-IsSound w ws s alive own h

  close_window-IsSound :
      (i : ℕ) (s : App) → s.phase ≢ quitted → IsSound m s → IsSound m (close_window m i s)
  unfolding close_window
  close_window-IsSound i s alive h = elim (List-cases s.windows) [
    | inl empty ↦ let same : close_window m i s ≡ s = ground arith in rw same h
    | inr (w, ws, full) ↦
        let same : close_window m i s ≡ after_closing m (remove_at i (w ∷ ws)) s = ground arith in
        rw same (
          after_closing-IsSound (remove_at i (w ∷ ws)) s alive
            (All-remove_at (IsOwnPage m) i (w ∷ ws) (rw full at h.own)) h)
  ]

  on_url-IsSound :
      (url : JsString) (s : App) → s.phase ≢ quitted → IsSound m s → IsSound m (on_url m url s)
  unfolding on_url on_open_url load_url
  on_url-IsSound url s alive h = elim (List-cases s.windows) [
    | inl empty ↦
        let id = last_segment url in
        let same : on_url m url s ≡ open_window m (some id) s = ground arith in
        rw same (open_window-IsSound (some id) s alive h)
    | inr (w, ws, full) ↦
        let id = last_segment url in
        let first = load_url m.pages (some id) in
        let same : on_url m url s ≡ record s { windows = first ∷ ws } = ground arith in
        let (_, rest) = (rw full at h.own) in
        rw same (relabelled-IsSound first ws s alive ((some id, refl), rest) h)
  ]

  on_activated-cases :
      (s : App) → (on_activated m s ≡ s) ⊎ (on_activated m s ≡ open_window m none s)
  unfolding on_activated
  on_activated-cases s = ground arith

  on_activated-IsSound : (s : App) → s.phase ≢ quitted → IsSound m s → IsSound m (on_activated m s)
  on_activated-IsSound s alive h = elim (on_activated-cases s) [
    | inl same ↦ rw same h
    | inr opened ↦ rw opened (open_window-IsSound none s alive h)
  ]

  on_navigate-IsSound : (url : JsString) (s : App) → IsSound m s → IsSound m (on_navigate m url s)
  unfolding on_navigate
  on_navigate-IsSound url s h = elim (List-cases s.windows) [
    | inl empty ↦ let same : on_navigate m url s ≡ s = ground arith in rw same h
    | inr (w, ws, full) ↦
        let same : on_navigate m url s ≡ record s { opened_outside = url ∷ s.opened_outside } =
          ground arith in
        rw same (record {
          own = h.own;
          notified = h.notified;
          silent = h.silent;
          shown = h.shown;
          closed = h.closed;
        })
  ]

  started-IsSound :
      (s : App)
      → IsSound m s
      → IsSound m (record (open_window m none (record s { phase = ready })) { stream = streaming })
  started-IsSound s h =
      let started = record s { phase = ready } in
      let phase = open_window-phase none started in
      record {
        own = open_window-own m none started h.own;
        notified = λ e. refl;
        silent = λ e. absurd (ground (arith, phase));
        shown = λ e _. open_window-shown none started refl;
        closed = λ e. absurd (ground (arith, phase));
      }

  stuck-IsSound : (s : App) → IsSound m s → IsSound m (record s { phase = stuck })
  stuck-IsSound s h = record {
    own = h.own;
    notified = λ e. cc;
    silent = λ e. cc;
    shown = λ e. cc;
    closed = λ e. cc;
  }

  on_ready-IsSound : (s : App) → IsSound m s → IsSound m (on_ready m s)
  on_ready-IsSound s h = elim (on_ready-cases m s) [
    | inl gone_ ↦ rw gone_ (exit-IsSound m s)
    | inr (inl fails) ↦ rw fails (stuck-IsSound s h)
    | inr (inr goes) ↦ rw goes (started-IsSound s h)
  ]

  handle-IsSound :
      (e : AppEvent) (s : App) → s.phase ≢ quitted → IsSound m s → IsSound m (handle m e s)
  unfolding handle
  handle-IsSound becomes_ready s alive h = elim (handle_ready-cases m s) [
    | inl same ↦ rw same h
    | inr runs ↦ rw runs (on_ready-IsSound s h)
  ]
  handle-IsSound activates s alive h = on_activated-IsSound s alive h
  handle-IsSound quits s alive h = quit-IsSound m s
  handle-IsSound (closes i) s alive h = close_window-IsSound i s alive h
  handle-IsSound (opens_url url) s alive h = on_url-IsSound url s alive h
  handle-IsSound (navigates url) s alive h = on_navigate-IsSound url s h
  handle-IsSound (daemon_started e) s alive h = on_daemon_started-IsSound m e s h

  step-IsSound : (e : AppEvent) (s : App) → IsSound m s → IsSound m (step m e s)
  step-IsSound e s h = elim (step-cases m e s) [
    | inl same ↦ rw same h
    | inr (runs, alive) ↦ rw runs (handle-IsSound e s alive h)
  ]

  run-IsSound : (events : List AppEvent) (s : App) → IsSound m s → IsSound m (run m events s)
  unfolding run
  run-IsSound [] s h = h
  run-IsSound (e ∷ events) s h = run-IsSound events (step m e s) (step-IsSound e s h)

  -- Outside development, where a window can be made once the application is ready: after any events
  -- from the start, every window shows the page of the application itself, with or without an id,
  -- wherever its page navigates; the stream of notifications is read while the application is ready
  -- and not after it has quit; off macOS the application has a window for as long as it is ready;
  -- and no window is left when it has quit.
  pub run-launched-IsSound : (events : List AppEvent) → IsSound m (run m events launched)
  run-launched-IsSound events = run-IsSound events launched (launched-IsSound m)
