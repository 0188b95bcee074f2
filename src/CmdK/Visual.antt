-- ===== src/CmdK/Visual.antt =====
-- Opening and closing the palette: `toggle` and the setters of UseStore.tsx, and the keys and the
-- timer of `useToggleHandler` in InternalEvents.tsx. An effect that depends on the visual state
-- runs after each change of it.
use anysphere_messaging.Common.{
  Bool, true, false, not, ◌&&◌, Option, none, some, List, [], ◌∷◌, JsString, ℕ, if◌then◌else◌,
}

pub data VisualState : Type 0 where
  animating_in showing animating_out hidden : VisualState

pub data Callback : Type 0 where
  on_open on_close : Callback

pub record KBarState : Type 0 where
  pub search_query : JsString
  pub visual_state : VisualState
  pub current_root_action_id : Option JsString
  pub active_index : ℕ
  -- The animation whose end the pending `setTimeout` waits for.
  pub timer : Option VisualState
  -- The calls of `options.callbacks`, the last one first.
  pub callbacks : List Callback

abbrev pub initial : KBarState
initial = record {
  search_query = [];
  visual_state = hidden;
  current_root_action_id = none;
  active_index = 0;
  timer = none;
  callbacks = [];
}

-- `toggle` of the query, on the visual state.
unfoldable pub toggled : VisualState → VisualState
toggled animating_out = animating_in
toggled hidden = animating_in
toggled animating_in = animating_out
toggled showing = animating_out

-- The updater that Escape passes to `setVisualState`.
unfoldable pub escaped : VisualState → VisualState
escaped hidden = hidden
escaped animating_out = animating_out
escaped animating_in = animating_out
escaped showing = animating_out

unfoldable pub same_state : VisualState → VisualState → Bool
same_state animating_in animating_in = true
same_state showing showing = true
same_state animating_out animating_out = true
same_state hidden hidden = true
same_state _ _ = false

-- The effect that runs when the visual state has changed: `runAnimateTimer` clears the pending
-- timer and starts a new one, in the two animations only.
unfoldable pub after_change : VisualState → Option VisualState → Option VisualState
after_change animating_in timer = some animating_in
after_change animating_out timer = some animating_out
after_change showing timer = timer
after_change hidden timer = timer

-- `setVisualState`, with the effect.
unfoldable pub set_visual_state : VisualState → KBarState → KBarState
unfolding same_state after_change
set_visual_state vs s = record s {
  visual_state = vs;
  timer = if same_state vs s.visual_state then s.timer else after_change vs s.timer;
}

abbrev pub is_showing : VisualState → Bool
is_showing hidden = false
is_showing _ = true

-- The mod key with "k", unless another handler has prevented it: `toggle`, and the callback by
-- what was on the screen.
unfoldable pub press_toggle : Bool → KBarState → KBarState
press_toggle default_prevented s =
    if default_prevented then s else record (set_visual_state (toggled s.visual_state) s) {
      callbacks = (if is_showing s.visual_state then on_close else on_open) ∷ s.callbacks;
    }

unfoldable pub press_escape : KBarState → KBarState
press_escape s = record (set_visual_state (escaped s.visual_state) s) {
  callbacks = if is_showing s.visual_state then on_close ∷ s.callbacks else s.callbacks;
}

abbrev pub final_state : VisualState → VisualState
final_state animating_in = showing
final_state _ = hidden

-- The timer fires. React runs an updater at once only if no update is queued (`eager`): only then
-- does the handler see `backToRoot` and reset the root action.
unfoldable pub fire : Bool → KBarState → KBarState
fire eager s = elim s.timer [
  | none ↦ s
  | some vs ↦
      let t = set_visual_state (final_state vs) (record s { timer = none }) in
      if eager && not (is_showing (final_state vs))
      then record t { current_root_action_id = none }
      else t
]

-- `toggle` without the keys, as a shortcut and a chosen result call it.
unfoldable pub toggle : KBarState → KBarState
toggle s = set_visual_state (toggled s.visual_state) s

pub data Event : Type 0 where
  mod_k : Bool → Event
  escape toggle_call : Event
  timeout : Bool → Event

unfoldable pub step : Event → KBarState → KBarState
step (mod_k prevented) s = press_toggle prevented s
step escape s = press_escape s
step toggle_call s = toggle s
step (timeout eager) s = fire eager s
