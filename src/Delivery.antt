-- ===== src/Delivery.antt =====
-- A message on its way, from the button Send to the daemon and back: `send` of
-- client/gui/src/renderer/components/Compose/Write.tsx, the bridge of client/gui/src/main/preload.ts,
-- the method `sendMessage` of client/gui/src/main/daemon.ts, the status line, and `onDone`, which
-- closes the tab that the draft was written in (client/gui/src/renderer/Main.tsx). The promise of
-- `sendMessage` is an entry of a list from the press to the end; the daemon is called when the
-- promise settles, the promises in any order, and in between anything is done in the window.
pub mod Settling
pub mod Sessions
pub mod Failing
pub mod Repeats
pub mod Ending
pub mod Editors
pub mod Mixing
mod Tests
use anysphere_messaging.Common.{
  ℕ, Bool, true, false, List, [], ◌∷◌, ◌++◌, JsString, Option, none, some, get_elem?, remove_at,
}
use anysphere_messaging.Types.{Timestamp}
use anysphere_messaging.Daemon.Schema.{Client, SendMessageRequest}
use anysphere_messaging.Daemon.Calls.{op_send_message, perform, is_resolved}
use anysphere_messaging.Compose.{WriteData, SendResult, send, refused, sent, after_send}
use anysphere_messaging.Tabs.{TabsState, close_tab, selected_actual_tab}
use anysphere_messaging.Status.{StatusState, show}
use anysphere_messaging.Main.{MainState}
use anysphere_messaging.Window.{Component, selected_component, write_view, WindowAction, act}

-- A promise of `sendMessage` with what its callbacks keep of the rendering in which Send was
-- pressed: the draft, the id of the tab, and the id that `closeTab` had for `previousSelectedTab`.
pub record Pending : Type 0 where
  pub draft : WriteData
  pub request : SendMessageRequest
  pub tab_id : JsString
  pub previous : JsString

pub record DeliveryState (W : Type 0) : Type 0 where
  pub main : MainState
  pub status : StatusState
  pub daemon : W
  pub pending : List Pending

-- The `closeTab` of an earlier rendering: the tabs and the selected id are those of now, only
-- `previousSelectedTab` is read from its closure.
unfoldable pub close_tab_since {ℓ} : {D : Type ℓ} → JsString → JsString → TabsState D → TabsState D
unfolding close_tab
close_tab_since previous id s =
    record (close_tab id (record s { previous_selected_tab = previous })) {
      previous_selected_tab = s.previous_selected_tab;
    }

-- The draft that the component is given, if it is Write.
unfoldable pub draft_of : Option Component → Option WriteData
draft_of (some (write_view w)) = some w
draft_of _ = none

-- What comes of `send` for the draft of the tab that is shown, at the time `now`.
unfoldable pub submit :
    {W : Type 0} → SendResult → WriteData → ℕ → DeliveryState W → DeliveryState W
unfolding show
submit (refused message) w now s = record s { status = show now message s.status }
submit (sent names content) w now s =
    let p : Pending = record {
      draft = w;
      request = record { unique_name_list = names; message = content };
      tab_id = (selected_actual_tab s.main.tabs_state).id;
      previous = s.main.tabs_state.previous_selected_tab;
    } in
    record s { pending = s.pending ++ p ∷ [] }

-- `send` in the tab that is shown; `editor` is the markdown of the editor. Where no draft is shown
-- there is no button.
unfoldable pub press_send : {W : Type 0} → Option JsString → ℕ → DeliveryState W → DeliveryState W
unfolding send draft_of submit
press_send editor now s =
    elim (draft_of (selected_component (selected_actual_tab s.main.tabs_state))) [
      | none ↦ s
      | some w ↦ submit (send w editor) w now s
    ]

-- What `then` and `catch` do: the status, and `onDone` if the promise is resolved.
unfoldable pub on_sent : {W : Type 0} → ℕ → Bool → Pending → DeliveryState W → DeliveryState W
unfolding after_send show close_tab_since
on_sent now ok p s =
    let (message, closes) = after_send ok p.draft in
    let main = s.main in
    let closed = close_tab_since p.previous p.tab_id main.tabs_state in
    record s {
      status = show now message s.status;
      main = elim closes [ true ↦ record main { tabs_state = closed } | false ↦ main ];
    }

-- What happens: Send is pressed, the promise at a position settles, or something else is done in
-- the window.
pub data Event : Type 0 where
  presses : Option JsString → ℕ → Event
  settles : ℕ → ℕ → Event
  does : WindowAction → Event

module _ {W : Type 0} (fake : Bool) (started : Timestamp) (hash : JsString)
    (client : Client W) where
  -- The promise at the position `i` settles at the time `now`.
  unfoldable pub settle : ℕ → ℕ → DeliveryState W → DeliveryState W
  unfolding on_sent
  settle i now s = elim (get_elem? s.pending i) [
    | none ↦ s
    | some p ↦
        let (outcome, daemon) =
          perform fake started hash client (op_send_message p.request) s.daemon in
        on_sent now (is_resolved outcome) p
          (record s { daemon = daemon; pending = remove_at i s.pending })
  ]

  -- `none` where the window throws.
  unfoldable pub happen : Event → DeliveryState W → Option (DeliveryState W)
  unfolding press_send settle
  happen (presses editor now) s = some (press_send editor now s)
  happen (settles i now) s = some (settle i now s)
  happen (does a) s = elim (act a s.main) [ none ↦ none | some m ↦ some (record s { main = m }) ]

  unfoldable pub run : List Event → DeliveryState W → Option (DeliveryState W)
  unfolding happen
  run [] s = some s
  run (e ∷ events) s = elim (happen e s) [ none ↦ none | some u ↦ run events u ]
