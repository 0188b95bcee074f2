-- ===== src/Main.antt =====
-- The main window (client/gui/src/renderer/Main.tsx): what it opens in tabs and over them. The
-- calls of the daemon that it makes are kept in the state, the last one first.
pub mod Reading
pub mod Opening
mod Tests
use anysphere_messaging.Common.{
  ℕ, Bool, true, false, not, ◌&&◌, Option, none, some, List, [], ◌∷◌, ◌++◌, JsString, str_eq, text,
  find, ◌==◌, if◌then◌else◌,
}
use anysphere_messaging.Types.{IncomingMessage, OutgoingMessage, IncomingAsyncInvitation}
use anysphere_messaging.Utils.{truncate, random_string, decimal}
use anysphere_messaging.Compose.{WriteData, on_to}
use anysphere_messaging.Tabs.{
  Tab, TabsState, TabType, new, all, read, write, outbox, sent, invitations, push_tab, switch_tab,
  update_tab, selected_actual_tab,
}

pub data Message : Type 0 where
  incoming : IncomingMessage → Message
  outgoing : OutgoingMessage → Message

pub data TabData : Type 0 where
  null : TabData
  message_data : Message → TabData
  write_data : WriteData → TabData

-- `AddFriendScreen`
pub data Screen : Type 0 where
  choice in_person remote remote_part_two incoming_screen : Screen

pub data Modal : Type 0 where
  add_friend : Option Screen → Option IncomingAsyncInvitation → Option JsString → Modal
  register install_cli : Modal

pub record MainState : Type 0 where
  pub tabs_state : TabsState TabData
  pub modal : Option Modal
  pub has_shown_initial_modal : Bool
  pub sidebar_open : Bool
  pub seen_calls : List ℕ

abbrev pub uid : Message → ℕ
uid (incoming m) = m.uid
uid (outgoing m) = m.uid

-- `tab.data.id`: the objects of messages have `uid` and no `id`, so it is undefined there, and so
-- it is on the data of a tab that is written in. A tab of type Read always carries a message.
abbrev pub data_id : TabData → Option ℕ
data_id null = none
data_id (message_data m) = none
data_id (write_data w) = none

-- `tab.data.id === message.uid`, with `none` for undefined.
abbrev id_is : Option ℕ → ℕ → Bool
id_is none n = false
id_is (some i) n = i == n

unfoldable pub type_eq : TabType → TabType → Bool
type_eq new new = true
type_eq all all = true
type_eq read read = true
type_eq write write = true
type_eq outbox outbox = true
type_eq sent sent = true
type_eq invitations invitations = true
type_eq _ _ = false

unfoldable pub title : Message → JsString
title (incoming m) = truncate m.message 10 ++ (text " - " ++ m.from_display_name)
title (outgoing m) = truncate m.message 10 ++ text " - me"

unfoldable pub read_tab : Message → Tab TabData
read_tab m = record {
  type = read;
  name = title m;
  payload = message_data m;
  unclosable = false;
  id = text "read-" ++ decimal (uid m);
}

-- The test of the loop in `readMessage`.
unfoldable pub already_read : Message → Tab TabData → Bool
already_read m tab = type_eq tab.type read && id_is (data_id tab.payload) (uid m)

unfoldable pub read_message : Message → MainState → MainState
read_message m s = elim (find (already_read m) s.tabs_state.tabs) [
  | some tab ↦ record s { tabs_state = switch_tab tab.id s.tabs_state }
  | none ↦ record s {
    tabs_state = push_tab (read_tab m) s.tabs_state;
    seen_calls = uid m ∷ s.seen_calls;
  }
]

unfoldable pub edit_write : WriteData → MainState → MainState
edit_write w s =
    let tab = selected_actual_tab s.tabs_state in
    if not (type_eq tab.type write)
    then s
    else record s { tabs_state = update_tab (record tab { payload = write_data w }) s.tabs_state }

abbrev pub empty_write : WriteData
empty_write = record {
  content = [];
  multi_select_state = record { friends = []; query = [] };
  focus = on_to;
}

unfoldable pub write_tab : (ℕ → ℕ) → Tab TabData
write_tab draw = record {
  type = write;
  name = text "Compose";
  payload = write_data empty_write;
  unclosable = false;
  id = text "write-" ++ random_string draw 10;
}

unfoldable pub write_message : (ℕ → ℕ) → MainState → MainState
write_message draw s = record s { tabs_state = push_tab (write_tab draw) s.tabs_state }

abbrev pub outbox_tab : Tab TabData
outbox_tab = record {
  type = outbox;
  name = text "Outbox";
  payload = null;
  unclosable = false;
  id = text "outbox";
}

abbrev pub sent_tab : Tab TabData
sent_tab = record {
  type = sent;
  name = text "Sent";
  payload = null;
  unclosable = false;
  id = text "sent";
}

abbrev pub invitations_tab : Tab TabData
invitations_tab = record {
  type = invitations;
  name = text "Invitations";
  payload = null;
  unclosable = false;
  id = text "invitations";
}

-- The loop over the tabs that `openOutbox`, `openSent` and the sidebar share: switch to the first
-- tab that passes the test, or push the given one.
unfoldable pub open_or_push :
    (Tab TabData → Bool) → Tab TabData → TabsState TabData → TabsState TabData
open_or_push test tab s = elim (find test s.tabs) [
  | some t ↦ switch_tab t.id s
  | none ↦ push_tab tab s
]

unfoldable pub open_outbox : MainState → MainState
open_outbox s = record s {
  tabs_state = open_or_push (λ t. type_eq t.type outbox) outbox_tab s.tabs_state;
}

unfoldable pub open_sent : MainState → MainState
open_sent s = record s {
  tabs_state = open_or_push (λ t. type_eq t.type sent) sent_tab s.tabs_state;
}

unfoldable pub open_friend_modal : MainState → MainState
open_friend_modal s = record s { modal = some (add_friend none none none) }

-- `handleIncomingInvitation`, which the tab of invitations calls.
unfoldable pub handle_incoming_invitation : IncomingAsyncInvitation → MainState → MainState
handle_incoming_invitation inv s = record s {
  modal = some (add_friend (some incoming_screen) (some inv) none);
}

unfoldable pub close_modal : MainState → MainState
close_modal s = record s { modal = none }

-- The effect of the first rendering; `initial` is the public id that the window was opened with,
-- where it was opened to add a friend.
unfoldable pub show_initial_modal : Option JsString → MainState → MainState
show_initial_modal initial s = if s.has_shown_initial_modal then s else elim initial [
  | none ↦ record s { has_shown_initial_modal = true }
  | some public_id ↦ record s {
    modal = some (add_friend (some remote_part_two) none (some public_id));
    has_shown_initial_modal = true;
  }
]

pub data SideBarButton : Type 0 where
  inbox_button outbox_button sent_button add_friend_button invitations_button : SideBarButton

unfoldable pub on_button : SideBarButton → MainState → MainState
on_button inbox_button s = record s { tabs_state = switch_tab (text "all") s.tabs_state }
on_button outbox_button s = open_outbox s
on_button sent_button s = open_sent s
on_button add_friend_button s = open_friend_modal s
on_button invitations_button s = record s {
  tabs_state =
      open_or_push (λ t. type_eq t.type invitations && str_eq t.id (text "invitations"))
        invitations_tab s.tabs_state;
}

unfoldable pub side_bar_callback : SideBarButton → MainState → MainState
unfolding on_button
side_bar_callback b s = on_button b (record s { sidebar_open = false })

-- What `hasRegistered` answers.
pub data Registered : Type 0 where
  registered unregistered failed : Registered

unfoldable pub on_registered : Registered → MainState → MainState
on_registered registered s = s
on_registered unregistered s = record s { modal = some register }
on_registered failed s = record s { modal = some register }

-- When the promise of `registerUser` settles: the new state and the status that is shown.
unfoldable pub on_register : Bool → MainState → MainState × JsString
on_register ok s =
    if ok
    then (close_modal s, text "Registered!")
    else (s, text "Unable to register. Perhaps incorrect access key?")
