-- ===== src/Window.antt =====
-- The whole main window: how client/gui/src/renderer/Main.tsx puts its parts together. It starts
-- with two tabs, draws the selected tab by its type, and gives the palette a table of actions. The
-- palette keeps the actions of the first rendering (`useMemo` without dependencies in
-- client/gui/src/renderer/components/cmd-k/UseStore.tsx), so their closures read the state of that
-- rendering: the first tabs, and a closed sidebar.
pub mod Drawn
pub mod Drawing
pub mod Performing
pub mod Palette
pub mod Escape
pub mod SideBar
pub mod Drafts
mod Tests
use anysphere_messaging.Common.{
  ℕ, Bool, true, false, not, Option, none, some, List, [], ◌∷◌, JsString, String, str_eq, text,
  length, get_elem?, if◌then◌else◌,
}
use anysphere_messaging.Compose.{WriteData}
use anysphere_messaging.Tabs.{
  Tab, TabsState, new, all, read, write, outbox, sent, invitations, close_tab, find_index,
  next_position, selected_actual_tab, KeyEvent, handle_key, switch_tab,
}
use anysphere_messaging.CmdK.{Action}
use anysphere_messaging.CmdK.Visual.{KBarState, press_escape, is_showing}
use anysphere_messaging.CmdK.Shortcuts.{Effect, opened_at, performed}
use anysphere_messaging.Main.{
  Message, TabData, null, message_data, write_data, Modal, add_friend, register, install_cli,
  MainState, read_message, edit_write, write_message, SideBarButton, side_bar_callback,
  open_friend_modal, close_modal,
}

abbrev pub new_tab : Tab TabData
new_tab = record {
  type = new;
  name = text "New";
  payload = null;
  unclosable = true;
  id = text "new";
}

abbrev pub all_tab : Tab TabData
all_tab = record {
  type = all;
  name = text "All";
  payload = null;
  unclosable = true;
  id = text "all";
}

abbrev pub default_tabs : List (Tab TabData)
default_tabs = new_tab ∷ all_tab ∷ []

-- The state of the first rendering.
abbrev pub opened : MainState
opened = record {
  tabs_state = record {
    default_tab = new_tab;
    tabs = default_tabs;
    previous_selected_tab = text "new";
    selected_tab = text "new";
  };
  modal = none;
  has_shown_initial_modal = false;
  sidebar_open = false;
  seen_calls = [];
}

-- The component for the selected tab, with what it is given of the tab's data.
pub data Component : Type 0 where
  new_messages all_messages outbox_messages sent_messages invitation_lists : Component
  read_view : Message → Component
  write_view : WriteData → Component

-- The `switch` on the type of the selected tab. The casts of `selectedTab.data` are not checked in
-- the source: `none` says that the data is not of the kind that the component takes.
unfoldable pub selected_component : Tab TabData → Option Component
selected_component tab = elim tab.type [
  | new ↦ some new_messages
  | all ↦ some all_messages
  | outbox ↦ some outbox_messages
  | sent ↦ some sent_messages
  | read ↦ elim tab.payload [
    | null ↦ none
    | message_data m ↦ some (read_view m)
    | write_data w ↦ none
  ]
  | write ↦ elim tab.payload [
    | null ↦ none
    | message_data m ↦ none
    | write_data w ↦ some (write_view w)
  ]
  | invitations ↦ some invitation_lists
]

-- What is done in the window: by the tab bar, by the components and by the sidebar.
pub data WindowAction : Type 0 where
  open_message : Message → WindowAction
  edit : WriteData → WindowAction
  compose : (ℕ → ℕ) → WindowAction
  press_button : SideBarButton → WindowAction
  select_tab close_by_button : JsString → WindowAction
  press_key : KeyEvent → WindowAction
  close_shown : WindowAction

-- `none` where `nextTab` or `previousTab` throws.
unfoldable pub act : WindowAction → MainState → Option MainState
act (open_message m) s = some (read_message m s)
act (edit w) s = some (edit_write w s)
act (compose draw) s = some (write_message draw s)
act (press_button b) s = some (side_bar_callback b s)
act (select_tab id) s = some (record s { tabs_state = switch_tab id s.tabs_state })
act (close_by_button id) s = some (record s { tabs_state = close_tab id s.tabs_state })
act (press_key e) s = elim (handle_key e s.tabs_state) [
  | none ↦ none
  | some t ↦ some (record s { tabs_state = t })
]
-- `closeTab(selectedTab.id)`: `onClose` of Read and Write, and `onDone` of Write.
act close_shown s =
    some (record s { tabs_state = close_tab (selected_actual_tab s.tabs_state).id s.tabs_state })

-- The palette's table.
palette_action : String → String → Option (List JsString) → Bool → Action
unfolding text
palette_action id name shortcut has_command = record {
  id = text id;
  name = text name;
  shortcut = shortcut;
  section = [];
  parent = none;
  has_children = false;
  has_command = has_command;
}

unfoldable pub cmd_k_actions : List Action
unfolding palette_action text
cmd_k_actions =
    palette_action "friend" "Add and Manage Friends" (some (text "f" ∷ [])) true
    ∷ palette_action "write" "Compose" (some (text "c" ∷ [])) true
    ∷ palette_action "search" "Search" (some (text "/" ∷ [])) false
    ∷ palette_action "next_tab" "Next Tab" (some (text "g" ∷ text "t" ∷ [])) true
    ∷ palette_action "sidebar" "Toggle Sidebar" (some (text "m" ∷ [])) true
    ∷ palette_action "help" "Help" (some (text "h" ∷ [])) false
    ∷ palette_action "install-cli" "Install 'anysphere' command" none true
    ∷ []

-- `nextTab` with the tabs of the first rendering in its closure; the selected tab is the present
-- one, which the updater is given.
unfoldable pub stale_next_tab : List (Tab TabData) → TabsState TabData → Option (TabsState TabData)
stale_next_tab captured s =
    elim (get_elem? captured
      (next_position (find_index (λ t. str_eq t.id s.selected_tab) captured) (length captured))) [
        | none ↦ none
        | some t ↦ some (record s { previous_selected_tab = s.selected_tab; selected_tab = t.id })
      ]

-- The `perform` of an action, by its id; an action without one does nothing.
unfoldable pub perform : (ℕ → ℕ) → JsString → MainState → Option MainState
unfolding stale_next_tab text
perform draw id s =
    if str_eq id (text "friend")
    then some (open_friend_modal s)
    else if str_eq id (text "write")
    then some (write_message draw s)
    else if str_eq id (text "next_tab")
    then elim (stale_next_tab opened.tabs_state.tabs s.tabs_state) [
      | none ↦ none
      | some t ↦ some (record s { tabs_state = t })
    ]
    else if str_eq id (text "sidebar")
    then some (record s { sidebar_open = not opened.sidebar_open })
    else if str_eq id (text "install-cli")
    then some (record s { modal = some install_cli })
    else some s

-- What a shortcut of the palette does to the window: none of the actions has children.
unfoldable pub run_effect : (ℕ → ℕ) → Effect → MainState → Option MainState
unfolding perform
run_effect draw (performed a) s = perform draw a.id s
run_effect draw (opened_at a) s = some s

pub record WindowState : Type 0 where
  pub main : MainState
  pub kbar : KBarState

-- What `onClose` of the modal does: the dialog for registering cannot be closed.
unfoldable pub close_by_escape : Option Modal → MainState → MainState
close_by_escape none s = s
close_by_escape (some (add_friend _ _ _)) s = close_modal s
close_by_escape (some install_cli) s = close_modal s
close_by_escape (some register) s = s

-- Whether the selected tab's component closes it on Escape: Read and Write do.
unfoldable pub closes_on_escape : Tab TabData → Bool
closes_on_escape tab = elim tab.type [
  | new ↦ false
  | all ↦ false
  | read ↦ true
  | write ↦ true
  | outbox ↦ false
  | sent ↦ false
  | invitations ↦ false
]

-- The key Escape: every component on the screen has its own listener on the window, and each one
-- runs, since `stopPropagation` does not stop the listeners of the same target. They decide by the
-- state before the key.
unfoldable pub on_escape : WindowState → WindowState
unfolding close_by_escape closes_on_escape
on_escape s =
    let shown = selected_actual_tab s.main.tabs_state in
    let tab_closed =
      if closes_on_escape shown
      then record s.main { tabs_state = close_tab shown.id s.main.tabs_state }
      else s.main in
    let modal_closed = close_by_escape s.main.modal tab_closed in
    record {
      main = if is_showing s.kbar.visual_state then close_modal modal_closed else modal_closed;
      kbar = press_escape s.kbar;
    }
