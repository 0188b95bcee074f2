-- ===== src/Window/Tests.antt =====
-- The window with a message opened in it, and keys typed in it.
use anysphere_messaging.Common.{
  str_eq_iff, ◌≡◌, ◌≢◌, refl, true, false, none, some, [], ◌∷◌, String, str_eq, text,
}
use anysphere_messaging.Tabs.{Tab, write, selected_actual_tab}
use anysphere_messaging.CmdK.Visual.{initial}
use anysphere_messaging.Main.{
  TabData, write_data, empty_write, edit_write, type_eq, Message, incoming, MainState, read_message,
  open_friend_modal,
}
use anysphere_messaging.Window.{
  opened, Component, selected_component, open_message, act, WindowState,
}
use anysphere_messaging.Window.Drawing.{Reachable, start, acted, Reachable-selected_component}
use anysphere_messaging.Compose.{WriteData}
use anysphere_messaging.Window.Drafts.{IsDraft, select, edit_write-switch_tab}

abbrev hello : Message
hello = incoming (record {
  uid = 7;
  message = text "hello";
  from_unique_name = text "arvid";
  from_display_name = text "Arvid";
  other_recipients_list = [];
  delivered_at = none;
  seen = false;
  delivered = true;
})

abbrev reading : MainState
reading = read_message hello opened

reading-Reachable : Reachable reading
unfolding act
reading-Reachable = acted (open_message hello) start refl

Reachable-selected_component_example :
    (c : Component) × (selected_component (selected_actual_tab reading.tabs_state) ≡ some c)
Reachable-selected_component_example = Reachable-selected_component reading reading-Reachable

abbrev in_dialog : WindowState
in_dialog = record { main = open_friend_modal reading; kbar = initial }

abbrev draft_tab : String → Tab TabData
draft_tab id = record {
  type = write;
  name = text "Compose";
  payload = write_data empty_write;
  unclosable = false;
  id = text id;
}

abbrev drafting : MainState
drafting = record opened {
  tabs_state = record opened.tabs_state {
    tabs = draft_tab "write-a" ∷ draft_tab "write-b" ∷ [];
    selected_tab = text "write-a";
  };
}

abbrev to_arvid : WriteData
to_arvid = record empty_write { content = text "hi Arvid" }

abbrev to_sualeh : WriteData
to_sualeh = record empty_write { content = text "hi Sualeh" }

first_draft : IsDraft (text "write-a") (draft_tab "write-a") drafting.tabs_state.tabs
unfolding text str_eq type_eq
first_draft = record { found = refl; writable = refl }

second_draft : IsDraft (text "write-b") (draft_tab "write-b") drafting.tabs_state.tabs
unfolding text str_eq type_eq
second_draft = record { found = refl; writable = refl }

drafts-ne : text "write-a" ≢ text "write-b"
unfolding text str_eq
drafts-ne = λ e. let h : false ≡ true = (str_eq_iff (text "write-a") (text "write-b")).1 e in cc

edit_write-switch_tab_example :
    let both = edit_write to_sualeh (select (text "write-b") (edit_write to_arvid drafting)) in
    ((selected_actual_tab both.tabs_state).payload ≡ write_data to_sualeh)
    × ((selected_actual_tab (select (text "write-a") both).tabs_state).payload
        ≡ write_data to_arvid)
edit_write-switch_tab_example =
    edit_write-switch_tab to_arvid to_sualeh drafting (text "write-b") (draft_tab "write-a")
      (draft_tab "write-b") first_draft second_draft drafts-ne
