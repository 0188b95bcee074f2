-- ===== src/Main/Tests.antt =====
-- The main window with its two first tabs.
use anysphere_messaging.Common.{
  ◌≡◌, refl, arith, Bool, true, false, none, some, [], ◌∷◌, ◌++◌, text, str_eq,
}
use anysphere_messaging.Utils.{decimal}
use anysphere_messaging.Tabs.{Tab, TabsState, new, all, outbox, switch_tab, selected_actual_tab}
use anysphere_messaging.Tabs.Position.{IsFresh}
use anysphere_messaging.Tabs.Cycle.{next_tabs}
use anysphere_messaging.Main.{
  TabData, null, Message, incoming, MainState, type_eq, outbox_tab, open_or_push, read_tab,
  read_message,
}
use anysphere_messaging.Main.Reading.{next_tabs-read_message}
use anysphere_messaging.Main.Opening.{IsOrderly, open_or_push-IsOrderly}

abbrev new_tab : Tab TabData
new_tab = record {
  type = new;
  name = text "New";
  payload = null;
  unclosable = true;
  id = text "new";
}

abbrev all_tab : Tab TabData
all_tab = record {
  type = all;
  name = text "All";
  payload = null;
  unclosable = true;
  id = text "all";
}

abbrev window : MainState
window = record {
  tabs_state = record {
    default_tab = new_tab;
    tabs = new_tab ∷ all_tab ∷ [];
    previous_selected_tab = text "new";
    selected_tab = text "new";
  };
  modal = none;
  has_shown_initial_modal = true;
  sidebar_open = true;
  seen_calls = [];
}

abbrev hello : Message
hello = incoming (record {
  uid = 7;
  message = text "hello";
  from_unique_name = text "arvid";
  from_display_name = text "Arvid";
  other_recipients_list = [];
  delivered_at = none;
  seen = false;
  delivered = true;
})

hello-IsFresh : IsFresh (read_tab hello).id window.tabs_state.tabs
unfolding read_tab decimal text
hello-IsFresh = ground arith

-- The first tab is selected in between, where the list with the message is.
abbrev listed : MainState
listed = record (read_message hello window) {
  tabs_state = switch_tab (text "new") (read_message hello window).tabs_state;
}

listed-tabs : listed.tabs_state.tabs ≡ (read_message hello window).tabs_state.tabs
unfolding switch_tab
listed-tabs = refl

next_tabs-read_message_example :
    (v : TabsState TabData) × (next_tabs 3 (read_message hello listed).tabs_state ≡ some v)
    × (v.selected_tab ≡ (read_tab hello).id)
    × (v.tabs ≡ window.tabs_state.tabs ++ read_tab hello ∷ read_tab hello ∷ [])
next_tabs-read_message_example =
    next_tabs-read_message 3 hello window listed hello-IsFresh listed-tabs

abbrev is_outbox : Tab TabData → Bool
is_outbox t = type_eq t.type outbox

outbox_tab-passes : is_outbox outbox_tab ≡ true
unfolding type_eq
outbox_tab-passes = refl

window-IsOrderly : IsOrderly is_outbox outbox_tab window.tabs_state
unfolding text str_eq type_eq
window-IsOrderly = record { distinct = ground arith; typed = (refl, (refl, tt)) }

open_or_push-IsOrderly_example :
    (is_outbox (selected_actual_tab (open_or_push is_outbox outbox_tab window.tabs_state)) ≡ true)
    × IsOrderly is_outbox outbox_tab (open_or_push is_outbox outbox_tab window.tabs_state)
open_or_push-IsOrderly_example =
    open_or_push-IsOrderly is_outbox outbox_tab window.tabs_state outbox_tab-passes window-IsOrderly
