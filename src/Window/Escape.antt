-- ===== src/Window/Escape.antt =====
-- The key Escape, which every component on the screen hears.
use anysphere_messaging.Common.{◌≡◌, refl, Option, none, some, JsString}
use anysphere_messaging.Tabs.{close_tab, selected_actual_tab}
use anysphere_messaging.Main.{Modal, add_friend, register, install_cli, MainState, close_modal}
use anysphere_messaging.Window.{WindowState, close_by_escape}

-- What Escape leaves of a dialog: the one for registering.
abbrev pub kept : Option Modal → Option Modal
kept (some register) = some register
kept _ = none

pub close_by_escape-tabs_state :
    (m : Option Modal) (s : MainState) → (close_by_escape m s).tabs_state ≡ s.tabs_state
unfolding close_by_escape close_modal
close_by_escape-tabs_state none s = refl
close_by_escape-tabs_state (some (add_friend _ _ _)) s = refl
close_by_escape-tabs_state (some install_cli) s = refl
close_by_escape-tabs_state (some register) s = refl

module _ (s : WindowState) where
  abbrev shown_id : JsString
  shown_id = (selected_actual_tab s.main.tabs_state).id

  abbrev tab_closed : MainState
  tab_closed = record s.main { tabs_state = close_tab shown_id s.main.tabs_state }
