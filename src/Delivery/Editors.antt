-- ===== src/Delivery/Editors.antt =====
-- The editor of the tab in which a message is written. Its text stands in the component `Write`
-- (client/gui/src/renderer/components/Compose/Write.tsx, with `OnChangePlugin` of Editor.tsx beside
-- it), not in the tab: client/gui/src/renderer/Main.tsx draws `Write` without a key, so React keeps
-- the component, and its editor, as long as every tab that is shown is one to write in, and makes
-- a new one otherwise.
use anysphere_messaging.Common.{
  Bool, true, false, ◌&&◌, JsString, Option, none, some, if◌then◌else◌,
}
use anysphere_messaging.Compose.{WriteData, SendResult, send}
use anysphere_messaging.Tabs.{selected_actual_tab}
use anysphere_messaging.Main.{MainState}
use anysphere_messaging.Window.{selected_component, WindowAction, act}
use anysphere_messaging.Delivery.{draft_of}

-- The window and `editorStateRef`, by the markdown of the state that it holds.
pub record WritingState : Type 0 where
  pub main : MainState
  pub editor : Option JsString

-- The draft that is shown.
unfoldable pub shown_draft : MainState → Option WriteData
unfolding draft_of
shown_draft m = draft_of (selected_component (selected_actual_tab m.tabs_state))

abbrev is_some : Option WriteData → Bool
is_some none = false
is_some (some w) = true

-- `onChange` of the editor, where there is one.
unfoldable pub type_text : JsString → WritingState → WritingState
unfolding shown_draft
type_text markdown s =
    if is_some (shown_draft s.main) then record s { editor = some markdown } else s

-- Something is done in the window, which draws its selected tab again.
unfoldable pub do_action : WindowAction → WritingState → Option WritingState
unfolding shown_draft
do_action a s = elim (act a s.main) [
  | none ↦ none
  | some m ↦
      let kept = is_some (shown_draft s.main) && is_some (shown_draft m) in
      some (record { main = m; editor = if kept then s.editor else none })
]

-- What Send does in the tab that is shown.
unfoldable pub send_shown : WritingState → Option SendResult
unfolding shown_draft send
send_shown s = elim (shown_draft s.main) [ none ↦ none | some w ↦ some (send w s.editor) ]
