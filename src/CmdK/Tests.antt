-- ===== src/CmdK/Tests.antt =====
-- The palette on a few actions.
use anysphere_messaging.Common.{true, false, none, some, List, [], ◌∷◌, JsString, String, text}
use anysphere_messaging.CmdK.{Action}

abbrev action : String → String → List JsString → Action
action name section keys = record {
  id = text name;
  name = text name;
  shortcut = some keys;
  section = text section;
  parent = none;
  has_children = false;
  has_command = true;
}

abbrev next_action : Action
next_action = action "next" "tabs" (text "g" ∷ text "t" ∷ [])

abbrev actions : List Action
actions = action "write" "" (text "c" ∷ []) ∷ next_action ∷ []
