-- ===== src/CmdK.antt =====
-- The command palette (client/gui/src/renderer/components/cmd-k/). Here are the action and the
-- visual state of types.ts; the children have the parts that work on them.
pub mod Visual
pub mod VisualLaws
pub mod Shortcuts
pub mod ShortcutLaws
pub mod Results
pub mod ResultLaws
mod Tests
use anysphere_messaging.Common.{Bool, Option, List, JsString}

-- What the palette reads of an `ActionImpl`; `has_command` says that it has a `perform`.
pub record Action : Type 0 where
  pub id : JsString
  pub name : JsString
  pub shortcut : Option (List JsString)
  pub section : JsString
  pub parent : Option JsString
  pub has_children : Bool
  pub has_command : Bool
