-- ===== src/Menu.antt =====
-- The menus of the application (client/gui/src/main/menu.ts): the two templates, which of them is
-- built, and what becomes of it. Electron's calls are kept as what an item does; a selector is
-- carried out by macOS. The tests of `process.env` are one flag.
pub mod Templates
pub mod Building
pub mod Release
mod Tests
use anysphere_messaging.Common.{Bool, false, ◌||◌, JsString, text, str_eq, Option, none, some, List}

-- What a `click` of an item calls.
pub data Click : Type 0 where
  quit_app close_window reload toggle_full_screen toggle_dev_tools inspect_element : Click
  open_external : JsString → Click

-- An item with a selector, an item with a `click`, one with neither, one with an empty submenu, and
-- a separator.
pub data Item : Type 0 where
  select : JsString → Option JsString → JsString → Item
  clickable : JsString → Option JsString → Click → Item
  inert : JsString → Option JsString → Item
  empty_submenu : JsString → Item
  separator : Item

pub record Submenu : Type 0 where
  pub label : JsString
  pub items : List Item

abbrev pub Template : Type 0
Template = List Submenu

-- `process.env.NODE_ENV === "development" || process.env.DEBUG_PROD === "true"`, with `none` for an
-- undefined variable.
abbrev equals : Option JsString → JsString → Bool
equals none s = false
equals (some t) s = str_eq t s

-- `isDevelopment`
unfoldable pub is_development : Option JsString → Option JsString → Bool
unfolding text
is_development node_env debug_prod =
    equals node_env (text "development") || equals debug_prod (text "true")
