-- ===== src/Menu/Tests.antt =====
-- The menus of a release that is asked to debug.
use anysphere_messaging.Common.{◌≡◌, [], ◌∷◌, none, some, text, if◌then◌else◌}
use anysphere_messaging.Startup.{darwin}
use anysphere_messaging.Menu.Building.{build_menu}
use anysphere_messaging.Menu.Release.{
  debugging, items_of, context_items, is_darwin, build_menu-debugging,
}
use anysphere_messaging.Menu.{is_development, reload, toggle_dev_tools, inspect_element}

build_menu-debugging_example :
    let development = is_development (some (text "production")) (some (text "true")) in
    let b = build_menu darwin (some (text "production")) (some (text "true")) in
    (debugging (items_of b.menu) ≡ (if development then reload ∷ toggle_dev_tools ∷ [] else []))
    × (debugging (context_items b) ≡ (if development then inspect_element ∷ [] else []))
    × (b.application_menu ≡ (if is_darwin darwin then some b.menu else none))
build_menu-debugging_example =
    build_menu-debugging darwin (some (text "production")) (some (text "true"))
