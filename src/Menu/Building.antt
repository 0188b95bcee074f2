-- ===== src/Menu/Building.antt =====
-- `buildMenu` and `setupDevelopmentEnvironment`.
use anysphere_messaging.Common.{
  Bool, JsString, text, Option, none, some, List, [], ◌∷◌, if◌then◌else◌,
}
use anysphere_messaging.Startup.{Platform, darwin}
use anysphere_messaging.Menu.Templates.{build_darwin_template, build_default_template}
use anysphere_messaging.Menu.{Item, clickable, inspect_element, Template, is_development}

-- The menu that is returned, the application menu in the end, with `none` for null, and what a right
-- click in the window opens.
pub record Built : Type 0 where
  pub menu : Template
  pub application_menu : Option Template
  pub context_menu : Option (List Item)

unfoldable pub development_items : List Item
unfolding text
development_items = clickable (text "Inspect element") none inspect_element ∷ []

-- On a platform, in development or not.
unfoldable pub build_for : Platform → Bool → Built
unfolding build_darwin_template build_default_template development_items
build_for platform development =
    let context_menu : Option (List Item) = if development then some development_items else none in
    elim platform [
      | darwin ↦
          let template = build_darwin_template development in
          record { menu = template; application_menu = some template; context_menu = context_menu }
      | _ ↦ record {
        menu = build_default_template development;
        application_menu = none;
        context_menu = context_menu;
      }
    ]

unfoldable pub build_menu : Platform → Option JsString → Option JsString → Built
unfolding is_development build_for
build_menu platform node_env debug_prod = build_for platform (is_development node_env debug_prod)
