-- ===== src/Menu/Release.antt =====
-- What the menus offer outside development, and by which keys.
use anysphere_messaging.Common.{
  ◌≡◌, ◌≢◌, refl, Bool, true, false, not, ◌&&◌, JsString, text, str_eq, Option, none, some, List,
  [], ◌∷◌, ◌++◌, any, ◌==◌, if◌then◌else◌,
}
use anysphere_messaging.Startup.{Platform, darwin, linux, other}
use anysphere_messaging.Menu.Templates.{
  about_items, edit_items, view_dev_items, view_prod_items, window_items, help_items, submenu,
  build_darwin_template, file_items, default_view_items, build_default_template,
}
use anysphere_messaging.Menu.Building.{Built, development_items, build_for, build_menu}
use anysphere_messaging.Menu.{
  Click, reload, toggle_dev_tools, inspect_element, Item, select, clickable, inert, Template,
  is_development,
}

unfoldable pub items_of : Template → List Item
items_of [] = []
items_of (s ∷ submenus) = s.items ++ items_of submenus

-- What the items do that only a developer needs, in their order.
unfoldable pub debugging : List Item → List Click
debugging [] = []
debugging (clickable _ _ reload ∷ items) = reload ∷ debugging items
debugging (clickable _ _ toggle_dev_tools ∷ items) = toggle_dev_tools ∷ debugging items
debugging (clickable _ _ inspect_element ∷ items) = inspect_element ∷ debugging items
debugging (_ ∷ items) = debugging items

-- What a right click opens, and nothing where it opens no menu.
abbrev pub context_items : Built → List Item
context_items b = elim b.context_menu [ none ↦ [] | some items ↦ items ]

abbrev pub is_darwin : Platform → Bool
is_darwin darwin = true
is_darwin linux = false
is_darwin other = false

build_for-debugging :
    (platform : Platform) (development : Bool)
    → let b = build_for platform development in
      (debugging (items_of b.menu) ≡ (if development then reload ∷ toggle_dev_tools ∷ [] else []))
      × (debugging (context_items b) ≡ (if development then inspect_element ∷ [] else []))
      × (b.application_menu ≡ (if is_darwin platform then some b.menu else none))
unfolding debugging items_of build_for build_darwin_template build_default_template about_items
    edit_items view_dev_items view_prod_items window_items help_items submenu file_items
    default_view_items development_items
build_for-debugging darwin true = (refl, refl, refl)
build_for-debugging darwin false = (refl, refl, refl)
build_for-debugging linux true = (refl, refl, refl)
build_for-debugging linux false = (refl, refl, refl)
build_for-debugging other true = (refl, refl, refl)
build_for-debugging other false = (refl, refl, refl)

-- In development the menu that is built has Reload and the developer tools, each once, and a right
-- click offers to inspect an element; otherwise neither has anything for debugging. The menu that is
-- built stays as the menu of the application on macOS, and only there.
pub build_menu-debugging :
    (platform : Platform) (node_env debug_prod : Option JsString)
    → let development = is_development node_env debug_prod in
      let b = build_menu platform node_env debug_prod in
      (debugging (items_of b.menu) ≡ (if development then reload ∷ toggle_dev_tools ∷ [] else []))
      × (debugging (context_items b) ≡ (if development then inspect_element ∷ [] else []))
      × (b.application_menu ≡ (if is_darwin platform then some b.menu else none))
unfolding build_menu
build_menu-debugging platform node_env debug_prod =
    build_for-debugging platform (is_development node_env debug_prod)

-- The keys that an accelerator names: its parts between the signs +, in any order.
pub record Keys : Type 0 where
  command : Bool
  ctrl : Bool
  alt : Bool
  shift : Bool
  key : JsString

unfoldable pub parts_from : JsString → JsString → List JsString
parts_from part [] = part ∷ []
parts_from part (c ∷ s) =
    let next = parts_from [] s in
    let more = parts_from (part ++ c ∷ []) s in elim (c == 43) [ true ↦ part ∷ next | false ↦ more ]

unfoldable pub press_part : JsString → Keys → Keys
unfolding text
press_part part k =
    if str_eq part (text "Command")
    then record k { command = true }
    else if str_eq part (text "Ctrl")
    then record k { ctrl = true }
    else if str_eq part (text "Alt")
    then record k { alt = true }
    else if str_eq part (text "Shift")
    then record k { shift = true }
    else record k { key = part }

unfoldable pub press_parts : List JsString → Keys → Keys
unfolding press_part
press_parts [] k = k
press_parts (p ∷ parts) k = press_parts parts (press_part p k)

unfoldable pub keys_of : JsString → Keys
unfolding press_parts parts_from
keys_of accelerator =
    press_parts (parts_from [] accelerator)
      (record { command = false; ctrl = false; alt = false; shift = false; key = [] })

abbrev same : Bool → Bool → Bool
same true b = b
same false b = not b

unfoldable pub keys_eq : Keys → Keys → Bool
keys_eq j k =
    same j.command k.command
    && (same j.ctrl k.ctrl && (same j.alt k.alt && (same j.shift k.shift && str_eq j.key k.key)))

unfoldable pub accelerator_of : Item → List Keys
unfolding keys_of
accelerator_of (select _ (some a) _) = keys_of a ∷ []
accelerator_of (clickable _ (some a) _) = keys_of a ∷ []
accelerator_of (inert _ (some a)) = keys_of a ∷ []
accelerator_of _ = []

unfoldable pub accelerators : List Item → List Keys
unfolding accelerator_of
accelerators [] = []
accelerators (i ∷ items) = accelerator_of i ++ accelerators items

unfoldable pub are_distinct : List Keys → Bool
unfolding keys_eq
are_distinct [] = true
are_distinct (k ∷ keys) = not (any (keys_eq k) keys) && are_distinct keys

-- The shortcuts of the application menu.
unfoldable pub shortcuts : Built → List Keys
unfolding accelerators items_of
shortcuts b = elim b.application_menu [
  | none ↦ []
  | some template ↦ accelerators (items_of template)
]

build_for-shortcuts :
    (platform : Platform) (development : Bool)
    → are_distinct (accelerators (items_of (build_for platform development).menu)) ≡ true
unfolding are_distinct keys_eq accelerators accelerator_of keys_of press_parts press_part parts_from
    items_of build_for build_darwin_template build_default_template about_items edit_items
    view_dev_items view_prod_items window_items help_items submenu file_items default_view_items
    text str_eq
build_for-shortcuts darwin true = refl
build_for-shortcuts darwin false = refl
build_for-shortcuts linux true = refl
build_for-shortcuts linux false = refl
build_for-shortcuts other true = refl
build_for-shortcuts other false = refl

build_for-named :
    (platform : Platform) (development : Bool)
    → accelerators (items_of (build_for platform development).menu) ≢ []
unfolding accelerators accelerator_of items_of build_for build_darwin_template
    build_default_template about_items file_items submenu
build_for-named darwin development e = cc
build_for-named linux development e = cc
build_for-named other development e = cc

build_for-platform :
    (platform : Platform) (development : Bool)
    → let b = build_for platform development in
      ((platform ≡ darwin) → shortcuts b ≡ accelerators (items_of b.menu))
      × ((platform ≢ darwin) → shortcuts b ≡ [])
unfolding shortcuts build_for
build_for-platform darwin development = (λ e. refl, λ h. absurd (h refl))
build_for-platform linux development = (λ e. cc, λ h. refl)
build_for-platform other development = (λ e. cc, λ h. refl)

-- No two items of the menu that is built name the same keys, however they write them, in development
-- or not. On macOS all of these keys work. On every other platform none does, although the template
-- names some: the application menu is taken away after it is built.
pub build_menu-shortcuts :
    (platform : Platform) (node_env debug_prod : Option JsString)
    → let b = build_menu platform node_env debug_prod in
      let named = accelerators (items_of b.menu) in
      (are_distinct named ≡ true)
      × (named ≢ [])
      × ((platform ≡ darwin) → shortcuts b ≡ named)
      × ((platform ≢ darwin) → shortcuts b ≡ [])
unfolding build_menu
build_menu-shortcuts platform node_env debug_prod =
    let development = is_development node_env debug_prod in
    (
      build_for-shortcuts platform development,
      build_for-named platform development,
      (build_for-platform platform development).0,
      (build_for-platform platform development).1,
    )
