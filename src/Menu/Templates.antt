-- ===== src/Menu/Templates.antt =====
-- The templates of the menus, line by line.
use anysphere_messaging.Common.{Bool, text, none, some, List, [], ◌∷◌, String, if◌then◌else◌}
use anysphere_messaging.Menu.{
  quit_app, close_window, reload, toggle_full_screen, toggle_dev_tools, open_external, Item, select,
  clickable, inert, empty_submenu, separator, Submenu, Template,
}

unfoldable pub about_items : List Item
unfolding text
about_items =
    select (text "About Anysphere") none (text "orderFrontStandardAboutPanel:")
    ∷ separator
    ∷ empty_submenu (text "Services")
    ∷ separator
    ∷ select (text "Hide Anysphere") (some (text "Command+H")) (text "hide:")
    ∷ select (text "Hide Others") (some (text "Command+Shift+H")) (text "hideOtherApplications:")
    ∷ select (text "Show All") none (text "unhideAllApplications:")
    ∷ separator
    ∷ clickable (text "Quit") (some (text "Command+Q")) quit_app
    ∷ []

unfoldable pub edit_items : List Item
unfolding text
edit_items =
    select (text "Undo") (some (text "Command+Z")) (text "undo:")
    ∷ select (text "Redo") (some (text "Shift+Command+Z")) (text "redo:")
    ∷ separator
    ∷ select (text "Cut") (some (text "Command+X")) (text "cut:")
    ∷ select (text "Copy") (some (text "Command+C")) (text "copy:")
    ∷ select (text "Paste") (some (text "Command+V")) (text "paste:")
    ∷ select (text "Select All") (some (text "Command+A")) (text "selectAll:")
    ∷ []

unfoldable pub view_dev_items : List Item
unfolding text
view_dev_items =
    clickable (text "Reload") (some (text "Command+R")) reload
    ∷ clickable (text "Toggle Full Screen") (some (text "Ctrl+Command+F")) toggle_full_screen
    ∷ clickable (text "Toggle Developer Tools") (some (text "Alt+Command+I")) toggle_dev_tools
    ∷ []

unfoldable pub view_prod_items : List Item
unfolding text
view_prod_items =
    clickable (text "Toggle Full Screen") (some (text "Ctrl+Command+F")) toggle_full_screen ∷ []

unfoldable pub window_items : List Item
unfolding text
window_items =
    select (text "Minimize") (some (text "Command+M")) (text "performMiniaturize:")
    ∷ select (text "Close") (some (text "Command+W")) (text "performClose:")
    ∷ separator
    ∷ select (text "Bring All to Front") none (text "arrangeInFront:")
    ∷ []

-- The same in both templates.
unfoldable pub help_items : List Item
unfolding text
help_items =
    clickable (text "Learn More") none (open_external (text "https://electronjs.org"))
    ∷ clickable (text "Documentation") none
        (open_external (text "https://github.com/electron/electron/tree/main/docs#readme"))
    ∷ clickable (text "Community Discussions") none
        (open_external (text "https://www.electronjs.org/community"))
    ∷ clickable (text "Search Issues") none
        (open_external (text "https://github.com/electron/electron/issues"))
    ∷ []

unfoldable pub submenu : String → List Item → Submenu
unfolding text
submenu label items = record { label = text label; items = items }

unfoldable pub build_darwin_template : Bool → Template
unfolding submenu
build_darwin_template development =
    submenu "Anysphere" about_items
    ∷ submenu "Edit" edit_items
    ∷ submenu "View" (if development then view_dev_items else view_prod_items)
    ∷ submenu "Window" window_items
    ∷ submenu "Help" help_items
    ∷ []

unfoldable pub file_items : List Item
unfolding text
file_items =
    inert (text "&Open") (some (text "Ctrl+O"))
    ∷ clickable (text "&Close") (some (text "Ctrl+W")) close_window
    ∷ []

unfoldable pub default_view_items : Bool → List Item
unfolding text
default_view_items development =
    if development
    then clickable (text "&Reload") (some (text "Ctrl+R")) reload
      ∷ clickable (text "Toggle &Full Screen") (some (text "F11")) toggle_full_screen
      ∷ clickable (text "Toggle &Developer Tools") (some (text "Alt+Ctrl+I")) toggle_dev_tools
      ∷ []
    else clickable (text "Toggle &Full Screen") (some (text "F11")) toggle_full_screen ∷ []

unfoldable pub build_default_template : Bool → Template
unfolding submenu default_view_items
build_default_template development =
    submenu "&File" file_items
    ∷ submenu "&View" (default_view_items development)
    ∷ submenu "Help" help_items
    ∷ []
