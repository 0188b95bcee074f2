-- ===== src/Links.antt =====
-- The links to a public id: the one that is copied, the one that is pasted
-- (client/gui/src/renderer/components/AddFriend/AddFriendRemote.tsx), and the one that opens the
-- application (`open-url` and `createWindow` of client/gui/src/main/main.ts) and comes to the page
-- as a parameter of its address (client/gui/src/renderer/index.tsx), which is computed by
-- client/gui/src/main/util.ts. The classes URL and URLSearchParams and path.resolve are parameters.
pub mod Pasting
pub mod Checking
pub mod Racing
pub mod Order
pub mod Opening
mod Tests
use anysphere_messaging.Common.{
  ℕ, Bool, false, str_eq, not, ◌||◌, ◌&&◌, Option, none, some, List, [], ◌∷◌, ◌++◌, JsString, text,
  filter, ◌==◌, leb, if◌then◌else◌,
}
use anysphere_messaging.Main.{MainState, show_initial_modal}
use anysphere_messaging.Window.{opened}
use anysphere_messaging.Dialog.{DialogEvent, paste_public_id}

-- `\s` of a regular expression, on code units.
unfoldable pub is_space : ℕ → Bool
is_space c =
    leb 9 c && leb c 13
    || (c == 32
        || (c == 160
            || (c == 5760
                || (leb 8192 c && leb c 8202
                    || (c == 8232
                        || (c == 8233
                            || (c == 8239 || (c == 8287 || (c == 12288 || c == 65279)))))))))

-- `replace(/\s/g, "")`
unfoldable pub strip_spaces : JsString → JsString
unfolding is_space
strip_spaces s = filter (λ c. not (is_space c)) s

-- What follows a prefix, where the string starts with it.
unfoldable pub after_prefix : JsString → JsString → Option JsString
after_prefix [] s = some s
after_prefix (a ∷ p) [] = none
after_prefix (a ∷ p) (b ∷ s) = let rest = after_prefix p s in if a == b then rest else none

-- `replace(/^https?:\/\//, "")`
unfoldable pub strip_scheme : JsString → JsString
unfolding text
strip_scheme s = elim (after_prefix (text "https://") s) [
  | some rest ↦ rest
  | none ↦ elim (after_prefix (text "http://") s) [ some rest ↦ rest | none ↦ s ]
]

unfoldable pub strip_host : JsString → JsString
unfolding text
strip_host s = elim (after_prefix (text "anysphere.id/#") s) [ some rest ↦ rest | none ↦ s ]

-- The id that the effect reads in the text of the field.
unfoldable pub pasted_id : JsString → JsString
unfolding strip_spaces strip_scheme strip_host
pasted_id their_id = strip_host (strip_scheme (strip_spaces their_id))

-- What the button Copy puts on the clipboard.
unfoldable pub copied_link : JsString → JsString
unfolding text
copied_link public_id = text "https://anysphere.id/#" ++ public_id

-- What `isValidPublicID` answers.
pub data Validity : Type 0 where
  valid invalid : Validity
  check_failed : JsString → Validity

-- What comes of a text in the field, with what the daemon answers for each id.
pub data Pasted : Type 0 where
  not_checked refused : Pasted
  passed_on : DialogEvent → Pasted
  status : JsString → Pasted

unfoldable pub on_their_id : (JsString → Validity) → JsString → Pasted
unfolding pasted_id text
on_their_id is_valid their_id = elim (pasted_id their_id) [
  | [] ↦ not_checked
  | c ∷ cs ↦ elim (is_valid (c ∷ cs)) [
    | valid ↦ passed_on (paste_public_id (c ∷ cs))
    | invalid ↦ refused
    | check_failed err ↦ status (text "Failed to check if public ID is valid: " ++ err)
  ]
]

-- `url.split("/").pop()`; `segment` is what has been read of the present segment.
unfoldable pub last_segment_from : JsString → JsString → JsString
last_segment_from segment [] = segment
last_segment_from segment (c ∷ s) =
    if c == 47 then last_segment_from [] s else last_segment_from (segment ++ c ∷ []) s

unfoldable pub last_segment : JsString → JsString
unfolding last_segment_from
last_segment url = last_segment_from [] url

-- What a page is loaded from: `process.env.NODE_ENV` and `process.env.PORT`, `__dirname`,
-- `path.resolve`, the `href` of `new URL(…)` once its `pathname` is set, and
-- `URLSearchParams(url.search).get("publicID")` of an address.
pub record Platform : Type 0 where
  pub node_env : Option JsString
  pub port : Option JsString
  pub dirname : JsString
  pub path_resolve : List JsString → JsString
  pub with_pathname : JsString → JsString → JsString
  pub get_public_id : JsString → Option JsString

unfoldable pub is_development : Option JsString → Bool
unfolding text
is_development none = false
is_development (some env) = str_eq env (text "development")

-- `process.env.PORT || 1212`
unfoldable pub port_or_default : Option JsString → JsString
unfolding text
port_or_default none = text "1212"
port_or_default (some []) = text "1212"
port_or_default (some (c ∷ cs)) = c ∷ cs

module _ (p : Platform) where
  -- `resolveHtmlPath` of client/gui/src/main/util.ts.
  unfoldable pub resolve_html_path : JsString → JsString
  unfolding is_development port_or_default text
  resolve_html_path html_file_name =
      if is_development p.node_env
      then p.with_pathname (text "http://localhost:" ++ port_or_default p.port) html_file_name
      else text "file://" ++ p.path_resolve (p.dirname ∷ text "../renderer/" ∷ html_file_name ∷ [])

  -- The address that `createWindow` loads.
  unfoldable pub load_url : Option JsString → JsString
  unfolding resolve_html_path text
  load_url none = resolve_html_path (text "index.html")
  load_url (some public_id) = resolve_html_path (text "index.html?publicID=" ++ public_id)

  -- The windows of the application, each by the address that it has loaded.
  unfoldable pub create_window : Option JsString → List JsString → List JsString
  unfolding load_url
  create_window public_id windows = windows ++ load_url public_id ∷ []

  unfoldable pub on_activate : List JsString → List JsString
  unfolding create_window
  on_activate [] = create_window none []
  on_activate (w ∷ windows) = w ∷ windows

  unfoldable pub on_open_url : JsString → List JsString → List JsString
  unfolding resolve_html_path last_segment create_window text
  on_open_url url [] = create_window (some (last_segment url)) []
  on_open_url url (w ∷ windows) =
      resolve_html_path (text "index.html?publicID=" ++ last_segment url) ∷ windows

  -- The page: `Main` with its two properties, and the state after the effect of its first drawing.
  unfoldable pub open_page : JsString → MainState
  unfolding show_initial_modal
  open_page href = show_initial_modal (p.get_public_id href) opened
