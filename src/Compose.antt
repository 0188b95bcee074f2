-- ===== src/Compose.antt =====
-- The tab in which a message is written (client/gui/src/renderer/components/Compose/Write.tsx): the
-- chooser of contacts `MultiSelect`, the contacts it offers, `send` and the keyboard handler. The
-- search (`match-sorter`), the editor (`lexical`) and the daemon are outside: their answers are
-- arguments.
pub mod Contacts
pub mod Sending
pub mod AutoLinks
pub mod Loading
pub mod Offering
mod Tests
use anysphere_messaging.Common.{
  Bool, true, false, not, ◌&&◌, Option, none, some, List, [], ◌∷◌, ◌++◌, map, JsString, str_eq,
  text, join, length, any, filter, ltb, ◌==◌, if◌then◌else◌,
}
use anysphere_messaging.Types.{Friend, OutgoingSyncInvitation}
use anysphere_messaging.Tabs.{KeyEvent}
use anysphere_messaging.SelectableList.{Row, divider, item}

pub record WriteFriend : Type 0 where
  pub unique_name : JsString
  pub display_name : JsString
  pub public_id : Option JsString

pub record MultiSelectData : Type 0 where
  pub friends : List WriteFriend
  pub query : JsString

pub data Focus : Type 0 where
  on_content on_to : Focus

pub record WriteData : Type 0 where
  pub content : JsString
  pub multi_select_state : MultiSelectData
  pub focus : Focus

-- Whether a contact of this unique name has been chosen (the `find` on `uniqueName`).
abbrev pub is_chosen : JsString → List WriteFriend → Bool
is_chosen name friends = any (λ f. str_eq f.unique_name name) friends

-- The action of a row of the chooser.
unfoldable pub choose : WriteFriend → MultiSelectData → MultiSelectData
choose friend s = record s {
  friends =
      if not (is_chosen friend.unique_name s.friends) then s.friends ++ friend ∷ [] else s.friends;
  query = [];
}

unfoldable pub type_query : JsString → MultiSelectData → MultiSelectData
type_query value s = record s { query = value }

-- `friends.slice(0, -1)`
unfoldable pub drop_last : List WriteFriend → List WriteFriend
drop_last [] = []
drop_last (f ∷ []) = []
drop_last (f ∷ g ∷ fs) = f ∷ drop_last (g ∷ fs)

-- `onKeyDown` of the input: whether `onEdit` is called, and with what.
unfoldable pub input_key : JsString → MultiSelectData → Option MultiSelectData
input_key key s =
    if str_eq key (text "Backspace") && length s.query == 0
    then some (record s { friends = drop_last s.friends })
    else none

-- The contacts that `Write` offers: those that are not chosen.
unfoldable pub available : List WriteFriend → MultiSelectData → List WriteFriend
available friends s = filter (λ f. not (is_chosen f.unique_name s.friends)) friends

-- The rows of the chooser; `matches` is what the search returns for the options and the query.
unfoldable pub selectable_options :
    List WriteFriend → List WriteFriend → MultiSelectData → List (Row WriteFriend)
selectable_options options matches s =
    let rows : List (Row WriteFriend) = map item matches in
    if length rows == 0 && ltb 0 (length s.query)
    then rows ++ divider (text "No contacts matching " ++ s.query) ∷ []
    else if length options == 0 && length s.friends == 0
    then rows ++ divider (text "No contacts. Add some!") ∷ []
    else rows

-- The two effects that load contacts append what the daemon answers.
unfoldable pub with_friends : List Friend → List WriteFriend → List WriteFriend
with_friends friends f =
    f
    ++ map
        (λ (friend : Friend). record {
          unique_name = friend.unique_name;
          display_name = friend.display_name;
          public_id = some friend.public_id;
        })
        friends

unfoldable pub with_invitations : List OutgoingSyncInvitation → List WriteFriend → List WriteFriend
with_invitations invitations f =
    f
    ++ map
        (λ (friend : OutgoingSyncInvitation). record {
          unique_name = friend.unique_name;
          display_name = friend.display_name;
          public_id = none;
        })
        invitations

-- `content.replace(/\n\n/g, "\n")`: code unit 10 is the newline.
unfoldable pub single_newlines : JsString → JsString
single_newlines [] = []
single_newlines (c ∷ []) = c ∷ []
single_newlines (c ∷ d ∷ s) =
    let merged = single_newlines s in
    let kept = single_newlines (d ∷ s) in
    elim (c == 10 && d == 10) [ true ↦ 10 ∷ merged | false ↦ c ∷ kept ]

pub data SendResult : Type 0 where
  refused : JsString → SendResult
  sent : List JsString → JsString → SendResult

-- `send` up to the call of `sendMessage`, with the names and the text of that call; `editor` is the
-- markdown of the editor, if the reference to it is set.
unfoldable pub send : WriteData → Option JsString → SendResult
send w editor =
    if ltb 0 (length w.multi_select_state.query)
    then refused (text "Unknown contact: " ++ (w.multi_select_state.query ++ text "."))
    else if length w.multi_select_state.friends == 0
    then refused (text "No contacts selected.")
    else elim editor [
      | none ↦ refused (text "Internal error. Please try again.")
      | some markdown ↦
          sent (map (λ (f : WriteFriend). f.unique_name) w.multi_select_state.friends)
            (single_newlines markdown)
    ]

-- What happens when the promise of `sendMessage` settles: the status, and whether the tab closes.
unfoldable pub after_send : Bool → WriteData → JsString × Bool
after_send ok w =
    if ok
    then (
      text "Message sent to "
          ++ (join (text ", ")
                (map (λ (f : WriteFriend). f.display_name) w.multi_select_state.friends)
              ++ text "."),
      true,
    )
    else (text "Message failed to send.", false)

pub data KeyAction : Type 0 where
  edit : WriteData → KeyAction
  send_now close_tab pass : KeyAction

abbrev is_on_to : Focus → Bool
is_on_to on_to = true
is_on_to on_content = false

unfoldable pub handle_key : KeyEvent → WriteData → KeyAction
handle_key e w =
    if str_eq e.key (text "Tab")
    then (if is_on_to w.focus then edit (record w { focus = on_content }) else pass)
    else if e.meta_key && str_eq e.key (text "Enter")
    then send_now
    else if str_eq e.key (text "Escape")
    then close_tab
    else pass
