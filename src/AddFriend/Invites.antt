-- ===== src/AddFriend/Invites.antt =====
-- The two screens with two parts each: the one that sends an invitation
-- (client/gui/src/renderer/components/AddFriend/AddFriendRemotePartTwo.tsx, with the small editor of
-- SmallEditor.tsx) and the one that answers one (AddFriendIncoming.tsx beside it).
use anysphere_messaging.Common.{
  ℕ, Bool, JsString, str_eq, text, Option, none, some, List, [], ◌∷◌, ◌==◌, if◌then◌else◌,
}
use anysphere_messaging.AddFriend.{
  NameForm, empty_form, type_display_name, type_unique_name, Outcome, finish_remote, accept, reject,
}

-- `editor` is the text of the state in `editorStateRef`, which belongs to the screen: it outlives
-- the editor of the second part.
pub record InviteState : Type 0 where
  pub form : NameForm
  pub progress : ℕ
  pub editor : Option JsString

abbrev pub open_invite : InviteState
open_invite = record { form = empty_form; progress = 0; editor = none }

pub data InviteAction : Type 0 where
  names_display names_unique : JsString → InviteAction
  -- A key in the input for the display name.
  presses_key : JsString → InviteAction
  goes_on goes_back : InviteAction
  -- `onChange` of the editor, with its text.
  writes : JsString → InviteAction

-- Which part of the screen has the action.
unfoldable pub has_action : InviteState → InviteAction → Bool
has_action s (names_display value) = s.progress == 0
has_action s (names_unique value) = s.progress == 0
has_action s (presses_key key) = s.progress == 0
has_action s goes_on = s.progress == 0
has_action s goes_back = s.progress == 1
has_action s (writes content) = s.progress == 1

unfoldable pub invite : (JsString → JsString) → InviteAction → InviteState → InviteState
unfolding type_display_name type_unique_name text
invite lower (names_display value) s = record s { form = type_display_name lower value s.form }
invite lower (names_unique value) s = record s { form = type_unique_name value s.form }
invite lower (presses_key key) s =
    if str_eq key (text "Enter") then record s { progress = 1 } else s
invite lower goes_on s = record s { progress = 1 }
invite lower goes_back s = record s { progress = 0 }
invite lower (writes content) s = record s { editor = some content }

-- The actions that the screen has are carried out.
unfoldable pub invite_all : (JsString → JsString) → List InviteAction → InviteState → InviteState
unfolding has_action invite
invite_all lower [] s = s
invite_all lower (a ∷ actions) s =
    invite_all lower actions (if has_action s a then invite lower a s else s)

-- The button Send invitation of the second part.
unfoldable pub send_invitation : JsString → InviteState → Option Outcome
unfolding finish_remote
send_invitation their_id s =
    if s.progress == 1 then some (finish_remote s.form their_id s.editor) else none

pub record IncomingState : Type 0 where
  pub form : NameForm
  pub progress : ℕ

abbrev pub open_incoming : IncomingState
open_incoming = record { form = empty_form; progress = 0 }

pub data IncomingAction : Type 0 where
  names_display_of names_unique_of : JsString → IncomingAction
  accepts returns : IncomingAction

unfoldable pub has_incoming : IncomingState → IncomingAction → Bool
has_incoming s (names_display_of value) = s.progress == 1
has_incoming s (names_unique_of value) = s.progress == 1
has_incoming s accepts = s.progress == 0
has_incoming s returns = s.progress == 1

unfoldable pub incoming : (JsString → JsString) → IncomingAction → IncomingState → IncomingState
unfolding type_display_name type_unique_name
incoming lower (names_display_of value) s = record s { form = type_display_name lower value s.form }
incoming lower (names_unique_of value) s = record s { form = type_unique_name value s.form }
incoming lower accepts s = record s { progress = 1 }
incoming lower returns s = record s { progress = 0 }

unfoldable pub incoming_all :
    (JsString → JsString) → List IncomingAction → IncomingState → IncomingState
unfolding has_incoming incoming
incoming_all lower [] s = s
incoming_all lower (a ∷ actions) s =
    incoming_all lower actions (if has_incoming s a then incoming lower a s else s)

-- The buttons that end the screen: Remove invitation in the first part, Finish in the second.
unfoldable pub end_incoming : JsString → Bool → IncomingState → Option Outcome
unfolding accept reject
end_incoming public_id removes s =
    if s.progress == 1
    then (if removes then none else some (accept s.form public_id))
    else (if removes then some (reject public_id) else none)
