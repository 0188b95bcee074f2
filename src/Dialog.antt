-- ===== src/Dialog.antt =====
-- The dialog that adds contacts (client/gui/src/renderer/components/AddFriend/AddFriend.tsx): which
-- of its screens is shown. `none` stands for the error "invalid state" that drawing throws.
pub mod Screens
mod Tests
use anysphere_messaging.Common.{JsString, Option, none, some, List, [], ◌∷◌}
use anysphere_messaging.Types.{IncomingAsyncInvitation}
use anysphere_messaging.Main.{
  Modal, add_friend, register, install_cli, Screen, choice, in_person, remote, remote_part_two,
  incoming_screen,
}

pub record DialogState : Type 0 where
  pub screen : Screen
  pub story : JsString
  pub public_id : JsString
  pub their_id : JsString

unfoldable pub open_dialog : Option Screen → Option JsString → DialogState
open_dialog initial_screen their_public_id = record {
  screen = elim initial_screen [ none ↦ choice | some s ↦ s ];
  story = [];
  public_id = [];
  their_id = elim their_public_id [ none ↦ [] | some id ↦ id ];
}

-- What happens in the dialog: `getMyPublicID` resolves with a story and a public id or is rejected,
-- and the buttons of the screens.
pub data DialogEvent : Type 0 where
  loaded : JsString → JsString → DialogEvent
  load_failed choose_inperson choose_remote : DialogEvent
  paste_public_id : JsString → DialogEvent

unfoldable pub on_dialog : DialogEvent → DialogState → DialogState
on_dialog (loaded story public_id) s = record s { story = story; public_id = public_id }
on_dialog load_failed s = s
on_dialog choose_inperson s = record s { screen = in_person }
on_dialog choose_remote s = record s { screen = remote }
on_dialog (paste_public_id id) s = record s { their_id = id; screen = remote_part_two }

unfoldable pub on_dialogs : List DialogEvent → DialogState → DialogState
unfolding on_dialog
on_dialogs [] s = s
on_dialogs (e ∷ events) s = on_dialogs events (on_dialog e s)

-- The component that is drawn, with what it is given of the state.
pub data Drawn : Type 0 where
  draw_choice : Drawn
  draw_in_person : JsString → Drawn
  draw_remote : JsString → Drawn
  draw_remote_part_two : JsString → JsString → Drawn
  draw_incoming : JsString → IncomingAsyncInvitation → Drawn

unfoldable pub draw : Option IncomingAsyncInvitation → DialogState → Option Drawn
draw invitation s = elim s.screen [
  | choice ↦ some draw_choice
  | in_person ↦ some (draw_in_person s.story)
  | remote ↦ some (draw_remote s.public_id)
  | remote_part_two ↦ some (draw_remote_part_two s.public_id s.their_id)
  | incoming_screen ↦ elim invitation [
    | none ↦ none
    | some inv ↦ some (draw_incoming s.public_id inv)
  ]
]

-- What the window draws for its modal, after these events in the dialog.
unfoldable pub drawn_modal : List DialogEvent → Option Modal → Option Drawn
unfolding on_dialogs open_dialog draw
drawn_modal events none = none
drawn_modal events (some (add_friend screen inv their_id)) =
    draw inv (on_dialogs events (open_dialog screen their_id))
drawn_modal events (some register) = none
drawn_modal events (some install_cli) = none
