-- ===== src/Invitations/Opening.antt =====
-- What a click on an incoming invitation opens: the list, the window
-- (client/gui/src/renderer/Main.tsx) and the dialog
-- (client/gui/src/renderer/components/AddFriend/AddFriend.tsx) together.
use anysphere_messaging.Common.{
  ℕ, zero, suc, ◌≡◌, refl, arith, none, some, List, [], ◌∷◌, JsString, get_elem?,
}
use anysphere_messaging.Common.Int.{pos}
use anysphere_messaging.Types.{IncomingAsyncInvitation}
use anysphere_messaging.SelectableList.{execute}
use anysphere_messaging.Main.{MainState, handle_incoming_invitation}
use anysphere_messaging.Dialog.{loaded, draw_incoming, drawn_modal}
use anysphere_messaging.Invitations.{incoming_rows}

execute-incoming_rows :
    (invs : List IncomingAsyncInvitation) (i : ℕ)
    → execute (incoming_rows invs) (pos i) ≡ get_elem? invs i
unfolding execute incoming_rows
execute-incoming_rows [] i = refl
execute-incoming_rows (inv ∷ invs) zero = refl
execute-incoming_rows (inv ∷ invs) (suc i) = execute-incoming_rows invs i

-- The click on the row at an index, in the window.
unfoldable pub click_row : List IncomingAsyncInvitation → ℕ → MainState → MainState
unfolding execute incoming_rows handle_incoming_invitation
click_row invs i s = elim (execute (incoming_rows invs) (pos i)) [
  | none ↦ s
  | some inv ↦ handle_incoming_invitation inv s
]

click_row-found :
    (invs : List IncomingAsyncInvitation) (i : ℕ) (inv : IncomingAsyncInvitation) (s : MainState)
    → get_elem? invs i ≡ some inv
    → click_row invs i s ≡ handle_incoming_invitation inv s
unfolding click_row
click_row-found invs i inv s found = ground (arith, execute-incoming_rows invs i)

-- A click on a row opens the dialog with the invitation of that row and, once the daemon has told
-- the own story and public id, with that public id; it leaves the tabs as they are.
pub click_row-drawn_modal :
    (invs : List IncomingAsyncInvitation) (i : ℕ) (inv : IncomingAsyncInvitation) (s : MainState)
    (story public_id : JsString)
    → get_elem? invs i ≡ some inv
    → (drawn_modal (loaded story public_id ∷ []) (click_row invs i s).modal
        ≡ some (draw_incoming public_id inv))
      × ((click_row invs i s).tabs_state ≡ s.tabs_state)
unfolding drawn_modal handle_incoming_invitation
click_row-drawn_modal invs i inv s story public_id found =
    let opens = click_row-found invs i inv s found in (rw opens refl, rw opens refl)
