-- ===== src/Dialog/Tests.antt =====
-- A window in which the dialog is opened, closed, and opened again for an invitation.
use anysphere_messaging.Common.{◌≡◌, refl, text, [], ◌∷◌, none, some}
use anysphere_messaging.Types.{IncomingAsyncInvitation}
use anysphere_messaging.Dialog.{
  open_dialog, on_dialog, on_dialogs, choose_remote, paste_public_id, draw, draw_remote_part_two,
}

abbrev invitation : IncomingAsyncInvitation
invitation = record { public_id = text "88Y1"; message = text "hey!"; received_at = none }

paste_test :
    draw none
      (on_dialogs (choose_remote ∷ paste_public_id (text "88Y1") ∷ []) (open_dialog none none))
    ≡ some (draw_remote_part_two [] (text "88Y1"))
unfolding draw on_dialogs on_dialog open_dialog
paste_test = refl
