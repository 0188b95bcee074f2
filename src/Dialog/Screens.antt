-- ===== src/Dialog/Screens.antt =====
-- The dialog is never in an invalid state.
use anysphere_messaging.Common.{
  ◌≡◌, ◌≢◌, sym, inl, inr, Bool-cases, arith, Bool, true, false, JsString, Option, none, some, List,
  [], ◌∷◌,
}
use mathlib.Core.Path.{subst}
use anysphere_messaging.Types.{IncomingAsyncInvitation}
use anysphere_messaging.Main.{
  MainState, Modal, add_friend, register, install_cli, remote_part_two, incoming_screen,
  SideBarButton, inbox_button, outbox_button, sent_button, add_friend_button, invitations_button,
  on_button, side_bar_callback, open_outbox, open_sent, open_friend_modal, close_modal,
  show_initial_modal, handle_incoming_invitation, Registered, registered, unregistered, failed,
  on_registered, on_register,
}
use anysphere_messaging.Dialog.{
  DialogState, open_dialog, DialogEvent, loaded, load_failed, choose_inperson, choose_remote,
  paste_public_id, on_dialog, on_dialogs, draw,
}

-- Whatever happens in it, the dialog of this modal can be drawn.
abbrev pub IsDrawable : Modal → Type 0
IsDrawable (add_friend screen invitation their_id) =
    (events : List DialogEvent)
    → draw invitation (on_dialogs events (open_dialog screen their_id)) ≢ none
IsDrawable register = Unit {0}
IsDrawable install_cli = Unit {0}

-- The operations of the main window that open and close modals.
pub data ModalAction : Type 0 where
  side_bar : SideBarButton → ModalAction
  close open_friend : ModalAction
  first_drawing : Option JsString → ModalAction
  accept_invitation : IncomingAsyncInvitation → ModalAction
  asked : Registered → ModalAction
  registering : Bool → ModalAction

unfoldable pub apply : ModalAction → MainState → MainState
apply (side_bar b) s = side_bar_callback b s
apply close s = close_modal s
apply open_friend s = open_friend_modal s
apply (first_drawing initial) s = show_initial_modal initial s
apply (accept_invitation inv) s = handle_incoming_invitation inv s
apply (asked r) s = on_registered r s
apply (registering ok) s = (on_register ok s).0

unfoldable pub apply_all : List ModalAction → MainState → MainState
unfolding apply
apply_all [] s = s
apply_all (a ∷ actions) s = apply_all actions (apply a s)

-- A screen other than the one for an invitation never leads to that one.
other_screen-draw :
    (events : List DialogEvent) (invitation : Option IncomingAsyncInvitation) (s : DialogState)
    → s.screen ≢ incoming_screen
    → draw invitation (on_dialogs events s) ≢ none
unfolding on_dialogs on_dialog draw
other_screen-draw [] invitation s h = ground arith
other_screen-draw (loaded story id ∷ events) invitation s h =
    other_screen-draw events invitation (on_dialog (loaded story id) s) h
other_screen-draw (load_failed ∷ events) invitation s h = other_screen-draw events invitation s h
other_screen-draw (choose_inperson ∷ events) invitation s h =
    other_screen-draw events invitation (on_dialog choose_inperson s) (λ e. cc)
other_screen-draw (choose_remote ∷ events) invitation s h =
    other_screen-draw events invitation (on_dialog choose_remote s) (λ e. cc)
other_screen-draw (paste_public_id id ∷ events) invitation s h =
    other_screen-draw events invitation (on_dialog (paste_public_id id) s) (λ e. cc)

with_invitation-draw :
    (events : List DialogEvent) (inv : IncomingAsyncInvitation) (s : DialogState)
    → draw (some inv) (on_dialogs events s) ≢ none
unfolding on_dialogs on_dialog draw
with_invitation-draw [] inv s = ground arith
with_invitation-draw (e ∷ events) inv s = with_invitation-draw events inv (on_dialog e s)

abbrev IsProper : Option Modal → Type 0
IsProper none = Unit {0}
IsProper (some m) = IsDrawable m

friend-IsDrawable : IsDrawable (add_friend none none none)
unfolding open_dialog
friend-IsDrawable events = other_screen-draw events none (open_dialog none none) (λ e. cc)

apply-IsProper : (a : ModalAction) (s : MainState) → IsProper s.modal → IsProper (apply a s).modal
unfolding apply side_bar_callback on_button open_outbox open_sent open_friend_modal close_modal
    show_initial_modal handle_incoming_invitation on_registered on_register open_dialog
apply-IsProper (side_bar inbox_button) s h = h
apply-IsProper (side_bar outbox_button) s h = h
apply-IsProper (side_bar sent_button) s h = h
apply-IsProper (side_bar add_friend_button) s h = friend-IsDrawable
apply-IsProper (side_bar invitations_button) s h = h
apply-IsProper close s h = tt
apply-IsProper open_friend s h = friend-IsDrawable
apply-IsProper (first_drawing none) s h = elim (Bool-cases s.has_shown_initial_modal) [
  | inl shown ↦ rw shown h
  | inr fresh ↦ rw fresh h
]
apply-IsProper (first_drawing (some id)) s h = elim (Bool-cases s.has_shown_initial_modal) [
  | inl shown ↦ rw shown h
  | inr fresh ↦ rw fresh (λ events.
      other_screen-draw events none (open_dialog (some remote_part_two) (some id)) (λ e. cc))
]
apply-IsProper (accept_invitation inv) s h =
    λ events. with_invitation-draw events inv (open_dialog (some incoming_screen) none)
apply-IsProper (asked registered) s h = h
apply-IsProper (asked unregistered) s h = tt
apply-IsProper (asked failed) s h = tt
apply-IsProper (registering true) s h = tt
apply-IsProper (registering false) s h = h

apply_all-IsProper :
    (actions : List ModalAction) (s : MainState)
    → IsProper s.modal
    → IsProper (apply_all actions s).modal
unfolding apply_all
apply_all-IsProper [] s h = h
apply_all-IsProper (a ∷ actions) s h = apply_all-IsProper actions (apply a s) (apply-IsProper a s h)

-- From a window without a modal, whatever is done in the window that opens or closes modals, the
-- modal on the screen can be drawn, and so it can after anything done in it: the error
-- "invalid state" is never thrown.
pub apply_all-IsDrawable :
    (actions : List ModalAction) (s : MainState) (m : Modal)
    → s.modal ≡ none
    → (apply_all actions s).modal ≡ some m
    → IsDrawable m
apply_all-IsDrawable actions s m h e =
    subst IsProper e (apply_all-IsProper actions s (subst IsProper (sym h) tt))
