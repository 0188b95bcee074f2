-- ===== src/Requests.antt =====
-- What the dialogs ask of the daemon, from the button to the gRPC call and back to the window: the
-- screens below client/gui/src/renderer/components/AddFriend, RegisterModal.tsx and the dialog for
-- registering of client/gui/src/renderer/Main.tsx, the bridge of client/gui/src/main/preload.ts, and
-- the daemon's client. `describe` is the text of an error in a template string.
pub mod Buttons
pub mod Settling
pub mod Register
pub mod Registering
mod Tests
use anysphere_messaging.Common.{ℕ, Bool, true, false, JsString, text, ◌++◌, Option, none, some}
use anysphere_messaging.Types.{Timestamp}
use anysphere_messaging.Daemon.Schema.{Client, Outcome}
use anysphere_messaging.Daemon.Calls.{
  Operation, op_add_sync_friend, op_add_async_friend, op_accept_async_invitation,
  op_reject_async_invitation, op_register_user, Answer, perform, is_resolved,
}
use anysphere_messaging.AddFriend.{
  Request, add_sync_friend, add_async_friend, accept_async_invitation, reject_async_invitation,
  Outcome as Decision, refused, called,
}
use anysphere_messaging.Status.{StatusState, show}
use anysphere_messaging.Main.{MainState, close_modal, on_register}

-- The bridge gives the method of `DaemonImpl` with the same name the same argument.
unfoldable pub operation_of : Request → Operation
operation_of (add_sync_friend unique display story) =
    op_add_sync_friend (record { unique_name = unique; display_name = display; story = story })
operation_of (add_async_friend unique display id message) =
    op_add_async_friend
      (record { unique_name = unique; display_name = display; public_id = id; message = message })
operation_of (accept_async_invitation unique display id) =
    op_accept_async_invitation
      (record { public_id = id; unique_name = unique; display_name = display })
operation_of (reject_async_invitation id) = op_reject_async_invitation (record { public_id = id })

-- What the screen's status says in `then`.
unfoldable pub success_message : Request → JsString
unfolding text
success_message (add_sync_friend _ display _) = text "Added " ++ (display ++ text " as a contact.")
success_message (add_async_friend _ display _ _) =
    text "Sent an invitation to " ++ (display ++ text ".")
success_message (accept_async_invitation _ display _) = text "Added " ++ (display ++ text ".")
success_message (reject_async_invitation id) = text "Rejected invitation from " ++ (id ++ text ".")

unfoldable pub could_not_add : JsString → JsString → JsString
unfolding text
could_not_add display err = text "Could not add " ++ (display ++ (text ": " ++ err))

-- What it says in `catch`.
unfoldable pub failure_message : Request → JsString → JsString
unfolding could_not_add text
failure_message (add_sync_friend _ display _) err = could_not_add display err
failure_message (add_async_friend _ display _ _) err = could_not_add display err
failure_message (accept_async_invitation _ display _) err = could_not_add display err
failure_message (reject_async_invitation _) err = text "Failed to reject invitation: " ++ err

-- The window, its status line and the daemon.
pub record ClientState (W : Type 0) : Type 0 where
  pub main : MainState
  pub status : StatusState
  pub daemon : W

-- The promise settles at the time `now`.
unfoldable pub on_settled :
    {W A : Type 0}
    → (Outcome A → JsString)
    → ℕ
    → Request
    → Outcome A × W
    → ClientState W
    → ClientState W
unfolding success_message failure_message close_modal show
on_settled describe now r (o, daemon) s = elim (is_resolved o) [
  | true ↦ record {
    main = close_modal s.main;
    status = show now (success_message r) s.status;
    daemon = daemon;
  }
  | false ↦ record {
    main = s.main;
    status = show now (failure_message r (describe o)) s.status;
    daemon = daemon;
  }
]

-- The button of a screen, with what its callback decides: where it calls the daemon, the request of
-- the promise. The callbacks of the promise keep the window's functions, and the state changes that
-- they make are those of the time at which it settles.
unfoldable pub press : {W : Type 0} → ℕ → Decision → ClientState W → ClientState W × Option Request
unfolding show
press now (refused message) s = (record s { status = show now message s.status }, none)
press now (called r) s = (s, some r)

module _ {W : Type 0} (fake : Bool) (started : Timestamp) (hash : JsString)
    (client : Client W) where
  -- The promise of a request settles; the daemon does the request at that time.
  unfoldable pub settle :
      ((o : Operation) → Outcome (Answer o) → JsString)
      → ℕ
      → Request
      → ClientState W
      → ClientState W
  unfolding operation_of on_settled
  settle describe now r s =
      let o = operation_of r in
      on_settled (describe o) now r (perform fake started hash client o s.daemon) s

  -- The promise of the button Register: the name is the constant `"No Name"`.
  unfoldable pub settle_register : ℕ → JsString → ClientState W → ClientState W
  unfolding on_register show text
  settle_register now key s =
      let o = op_register_user (record { name = text "No Name"; beta_key = key }) in
      let (outcome, daemon) = perform fake started hash client o s.daemon in
      let (main, message) = on_register (is_resolved outcome) s.main in
      record { main = main; status = show now message s.status; daemon = daemon }
