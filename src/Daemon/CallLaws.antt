-- ===== src/Daemon/CallLaws.antt =====
-- What the methods of the interface `Daemon` do with the gRPC client.
use anysphere_messaging.Common.{true, false, JsString, none, some, ◌≡◌, refl}
use anysphere_messaging.Types.{Timestamp}
use anysphere_messaging.Daemon.Schema.{
  call_error, returned_undefined, resolved, Reply, service_error, replied, Client,
}
use anysphere_messaging.Daemon.Methods.{
  settle, unary, send_message, get_status, get_messages, get_outbox_messages, get_sent_messages,
  message_seen, has_registered, register_user, get_friend_list, remove_friend, add_async_friend,
  add_sync_friend, get_outgoing_sync_invitations, get_outgoing_async_invitations,
  get_incoming_async_invitations, accept_async_invitation, reject_async_invitation,
  cancel_async_invitation, is_valid_public_id, get_my_public_id,
}
use anysphere_messaging.Daemon.Calls.{
  Operation, op_send_message, op_get_status, op_get_messages, op_get_outbox_messages,
  op_get_sent_messages, op_message_seen, op_has_registered, op_register_user, op_get_friend_list,
  op_remove_friend, op_add_async_friend, op_add_sync_friend, op_get_outgoing_sync_invitations,
  op_get_outgoing_async_invitations, op_get_incoming_async_invitations, op_accept_async_invitation,
  op_reject_async_invitation, op_cancel_async_invitation, op_is_valid_public_id,
  op_get_my_public_id, perform, has_no_fake, method_of, sent_by, is_resolved, is_response, js_name,
  read,
}

settle-is_resolved :
    {A B : Type 0} (name : JsString) (pick : A → B) (r : Reply A)
    → is_resolved (settle name pick r) ≡ is_response r
unfolding settle is_resolved is_response
settle-is_resolved name pick (service_error code) = refl
settle-is_resolved name pick (replied none) = refl
settle-is_resolved name pick (replied (some x)) = refl

-- With fake data, every method but `messageSeen` and `registerUser` resolves, whatever the client
-- and the daemon are, and leaves the daemon alone.
pub perform-fake :
    {W : Type 0} (now : Timestamp) (hash : JsString) (client : Client W) (o : Operation) (w : W)
    → has_no_fake o ≡ false
    → (is_resolved ((perform true now hash client o w).0) ≡ true)
      × ((perform true now hash client o w).1 ≡ w)
unfolding has_no_fake perform is_resolved send_message get_status get_messages get_outbox_messages
    get_sent_messages message_seen has_registered register_user get_friend_list remove_friend
    add_async_friend add_sync_friend get_outgoing_sync_invitations get_outgoing_async_invitations
    get_incoming_async_invitations accept_async_invitation reject_async_invitation
    cancel_async_invitation is_valid_public_id get_my_public_id
perform-fake now hash client (op_send_message r) w h = (refl, refl)
perform-fake now hash client op_get_status w h = (refl, refl)
perform-fake now hash client (op_get_messages r) w h = (refl, refl)
perform-fake now hash client op_get_outbox_messages w h = (refl, refl)
perform-fake now hash client op_get_sent_messages w h = (refl, refl)
perform-fake now hash client (op_message_seen r) w h = cc
perform-fake now hash client op_has_registered w h = (refl, refl)
perform-fake now hash client (op_register_user r) w h = cc
perform-fake now hash client op_get_friend_list w h = (refl, refl)
perform-fake now hash client (op_remove_friend r) w h = (refl, refl)
perform-fake now hash client (op_add_async_friend r) w h = (refl, refl)
perform-fake now hash client (op_add_sync_friend r) w h = (refl, refl)
perform-fake now hash client op_get_outgoing_sync_invitations w h = (refl, refl)
perform-fake now hash client op_get_outgoing_async_invitations w h = (refl, refl)
perform-fake now hash client op_get_incoming_async_invitations w h = (refl, refl)
perform-fake now hash client (op_accept_async_invitation r) w h = (refl, refl)
perform-fake now hash client (op_reject_async_invitation r) w h = (refl, refl)
perform-fake now hash client (op_cancel_async_invitation r) w h = (refl, refl)
perform-fake now hash client (op_is_valid_public_id r) w h = (refl, refl)
perform-fake now hash client op_get_my_public_id w h = (refl, refl)

settle-elim :
    {A B : Type 0} (name : JsString) (pick : A → B) (r : Reply A)
    → settle name pick r ≡ elim r [
      | service_error code ↦ call_error code
      | replied none ↦ returned_undefined name
      | replied (some x) ↦ resolved (pick x)
    ]
unfolding settle
settle-elim name pick (service_error code) = refl
settle-elim name pick (replied none) = refl
settle-elim name pick (replied (some x)) = refl

-- Without fake data, every method makes exactly the one call that it is named for, with the
-- caller's argument: the daemon ends in the state that call leaves. The method resolves exactly if
-- the call brought a response, with what it reads from that; it is rejected with the call's error,
-- or with an error of its own name if the response is missing.
pub perform-call :
    {W : Type 0} (now : Timestamp) (hash : JsString) (client : Client W) (o : Operation) (w : W)
    → ((perform false now hash client o w).0 ≡ elim (client.call (method_of o) (sent_by o) w).0 [
      | service_error code ↦ call_error code
      | replied none ↦ returned_undefined (js_name o)
      | replied (some r) ↦ resolved (read o r)
    ])
      × (is_resolved ((perform false now hash client o w).0)
          ≡ is_response ((client.call (method_of o) (sent_by o) w).0))
      × ((perform false now hash client o w).1 ≡ (client.call (method_of o) (sent_by o) w).1)
unfolding perform method_of sent_by js_name read unary send_message get_status get_messages
    get_outbox_messages get_sent_messages message_seen has_registered register_user get_friend_list
    remove_friend add_async_friend add_sync_friend get_outgoing_sync_invitations
    get_outgoing_async_invitations get_incoming_async_invitations accept_async_invitation
    reject_async_invitation cancel_async_invitation is_valid_public_id get_my_public_id
perform-call now hash client (op_send_message r) w =
    (settle-elim _ _ _, settle-is_resolved _ _ _, refl)
perform-call now hash client op_get_status w = (settle-elim _ _ _, settle-is_resolved _ _ _, refl)
perform-call now hash client (op_get_messages r) w =
    (settle-elim _ _ _, settle-is_resolved _ _ _, refl)
perform-call now hash client op_get_outbox_messages w =
    (settle-elim _ _ _, settle-is_resolved _ _ _, refl)
perform-call now hash client op_get_sent_messages w =
    (settle-elim _ _ _, settle-is_resolved _ _ _, refl)
perform-call now hash client (op_message_seen r) w =
    (settle-elim _ _ _, settle-is_resolved _ _ _, refl)
perform-call now hash client op_has_registered w =
    (settle-elim _ _ _, settle-is_resolved _ _ _, refl)
perform-call now hash client (op_register_user r) w =
    (settle-elim _ _ _, settle-is_resolved _ _ _, refl)
perform-call now hash client op_get_friend_list w =
    (settle-elim _ _ _, settle-is_resolved _ _ _, refl)
perform-call now hash client (op_remove_friend r) w =
    (settle-elim _ _ _, settle-is_resolved _ _ _, refl)
perform-call now hash client (op_add_async_friend r) w =
    (settle-elim _ _ _, settle-is_resolved _ _ _, refl)
perform-call now hash client (op_add_sync_friend r) w =
    (settle-elim _ _ _, settle-is_resolved _ _ _, refl)
perform-call now hash client op_get_outgoing_sync_invitations w =
    (settle-elim _ _ _, settle-is_resolved _ _ _, refl)
perform-call now hash client op_get_outgoing_async_invitations w =
    (settle-elim _ _ _, settle-is_resolved _ _ _, refl)
perform-call now hash client op_get_incoming_async_invitations w =
    (settle-elim _ _ _, settle-is_resolved _ _ _, refl)
perform-call now hash client (op_accept_async_invitation r) w =
    (settle-elim _ _ _, settle-is_resolved _ _ _, refl)
perform-call now hash client (op_reject_async_invitation r) w =
    (settle-elim _ _ _, settle-is_resolved _ _ _, refl)
perform-call now hash client (op_cancel_async_invitation r) w =
    (settle-elim _ _ _, settle-is_resolved _ _ _, refl)
perform-call now hash client (op_is_valid_public_id r) w =
    (settle-elim _ _ _, settle-is_resolved _ _ _, refl)
perform-call now hash client op_get_my_public_id w =
    (settle-elim _ _ _, settle-is_resolved _ _ _, refl)

-- `messageSeen` and `registerUser` call the daemon with fake data too, as without.
pub perform-unguarded :
    {W : Type 0} (now : Timestamp) (hash : JsString) (client : Client W) (o : Operation) (w : W)
    → has_no_fake o ≡ true
    → perform true now hash client o w ≡ perform false now hash client o w
unfolding has_no_fake perform send_message get_status get_messages get_outbox_messages
    get_sent_messages message_seen has_registered register_user get_friend_list remove_friend
    add_async_friend add_sync_friend get_outgoing_sync_invitations get_outgoing_async_invitations
    get_incoming_async_invitations accept_async_invitation reject_async_invitation
    cancel_async_invitation is_valid_public_id get_my_public_id
perform-unguarded now hash client (op_send_message r) w h = cc
perform-unguarded now hash client op_get_status w h = cc
perform-unguarded now hash client (op_get_messages r) w h = cc
perform-unguarded now hash client op_get_outbox_messages w h = cc
perform-unguarded now hash client op_get_sent_messages w h = cc
perform-unguarded now hash client (op_message_seen r) w h = refl
perform-unguarded now hash client op_has_registered w h = cc
perform-unguarded now hash client (op_register_user r) w h = refl
perform-unguarded now hash client op_get_friend_list w h = cc
perform-unguarded now hash client (op_remove_friend r) w h = cc
perform-unguarded now hash client (op_add_async_friend r) w h = cc
perform-unguarded now hash client (op_add_sync_friend r) w h = cc
perform-unguarded now hash client op_get_outgoing_sync_invitations w h = cc
perform-unguarded now hash client op_get_outgoing_async_invitations w h = cc
perform-unguarded now hash client op_get_incoming_async_invitations w h = cc
perform-unguarded now hash client (op_accept_async_invitation r) w h = cc
perform-unguarded now hash client (op_reject_async_invitation r) w h = cc
perform-unguarded now hash client (op_cancel_async_invitation r) w h = cc
perform-unguarded now hash client (op_is_valid_public_id r) w h = cc
perform-unguarded now hash client op_get_my_public_id w h = cc
