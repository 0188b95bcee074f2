-- ===== src/Daemon/Calls.antt =====
-- The interface `Daemon` as one function, and what each of its methods does with the gRPC client.
use anysphere_messaging.Common.{text, Bool, true, false, JsString, List, none, some}
use anysphere_messaging.Types.{
  Timestamp, Friend, IncomingMessage, OutgoingMessage, OutgoingSyncInvitation,
  OutgoingAsyncInvitation, IncomingAsyncInvitation,
}
use anysphere_messaging.Daemon.Schema.{
  Response, EmptyMessage, empty_message, RegisterUserRequest, PublicId, GetMyPublicIdResponse,
  IsValidPublicIdResponse, AddSyncFriendRequest, AddAsyncFriendRequest,
  AcceptAsyncInvitationRequest, RemoveFriendRequest, SendMessageRequest, GetMessagesRequest,
  MessageSeenRequest, GetStatusResponse, Method, Request, Outcome, call_error, returned_undefined,
  resolved, Reply, service_error, replied, Client, accept_async_invitation_call,
  add_async_friend_call, add_sync_friend_call, cancel_async_invitation_call, get_friend_list_call,
  get_incoming_async_invitations_call, get_messages_call, get_my_public_id_call,
  get_outbox_messages_call, get_outgoing_async_invitations_call, get_outgoing_sync_invitations_call,
  get_sent_messages_call, get_status_call, is_valid_public_id_call, message_seen_call,
  register_user_call, reject_async_invitation_call, remove_friend_call, send_message_call,
}
use anysphere_messaging.Daemon.Methods.{
  send_message, get_status, get_messages, get_outbox_messages, get_sent_messages, message_seen,
  has_registered, register_user, get_friend_list, remove_friend, add_async_friend, add_sync_friend,
  get_outgoing_sync_invitations, get_outgoing_async_invitations, get_incoming_async_invitations,
  accept_async_invitation, reject_async_invitation, cancel_async_invitation, is_valid_public_id,
  get_my_public_id,
}

-- A method that answers once, with its argument.
pub data Operation : Type 0 where
  op_send_message : SendMessageRequest → Operation
  op_get_status : Operation
  op_get_messages : GetMessagesRequest → Operation
  op_get_outbox_messages : Operation
  op_get_sent_messages : Operation
  op_message_seen : MessageSeenRequest → Operation
  op_has_registered : Operation
  op_register_user : RegisterUserRequest → Operation
  op_get_friend_list : Operation
  op_remove_friend : RemoveFriendRequest → Operation
  op_add_async_friend : AddAsyncFriendRequest → Operation
  op_add_sync_friend : AddSyncFriendRequest → Operation
  op_get_outgoing_sync_invitations : Operation
  op_get_outgoing_async_invitations : Operation
  op_get_incoming_async_invitations : Operation
  op_accept_async_invitation : AcceptAsyncInvitationRequest → Operation
  op_reject_async_invitation : PublicId → Operation
  op_cancel_async_invitation : PublicId → Operation
  op_is_valid_public_id : PublicId → Operation
  op_get_my_public_id : Operation

unfoldable pub Answer : Operation → Type 0
Answer (op_send_message _) = EmptyMessage
Answer op_get_status = GetStatusResponse
Answer (op_get_messages _) = List IncomingMessage
Answer op_get_outbox_messages = List OutgoingMessage
Answer op_get_sent_messages = List OutgoingMessage
Answer (op_message_seen _) = EmptyMessage
Answer op_has_registered = Bool
Answer (op_register_user _) = EmptyMessage
Answer op_get_friend_list = List Friend
Answer (op_remove_friend _) = EmptyMessage
Answer (op_add_async_friend _) = EmptyMessage
Answer (op_add_sync_friend _) = EmptyMessage
Answer op_get_outgoing_sync_invitations = List OutgoingSyncInvitation
Answer op_get_outgoing_async_invitations = List OutgoingAsyncInvitation
Answer op_get_incoming_async_invitations = List IncomingAsyncInvitation
Answer (op_accept_async_invitation _) = EmptyMessage
Answer (op_reject_async_invitation _) = EmptyMessage
Answer (op_cancel_async_invitation _) = EmptyMessage
Answer (op_is_valid_public_id _) = IsValidPublicIdResponse
Answer op_get_my_public_id = GetMyPublicIdResponse

-- The methods of `DaemonImpl` behind the interface.
unfoldable pub perform :
    {W : Type 0}
    → Bool
    → Timestamp
    → JsString
    → Client W
    → (o : Operation) → W
    → Outcome (Answer o) × W
unfolding Answer
perform fake now hash client (op_send_message r) w = send_message fake now hash client r w
perform fake now hash client op_get_status w = get_status fake now hash client w
perform fake now hash client (op_get_messages r) w = get_messages fake now hash client r w
perform fake now hash client op_get_outbox_messages w = get_outbox_messages fake now hash client w
perform fake now hash client op_get_sent_messages w = get_sent_messages fake now hash client w
perform fake now hash client (op_message_seen r) w = message_seen fake now hash client r w
perform fake now hash client op_has_registered w = has_registered fake now hash client w
perform fake now hash client (op_register_user r) w = register_user fake now hash client r w
perform fake now hash client op_get_friend_list w = get_friend_list fake now hash client w
perform fake now hash client (op_remove_friend r) w = remove_friend fake now hash client r w
perform fake now hash client (op_add_async_friend r) w = add_async_friend fake now hash client r w
perform fake now hash client (op_add_sync_friend r) w = add_sync_friend fake now hash client r w
perform fake now hash client op_get_outgoing_sync_invitations w =
    get_outgoing_sync_invitations fake now hash client w
perform fake now hash client op_get_outgoing_async_invitations w =
    get_outgoing_async_invitations fake now hash client w
perform fake now hash client op_get_incoming_async_invitations w =
    get_incoming_async_invitations fake now hash client w
perform fake now hash client (op_accept_async_invitation r) w =
    accept_async_invitation fake now hash client r w
perform fake now hash client (op_reject_async_invitation r) w =
    reject_async_invitation fake now hash client r w
perform fake now hash client (op_cancel_async_invitation r) w =
    cancel_async_invitation fake now hash client r w
perform fake now hash client (op_is_valid_public_id r) w =
    is_valid_public_id fake now hash client r w
perform fake now hash client op_get_my_public_id w = get_my_public_id fake now hash client w

-- The two methods that do not ask for fake data.
unfoldable pub has_no_fake : Operation → Bool
has_no_fake (op_message_seen _) = true
has_no_fake (op_register_user _) = true
has_no_fake o = false

-- What a method must send, independently of its body: the call it is named for, `getStatus` for
-- `hasRegistered`, with the caller's own argument.
unfoldable pub method_of : Operation → Method
method_of (op_send_message _) = send_message_call
method_of op_get_status = get_status_call
method_of (op_get_messages _) = get_messages_call
method_of op_get_outbox_messages = get_outbox_messages_call
method_of op_get_sent_messages = get_sent_messages_call
method_of (op_message_seen _) = message_seen_call
method_of op_has_registered = get_status_call
method_of (op_register_user _) = register_user_call
method_of op_get_friend_list = get_friend_list_call
method_of (op_remove_friend _) = remove_friend_call
method_of (op_add_async_friend _) = add_async_friend_call
method_of (op_add_sync_friend _) = add_sync_friend_call
method_of op_get_outgoing_sync_invitations = get_outgoing_sync_invitations_call
method_of op_get_outgoing_async_invitations = get_outgoing_async_invitations_call
method_of op_get_incoming_async_invitations = get_incoming_async_invitations_call
method_of (op_accept_async_invitation _) = accept_async_invitation_call
method_of (op_reject_async_invitation _) = reject_async_invitation_call
method_of (op_cancel_async_invitation _) = cancel_async_invitation_call
method_of (op_is_valid_public_id _) = is_valid_public_id_call
method_of op_get_my_public_id = get_my_public_id_call

unfoldable pub sent_by : (o : Operation) → Request (method_of o)
unfolding method_of Request
sent_by (op_send_message r) = r
sent_by op_get_status = empty_message
sent_by (op_get_messages r) = r
sent_by op_get_outbox_messages = empty_message
sent_by op_get_sent_messages = empty_message
sent_by (op_message_seen r) = r
sent_by op_has_registered = empty_message
sent_by (op_register_user r) = r
sent_by op_get_friend_list = empty_message
sent_by (op_remove_friend r) = r
sent_by (op_add_async_friend r) = r
sent_by (op_add_sync_friend r) = r
sent_by op_get_outgoing_sync_invitations = empty_message
sent_by op_get_outgoing_async_invitations = empty_message
sent_by op_get_incoming_async_invitations = empty_message
sent_by (op_accept_async_invitation r) = r
sent_by (op_reject_async_invitation r) = r
sent_by (op_cancel_async_invitation r) = r
sent_by (op_is_valid_public_id r) = r
sent_by op_get_my_public_id = empty_message

-- The name of the method in the errors it throws.
unfoldable pub js_name : Operation → JsString
unfolding text
js_name (op_send_message _) = text "sendMessage"
js_name op_get_status = text "getStatus"
js_name (op_get_messages _) = text "getMessages"
js_name op_get_outbox_messages = text "getOutboxMessages"
js_name op_get_sent_messages = text "getSentMessages"
js_name (op_message_seen _) = text "messageSeen"
js_name op_has_registered = text "hasRegistered"
js_name (op_register_user _) = text "registerUser"
js_name op_get_friend_list = text "getFriendList"
js_name (op_remove_friend _) = text "removeFriend"
js_name (op_add_async_friend _) = text "addAsyncFriend"
js_name (op_add_sync_friend _) = text "addSyncFriend"
js_name op_get_outgoing_sync_invitations = text "getOutgoingSyncInvitations"
js_name op_get_outgoing_async_invitations = text "getOutgoingAsyncInvitations"
js_name op_get_incoming_async_invitations = text "getIncomingAsyncInvitations"
js_name (op_accept_async_invitation _) = text "acceptAsyncInvitation"
js_name (op_reject_async_invitation _) = text "rejectAsyncInvitation"
js_name (op_cancel_async_invitation _) = text "cancelAsyncInvitation"
js_name (op_is_valid_public_id _) = text "isValidPublicID"
js_name op_get_my_public_id = text "getMyPublicID"

-- What the method reads from the response: for `hasRegistered` the field `registered`.
unfoldable pub read : (o : Operation) → Response (method_of o) → Answer o
unfolding method_of Response Answer
read op_has_registered r = r.registered
read (op_send_message _) r = r
read op_get_status r = r
read (op_get_messages _) r = r
read op_get_outbox_messages r = r
read op_get_sent_messages r = r
read (op_message_seen _) r = r
read (op_register_user _) r = r
read op_get_friend_list r = r
read (op_remove_friend _) r = r
read (op_add_async_friend _) r = r
read (op_add_sync_friend _) r = r
read op_get_outgoing_sync_invitations r = r
read op_get_outgoing_async_invitations r = r
read op_get_incoming_async_invitations r = r
read (op_accept_async_invitation _) r = r
read (op_reject_async_invitation _) r = r
read (op_cancel_async_invitation _) r = r
read (op_is_valid_public_id _) r = r
read op_get_my_public_id r = r

unfoldable pub is_resolved : {A : Type 0} → Outcome A → Bool
is_resolved (resolved _) = true
is_resolved (call_error _) = false
is_resolved (returned_undefined _) = false

unfoldable pub is_response : {A : Type 0} → Reply A → Bool
is_response (replied (some _)) = true
is_response (replied none) = false
is_response (service_error _) = false
