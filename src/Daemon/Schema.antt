-- ===== src/Daemon/Schema.antt =====
-- The calls of the daemon: the requests and responses of
-- client/gui/src/daemon/schema/daemon_pb.d.ts as objects, and the gRPC client, which is not code of
-- the repository: any function from a call, its request and the daemon's state to a reply.
use anysphere_messaging.Common.{ℕ, Bool, JsString, List, Option}
use anysphere_messaging.Types.{
  Friend, IncomingMessage, OutgoingMessage, OutgoingSyncInvitation, OutgoingAsyncInvitation,
  IncomingAsyncInvitation,
}

-- The object `{}` of a message without fields.
pub data EmptyMessage : Type 0 where
  empty_message : EmptyMessage

pub record RegisterUserRequest : Type 0 where
  pub name : JsString
  pub beta_key : JsString

pub record PublicId : Type 0 where
  pub public_id : JsString

pub record GetMyPublicIdResponse : Type 0 where
  pub public_id : JsString
  pub story : JsString

pub record IsValidPublicIdResponse : Type 0 where
  pub valid : Bool

pub record AddSyncFriendRequest : Type 0 where
  pub unique_name : JsString
  pub display_name : JsString
  pub story : JsString

pub record AddAsyncFriendRequest : Type 0 where
  pub unique_name : JsString
  pub display_name : JsString
  pub public_id : JsString
  pub message : JsString

pub record AcceptAsyncInvitationRequest : Type 0 where
  pub public_id : JsString
  pub unique_name : JsString
  pub display_name : JsString

pub record RemoveFriendRequest : Type 0 where
  pub unique_name : JsString

pub record SendMessageRequest : Type 0 where
  pub unique_name_list : List JsString
  pub message : JsString

pub data Filter : Type 0 where
  all new : Filter

pub record GetMessagesRequest : Type 0 where
  pub filter : Filter

pub record MessageSeenRequest : Type 0 where
  pub id : ℕ

pub record GetStatusResponse : Type 0 where
  pub registered : Bool
  pub release_hash : JsString
  pub latency_seconds : ℕ
  pub server_address : JsString

-- The calls that answer once.
pub data Method : Type 0 where
  register_user_call get_my_public_id_call is_valid_public_id_call get_friend_list_call
        remove_friend_call :
      Method
  add_sync_friend_call add_async_friend_call : Method
  get_outgoing_sync_invitations_call get_outgoing_async_invitations_call : Method
  get_incoming_async_invitations_call : Method
  accept_async_invitation_call reject_async_invitation_call cancel_async_invitation_call : Method
  send_message_call get_messages_call get_outbox_messages_call get_sent_messages_call
        message_seen_call get_status_call :
      Method

unfoldable pub Request : Method → Type 0
Request register_user_call = RegisterUserRequest
Request is_valid_public_id_call = PublicId
Request remove_friend_call = RemoveFriendRequest
Request add_sync_friend_call = AddSyncFriendRequest
Request add_async_friend_call = AddAsyncFriendRequest
Request accept_async_invitation_call = AcceptAsyncInvitationRequest
Request reject_async_invitation_call = PublicId
Request cancel_async_invitation_call = PublicId
Request send_message_call = SendMessageRequest
Request get_messages_call = GetMessagesRequest
Request message_seen_call = MessageSeenRequest
Request get_my_public_id_call = EmptyMessage
Request get_friend_list_call = EmptyMessage
Request get_outgoing_sync_invitations_call = EmptyMessage
Request get_outgoing_async_invitations_call = EmptyMessage
Request get_incoming_async_invitations_call = EmptyMessage
Request get_outbox_messages_call = EmptyMessage
Request get_sent_messages_call = EmptyMessage
Request get_status_call = EmptyMessage

unfoldable pub Response : Method → Type 0
Response register_user_call = EmptyMessage
Response is_valid_public_id_call = IsValidPublicIdResponse
Response remove_friend_call = EmptyMessage
Response add_sync_friend_call = EmptyMessage
Response add_async_friend_call = EmptyMessage
Response accept_async_invitation_call = EmptyMessage
Response reject_async_invitation_call = EmptyMessage
Response cancel_async_invitation_call = EmptyMessage
Response send_message_call = EmptyMessage
Response get_messages_call = List IncomingMessage
Response message_seen_call = EmptyMessage
Response get_my_public_id_call = GetMyPublicIdResponse
Response get_friend_list_call = List Friend
Response get_outgoing_sync_invitations_call = List OutgoingSyncInvitation
Response get_outgoing_async_invitations_call = List OutgoingAsyncInvitation
Response get_incoming_async_invitations_call = List IncomingAsyncInvitation
Response get_outbox_messages_call = List OutgoingMessage
Response get_sent_messages_call = List OutgoingMessage
Response get_status_call = GetStatusResponse

-- A settled promise: rejected with the error of the call, by its code, or with the error that the
-- code throws for a missing response.
pub data Outcome {ℓ} (A : Type ℓ) : Type ℓ where
  call_error : ℕ → Outcome A
  returned_undefined : JsString → Outcome A
  resolved : A → Outcome A

pub data Reply {ℓ} (A : Type ℓ) : Type ℓ where
  service_error : ℕ → Reply A
  replied : Option A → Reply A

pub record Client (W : Type 0) : Type 0 where
  pub call : (m : Method) → Request m → W → Reply (Response m) × W
