-- ===== src/Daemon/Methods.antt =====
-- The methods of `DaemonImpl` that answer once. Each takes the switch `ASPHR_FAKE_DATA`, the
-- current time, the release's hash, the gRPC client and the daemon's state. The setters of a
-- request copy the fields of the argument.
use anysphere_messaging.Common.{Bool, true, JsString, text, List, none, some, if◌then◌else◌}
use anysphere_messaging.Types.{
  Timestamp, Friend, IncomingMessage, OutgoingMessage, OutgoingSyncInvitation,
  OutgoingAsyncInvitation, IncomingAsyncInvitation,
}
use anysphere_messaging.Daemon.Schema.{
  EmptyMessage, empty_message, RegisterUserRequest, PublicId, GetMyPublicIdResponse,
  IsValidPublicIdResponse, AddSyncFriendRequest, AddAsyncFriendRequest,
  AcceptAsyncInvitationRequest, RemoveFriendRequest, SendMessageRequest, GetMessagesRequest,
  MessageSeenRequest, GetStatusResponse, Method, Request, Response, Outcome, call_error,
  returned_undefined, resolved, Reply, service_error, replied, Client, register_user_call,
  get_my_public_id_call, is_valid_public_id_call, get_friend_list_call, remove_friend_call,
  add_sync_friend_call, add_async_friend_call, get_outgoing_sync_invitations_call,
  get_outgoing_async_invitations_call, get_incoming_async_invitations_call,
  accept_async_invitation_call, reject_async_invitation_call, cancel_async_invitation_call,
  send_message_call, get_messages_call, get_outbox_messages_call, get_sent_messages_call,
  message_seen_call, get_status_call,
}
use anysphere_messaging.Daemon.Fakes.{
  fake_messages, fake_outbox, fake_sent, fake_friends, fake_outgoing_sync, fake_outgoing_async,
  fake_incoming_async, fake_public_id, fake_status,
}

-- `promisify` and the test for `undefined`; `pick` reads the response.
unfoldable pub settle : {A B : Type 0} → JsString → (A → B) → Reply A → Outcome B
settle method pick (service_error code) = call_error code
settle method pick (replied none) = returned_undefined method
settle method pick (replied (some response)) = resolved (pick response)

unfoldable pub unary :
    {W B : Type 0}
    → Client W
    → (m : Method) → JsString
    → (Response m → B)
    → Request m
    → W
    → Outcome B × W
unfolding settle
unary client m method pick request w =
    let (reply, later) = client.call m request w in (settle method pick reply, later)

-- The `{}` that the caller passes to a method without fields is not read, so it is no argument here.
module _ {W : Type 0} (fake : Bool) (now : Timestamp) (hash : JsString) (client : Client W) where
  unfoldable pub send_message : SendMessageRequest → W → Outcome EmptyMessage × W
  unfolding unary text Request Response
  send_message r w =
      if fake
      then (resolved empty_message, w)
      else unary client send_message_call (text "sendMessage") (λ x. x)
          (record { unique_name_list = r.unique_name_list; message = r.message }) w

  unfoldable pub get_status : W → Outcome GetStatusResponse × W
  unfolding unary text Request Response
  get_status w =
      if fake
      then (resolved (fake_status hash), w)
      else unary client get_status_call (text "getStatus") (λ x. x) empty_message w

  unfoldable pub get_messages : GetMessagesRequest → W → Outcome (List IncomingMessage) × W
  unfolding unary text Request Response
  get_messages r w =
      if fake
      then (resolved (fake_messages r.filter now), w)
      else unary client get_messages_call (text "getMessages") (λ x. x)
          (record { filter = r.filter }) w

  unfoldable pub get_outbox_messages : W → Outcome (List OutgoingMessage) × W
  unfolding unary text Request Response
  get_outbox_messages w =
      if fake
      then (resolved (fake_outbox now), w)
      else unary client get_outbox_messages_call (text "getOutboxMessages") (λ x. x) empty_message w

  unfoldable pub get_sent_messages : W → Outcome (List OutgoingMessage) × W
  unfolding unary text Request Response
  get_sent_messages w =
      if fake
      then (resolved (fake_sent now), w)
      else unary client get_sent_messages_call (text "getSentMessages") (λ x. x) empty_message w

  unfoldable pub message_seen : MessageSeenRequest → W → Outcome EmptyMessage × W
  unfolding unary text Request Response
  message_seen r w =
      unary client message_seen_call (text "messageSeen") (λ x. x) (record { id = r.id }) w

  unfoldable pub has_registered : W → Outcome Bool × W
  unfolding unary text Request Response
  has_registered w =
      if fake
      then (resolved true, w)
      else unary client get_status_call (text "hasRegistered") (λ x. x.registered) empty_message w

  unfoldable pub register_user : RegisterUserRequest → W → Outcome EmptyMessage × W
  unfolding unary text Request Response
  register_user r w =
      unary client register_user_call (text "registerUser") (λ x. x)
        (record { name = r.name; beta_key = r.beta_key }) w

  unfoldable pub get_friend_list : W → Outcome (List Friend) × W
  unfolding unary text Request Response
  get_friend_list w =
      if fake
      then (resolved fake_friends, w)
      else unary client get_friend_list_call (text "getFriendList") (λ x. x) empty_message w

  unfoldable pub remove_friend : RemoveFriendRequest → W → Outcome EmptyMessage × W
  unfolding unary text Request Response
  remove_friend r w =
      if fake
      then (resolved empty_message, w)
      else unary client remove_friend_call (text "removeFriend") (λ x. x)
          (record { unique_name = r.unique_name }) w

  unfoldable pub add_async_friend : AddAsyncFriendRequest → W → Outcome EmptyMessage × W
  unfolding unary text Request Response
  add_async_friend r w =
      if fake
      then (resolved empty_message, w)
      else unary client add_async_friend_call (text "addAsyncFriend") (λ x. x)
          (record {
            unique_name = r.unique_name;
            display_name = r.display_name;
            public_id = r.public_id;
            message = r.message;
          })
          w

  unfoldable pub add_sync_friend : AddSyncFriendRequest → W → Outcome EmptyMessage × W
  unfolding unary text Request Response
  add_sync_friend r w =
      if fake
      then (resolved empty_message, w)
      else unary client add_sync_friend_call (text "addSyncFriend") (λ x. x)
          (record { unique_name = r.unique_name; display_name = r.display_name; story = r.story }) w

  unfoldable pub get_outgoing_sync_invitations : W → Outcome (List OutgoingSyncInvitation) × W
  unfolding unary text Request Response
  get_outgoing_sync_invitations w =
      if fake
      then (resolved (fake_outgoing_sync now), w)
      else unary client get_outgoing_sync_invitations_call (text "getOutgoingSyncInvitations")
          (λ x. x) empty_message w

  unfoldable pub get_outgoing_async_invitations : W → Outcome (List OutgoingAsyncInvitation) × W
  unfolding unary text Request Response
  get_outgoing_async_invitations w =
      if fake
      then (resolved (fake_outgoing_async now), w)
      else unary client get_outgoing_async_invitations_call (text "getOutgoingAsyncInvitations")
          (λ x. x) empty_message w

  unfoldable pub get_incoming_async_invitations : W → Outcome (List IncomingAsyncInvitation) × W
  unfolding unary text Request Response
  get_incoming_async_invitations w =
      if fake
      then (resolved (fake_incoming_async now), w)
      else unary client get_incoming_async_invitations_call (text "getIncomingAsyncInvitations")
          (λ x. x) empty_message w

  unfoldable pub accept_async_invitation :
      AcceptAsyncInvitationRequest → W → Outcome EmptyMessage × W
  unfolding unary text Request Response
  accept_async_invitation r w =
      if fake
      then (resolved empty_message, w)
      else unary client accept_async_invitation_call (text "acceptAsyncInvitation") (λ x. x)
          (record {
            public_id = r.public_id;
            unique_name = r.unique_name;
            display_name = r.display_name;
          })
          w

  unfoldable pub reject_async_invitation : PublicId → W → Outcome EmptyMessage × W
  unfolding unary text Request Response
  reject_async_invitation r w =
      if fake
      then (resolved empty_message, w)
      else unary client reject_async_invitation_call (text "rejectAsyncInvitation") (λ x. x)
          (record { public_id = r.public_id }) w

  unfoldable pub cancel_async_invitation : PublicId → W → Outcome EmptyMessage × W
  unfolding unary text Request Response
  cancel_async_invitation r w =
      if fake
      then (resolved empty_message, w)
      else unary client cancel_async_invitation_call (text "cancelAsyncInvitation") (λ x. x)
          (record { public_id = r.public_id }) w

  unfoldable pub is_valid_public_id : PublicId → W → Outcome IsValidPublicIdResponse × W
  unfolding unary text Request Response
  is_valid_public_id r w =
      if fake
      then (resolved (record { valid = true }), w)
      else unary client is_valid_public_id_call (text "isValidPublicID") (λ x. x)
          (record { public_id = r.public_id }) w

  unfoldable pub get_my_public_id : W → Outcome GetMyPublicIdResponse × W
  unfolding unary text Request Response
  get_my_public_id w =
      if fake
      then (resolved fake_public_id, w)
      else unary client get_my_public_id_call (text "getMyPublicID") (λ x. x) empty_message w
