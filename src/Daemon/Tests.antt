-- ===== src/Daemon/Tests.antt =====
-- A daemon that counts its calls and fails them, and a stream of two batches.
use anysphere_messaging.Common.{ℕ, suc, ◌≡◌, refl, true, false, JsString, text, List, [], ◌∷◌, map}
use anysphere_messaging.Common.Int.{pos}
use anysphere_messaging.Types.{Timestamp}
use anysphere_messaging.Daemon.Schema.{
  call_error, Client, Response, Method, Reply, service_error, new, GetMessagesRequest,
}
use anysphere_messaging.Daemon.Fakes.{fake_messages, first_messages}
use anysphere_messaging.Daemon.Calls.{
  op_get_status, op_get_friend_list, perform, has_no_fake, method_of, sent_by, is_resolved,
  is_response,
}
use anysphere_messaging.Daemon.CallLaws.{perform-fake, perform-call}
use anysphere_messaging.Daemon.Streaming.{
  StreamEvent, on_data, on_status, register_for_notifications, notification_of,
}
use anysphere_messaging.Daemon.Notices.{messages_after_first, notifications-messages_after_first}

abbrev now : Timestamp
now = record { seconds = pos 1650000000; nanos = pos 0 }

abbrev hash : JsString
hash = text "1b244038"

abbrev answer : (m : Method) → Reply (Response m)
answer m = service_error 14

abbrev client : Client ℕ
client = record { call = λ m request calls. (answer m, suc calls) }

perform-fake_example :
    (is_resolved ((perform true now hash client op_get_friend_list 5).0) ≡ true)
    × ((perform true now hash client op_get_friend_list 5).1 ≡ 5)
unfolding has_no_fake
perform-fake_example = perform-fake now hash client op_get_friend_list 5 refl

perform-call_example :
    ((perform false now hash client op_get_status 5).0 ≡ call_error 14)
    × (is_resolved ((perform false now hash client op_get_status 5).0)
        ≡ is_response ((client.call (method_of op_get_status) (sent_by op_get_status) 5).0))
    × ((perform false now hash client op_get_status 5).1
        ≡ (client.call (method_of op_get_status) (sent_by op_get_status) 5).1)
perform-call_example = perform-call now hash client op_get_status 5

abbrev stream : GetMessagesRequest → List StreamEvent
stream r = on_data (first_messages now) ∷ on_status ∷ on_data (fake_messages r.filter now) ∷ []

notifications-messages_after_first_example :
    ((register_for_notifications false now stream).0.shown
      ≡ map notification_of (messages_after_first (stream (record { filter = new }))))
    × ((register_for_notifications true now stream).0.shown ≡ [])
notifications-messages_after_first_example = notifications-messages_after_first now stream
