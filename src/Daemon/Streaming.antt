-- ===== src/Daemon/Streaming.antt =====
-- `getMessagesStreamed` of client/gui/src/main/daemon.ts and the notifications that
-- `registerForNotifications` of client/gui/src/main/main.ts makes of it. The events that the gRPC
-- stream delivers, for a request, are a parameter; none comes after the stream is cancelled.
use anysphere_messaging.Common.{Bool, true, false, JsString, List, [], ◌∷◌, ◌++◌, if◌then◌else◌}
use anysphere_messaging.Types.{Timestamp, IncomingMessage}
use anysphere_messaging.Utils.{truncate}
use anysphere_messaging.Daemon.Schema.{new, GetMessagesRequest}
use anysphere_messaging.Daemon.Fakes.{fake_stream}

pub data StreamEvent : Type 0 where
  on_data : List IncomingMessage → StreamEvent
  on_end on_error on_status : StreamEvent

-- What the stream's callbacks write to the console.
pub data LogLine : Type 0 where
  handler_threw stream_ended stream_failed stream_status : LogLine

-- A message handler changes its state and may throw.
abbrev pub Handler : Type 0 → Type 0
Handler S = List IncomingMessage → S → S × Bool

-- The callbacks `call.on(...)`: what a handler throws is caught and logged.
unfoldable pub on_event :
    {S : Type 0} → Handler S → StreamEvent → S × List LogLine → S × List LogLine
on_event handler (on_data batch) (s, log) =
    let (later, threw) = handler batch s in
    (later, if threw then log ++ handler_threw ∷ [] else log)
on_event handler on_end (s, log) = (s, log ++ stream_ended ∷ [])
on_event handler on_error (s, log) = (s, log ++ stream_failed ∷ [])
on_event handler on_status (s, log) = (s, log ++ stream_status ∷ [])

unfoldable pub on_events :
    {S : Type 0} → Handler S → List StreamEvent → S × List LogLine → S × List LogLine
unfolding on_event
on_events handler [] state = state
on_events handler (e ∷ events) state = on_events handler events (on_event handler e state)

-- With fake data the handler is called once, before the function returns.
unfoldable pub get_messages_streamed :
    {S : Type 0}
    → Bool
    → Timestamp
    → (GetMessagesRequest → List StreamEvent)
    → GetMessagesRequest
    → Handler S
    → S × List LogLine
    → S × List LogLine
unfolding on_events
get_messages_streamed fake now stream request handler (s, log) =
    if fake
    then ((handler (fake_stream request.filter now) s).0, log)
    else on_events handler (stream (record { filter = request.filter })) (s, log)

pub record Notification : Type 0 where
  pub title : JsString
  pub body : JsString

pub record Notifier : Type 0 where
  pub first_time : Bool
  pub shown : List Notification

unfoldable pub notification_of : IncomingMessage → Notification
notification_of m = record { title = m.from_display_name; body = truncate m.message 50 }

unfoldable pub show_each : List IncomingMessage → List Notification → List Notification
show_each [] shown = shown
show_each (m ∷ messages) shown = show_each messages (shown ++ notification_of m ∷ [])

-- The handler of `registerForNotifications`, which does not throw.
unfoldable pub notify : Handler Notifier
notify messages n =
    if n.first_time
    then (record { first_time = false; shown = n.shown }, false)
    else (record { first_time = false; shown = show_each messages n.shown }, false)

unfoldable pub register_for_notifications :
    Bool → Timestamp → (GetMessagesRequest → List StreamEvent) → Notifier × List LogLine
unfolding get_messages_streamed notify
register_for_notifications fake now stream =
    get_messages_streamed fake now stream (record { filter = new }) notify
      (record { first_time = true; shown = [] }, [])
