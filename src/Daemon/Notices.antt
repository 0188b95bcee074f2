-- ===== src/Daemon/Notices.antt =====
-- Which messages the user is notified of.
use anysphere_messaging.Common.{
  ◌≡◌, refl, true, false, List, [], ◌∷◌, ◌++◌, map, append-nil, append_assoc, ap, sym, ◌∙◌,
}
use anysphere_messaging.Types.{Timestamp, IncomingMessage}
use anysphere_messaging.Daemon.Schema.{new, GetMessagesRequest}
use anysphere_messaging.Daemon.Streaming.{
  StreamEvent, on_data, on_end, on_error, on_status, LogLine, Notification, notification_of,
  show_each, notify, on_event, on_events, get_messages_streamed, register_for_notifications,
}

-- The messages of a stream's batches, in order.
unfoldable pub messages_of : List StreamEvent → List IncomingMessage
messages_of [] = []
messages_of (on_data batch ∷ events) = batch ++ messages_of events
messages_of (on_end ∷ events) = messages_of events
messages_of (on_error ∷ events) = messages_of events
messages_of (on_status ∷ events) = messages_of events

-- Those after the first batch.
unfoldable pub messages_after_first : List StreamEvent → List IncomingMessage
unfolding messages_of
messages_after_first [] = []
messages_after_first (on_data _ ∷ events) = messages_of events
messages_after_first (on_end ∷ events) = messages_after_first events
messages_after_first (on_error ∷ events) = messages_after_first events
messages_after_first (on_status ∷ events) = messages_after_first events

map_append :
    (xs ys : List IncomingMessage)
    → map notification_of (xs ++ ys) ≡ map notification_of xs ++ map notification_of ys
map_append [] ys = refl
map_append (x ∷ xs) ys = ap (λ t. notification_of x ∷ t) (map_append xs ys)

show_each-map :
    (messages : List IncomingMessage) (shown : List Notification)
    → show_each messages shown ≡ shown ++ map notification_of messages
unfolding show_each
show_each-map [] shown = sym (append-nil shown)
show_each-map (m ∷ messages) shown =
    show_each-map messages (shown ++ notification_of m ∷ [])
    ∙ append_assoc shown (notification_of m ∷ []) (map notification_of messages)

on_events-later :
    (events : List StreamEvent) (shown : List Notification) (log : List LogLine)
    → (on_events notify events (record { first_time = false; shown = shown }, log)).0.shown
      ≡ shown ++ map notification_of (messages_of events)
unfolding on_events on_event notify messages_of
on_events-later [] shown log = sym (append-nil shown)
on_events-later (on_data batch ∷ events) shown log =
    rw
      (
        on_events-later events (show_each batch shown) log,
        show_each-map batch shown,
        map_append batch (messages_of events),
      )
      (append_assoc shown (map notification_of batch) (map notification_of (messages_of events)))
on_events-later (on_end ∷ events) shown log = on_events-later events shown _
on_events-later (on_error ∷ events) shown log = on_events-later events shown _
on_events-later (on_status ∷ events) shown log = on_events-later events shown _

on_events-first :
    (events : List StreamEvent) (log : List LogLine)
    → (on_events notify events (record { first_time = true; shown = [] }, log)).0.shown
      ≡ map notification_of (messages_after_first events)
unfolding on_events on_event notify messages_after_first
on_events-first [] log = refl
on_events-first (on_data batch ∷ events) log = on_events-later events [] log
on_events-first (on_end ∷ events) log = on_events-first events _
on_events-first (on_error ∷ events) log = on_events-first events _
on_events-first (on_status ∷ events) log = on_events-first events _

-- Each message of the stream after the first batch gives one notification, in order; those of the
-- first batch give none. With fake data there is none at all.
pub notifications-messages_after_first :
    (now : Timestamp) (stream : GetMessagesRequest → List StreamEvent)
    → ((register_for_notifications false now stream).0.shown
        ≡ map notification_of (messages_after_first (stream (record { filter = new }))))
      × ((register_for_notifications true now stream).0.shown ≡ [])
unfolding register_for_notifications get_messages_streamed notify
notifications-messages_after_first now stream =
    (on_events-first (stream (record { filter = new })) [], refl)
