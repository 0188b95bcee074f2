-- ===== src/MessageList/Blurbs.antt =====
-- What the rows of the lists say (`IncomingMessageBlurb` and `OutgoingMessageBlurb` of
-- client/gui/src/renderer/components/MessageList.tsx). `to_locale_string` stands for the method of
-- `Date`, on the milliseconds of the date.
use anysphere_messaging.Common.{none, some, Option, ◌++◌, map, JsString, text, join}
use anysphere_messaging.Common.Int.{ℤ}
use anysphere_messaging.Types.{
  Timestamp, IncomingMessage, OutgoingMessage, OutgoingFriend, protobuf_date_to_date,
}
use anysphere_messaging.Utils.{truncate}
use anysphere_messaging.SelectableList.{Row, divider, item, ListItem}

pub record Blurb : Type 0 where
  pub name : JsString
  pub excerpt : JsString
  pub timestamp : JsString

-- What `onRender` draws for a row.
pub data Drawn : Type 0 where
  heading : JsString → Drawn
  blurb : Blurb → Drawn

-- `formatTime(protobufDateToDate(…))`, or the text for a date that is missing.
unfoldable pub time_string : (ℤ → JsString) → JsString → Option Timestamp → JsString
time_string to_locale_string missing none = missing
time_string to_locale_string missing (some t) = to_locale_string (protobuf_date_to_date t)

unfoldable pub incoming_blurb : (ℤ → JsString) → IncomingMessage → Blurb
incoming_blurb to_locale_string m = record {
  name = m.from_display_name;
  excerpt = truncate m.message 65;
  timestamp = time_string to_locale_string (text "Not yet delivered.") m.delivered_at;
}

unfoldable pub outgoing_blurb : (ℤ → JsString) → OutgoingMessage → Blurb
outgoing_blurb to_locale_string m = record {
  name =
      text "To: "
      ++ join (text ", ") (map (λ (f : OutgoingFriend). f.display_name) m.to_friends_list);
  excerpt = truncate m.message 65;
  timestamp = time_string to_locale_string (text "Not yet sent.") m.sent_at;
}

unfoldable pub render_incoming :
    (ℤ → JsString) → Row (ListItem IncomingMessage IncomingMessage) → Drawn
render_incoming to_locale_string (divider s) = heading s
render_incoming to_locale_string (item i) = blurb (incoming_blurb to_locale_string i.value)

unfoldable pub render_outgoing :
    (ℤ → JsString) → Row (ListItem OutgoingMessage OutgoingMessage) → Drawn
render_outgoing to_locale_string (divider s) = heading s
render_outgoing to_locale_string (item i) = blurb (outgoing_blurb to_locale_string i.value)
