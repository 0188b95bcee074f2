-- ===== src/Read.antt =====
-- The tab that shows one message (client/gui/src/renderer/components/Read.tsx). Which of the two
-- kinds of message it is, the code sees by the fields that are there: `deliveredAt`,
-- `fromDisplayName` and `otherRecipientsList` are those of an incoming one, undefined or not.
-- `micromark` and the `sanitize` of DOMPurify are parameters.
pub mod Agreement
mod Tests
use anysphere_messaging.Common.{[], ◌++◌, map, JsString, str_eq, text, join, if◌then◌else◌}
use anysphere_messaging.Common.Int.{ℤ}
use anysphere_messaging.Types.{IncomingMaybeFriend, OutgoingFriend}
use anysphere_messaging.Main.{Message, incoming, outgoing}
use anysphere_messaging.MessageList.Blurbs.{time_string}

pub record Letter : Type 0 where
  pub from : JsString
  pub to : JsString
  pub timestamp : JsString
  pub html : JsString

unfoldable pub recipient_name : IncomingMaybeFriend → JsString
recipient_name r = text ", " ++ (if str_eq r.display_name [] then r.public_id else r.display_name)

unfoldable pub from_line : Message → JsString
from_line (incoming m) = m.from_display_name
from_line (outgoing m) = text "me"

unfoldable pub to_line : Message → JsString
unfolding recipient_name
to_line (incoming m) = text "me" ++ join [] (map recipient_name m.other_recipients_list)
to_line (outgoing m) =
    join (text ", ") (map (λ (f : OutgoingFriend). f.display_name) m.to_friends_list)

unfoldable pub time_line : (ℤ → JsString) → Message → JsString
unfolding time_string
time_line to_locale_string (incoming m) =
    time_string to_locale_string (text "Not yet delivered.") m.delivered_at
time_line to_locale_string (outgoing m) =
    time_string to_locale_string (text "Not yet sent.") m.sent_at

unfoldable pub body : Message → JsString
body (incoming m) = m.message
body (outgoing m) = m.message

unfoldable pub read :
    (ℤ → JsString) → (JsString → JsString) → (JsString → JsString) → Message → Letter
unfolding from_line to_line time_line body
read to_locale_string micromark sanitize m = record {
  from = from_line m;
  to = to_line m;
  timestamp = time_line to_locale_string m;
  html = sanitize (micromark (body m));
}
