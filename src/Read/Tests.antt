-- ===== src/Read/Tests.antt =====
-- The recipients of a message to a contact and to somebody who is none, and a message in the outbox.
use anysphere_messaging.Common.{◌≡◌, refl, [], ◌∷◌, none, text, join, str_eq, true, false}
use anysphere_messaging.Types.{IncomingMessage, IncomingMaybeFriend}
use anysphere_messaging.Main.{incoming}
use anysphere_messaging.Read.{to_line, recipient_name}

abbrev arvid : IncomingMaybeFriend
arvid = record { public_id = text "zQ"; unique_name = text "arvid"; display_name = text "Arvid" }

abbrev stranger : IncomingMaybeFriend
stranger = record { public_id = text "zR"; unique_name = []; display_name = [] }

abbrev to_three : IncomingMessage
to_three = record {
  uid = 4;
  message = text "hello";
  from_unique_name = text "sualeh";
  from_display_name = text "Sualeh";
  other_recipients_list = arvid ∷ stranger ∷ [];
  delivered_at = none;
  seen = false;
  delivered = true;
}

to_line_test : to_line (incoming to_three) ≡ text "me, Arvid, zR"
unfolding to_line recipient_name text join str_eq
to_line_test = refl
