-- ===== src/Read/Agreement.antt =====
-- Whether a row of a list and the tab that it opens say the same of a message.
use anysphere_messaging.Common.{
  ℕ, zero, suc, ◌+◌, ◌<◌, ◌≤◌, ◌≡◌, refl, arith, List, [], ◌∷◌, ◌++◌, map, get_elem?, some,
  JsString, text, length,
}
use anysphere_messaging.Common.Int.{ℤ, pos}
use anysphere_messaging.Types.{IncomingMessage, OutgoingMessage}
use anysphere_messaging.Main.{incoming, outgoing}
use anysphere_messaging.SelectableList.{execute}
use anysphere_messaging.Utils.Laws.{length-truncate, get_elem?-truncate}
use anysphere_messaging.MessageList.{incoming_rows, outgoing_rows}
use anysphere_messaging.MessageList.Blurbs.{
  Blurb, blurb, incoming_blurb, outgoing_blurb, render_incoming, render_outgoing,
}
use anysphere_messaging.Read.{read, body, from_line, to_line, time_line}

rendered-incoming :
    (to_locale_string : ℤ → JsString) (messages : List IncomingMessage) (i : ℕ)
    {m : IncomingMessage}
    → execute (incoming_rows messages) (pos i) ≡ some m
    → get_elem? (map (render_incoming to_locale_string) (incoming_rows messages)) i
      ≡ some (blurb (incoming_blurb to_locale_string m))
unfolding execute incoming_rows render_incoming
rendered-incoming to_locale_string [] i e = cc
rendered-incoming to_locale_string (n ∷ messages) zero e = ground arith
rendered-incoming to_locale_string (n ∷ messages) (suc i) e =
    rendered-incoming to_locale_string messages i e

rendered-outgoing :
    (to_locale_string : ℤ → JsString) (messages : List OutgoingMessage) (i : ℕ)
    {m : OutgoingMessage}
    → execute (outgoing_rows messages) (pos i) ≡ some m
    → get_elem? (map (render_outgoing to_locale_string) (outgoing_rows messages)) i
      ≡ some (blurb (outgoing_blurb to_locale_string m))
unfolding execute outgoing_rows render_outgoing
rendered-outgoing to_locale_string [] i e = cc
rendered-outgoing to_locale_string (n ∷ messages) zero e = ground arith
rendered-outgoing to_locale_string (n ∷ messages) (suc i) e =
    rendered-outgoing to_locale_string messages i e

-- If Enter on a row of an incoming list opens a message, the row shows the same sender and the same
-- time as the tab that reads the message. The row's excerpt has at most 65 characters, and those in
-- front of the dots are those of the text.
pub render_incoming-read :
    (to_locale_string : ℤ → JsString) (micromark sanitize : JsString → JsString)
    (messages : List IncomingMessage) (i k : ℕ) (m : IncomingMessage)
    → execute (incoming_rows messages) (pos i) ≡ some m
    → k + 3 < 65
    → k < length (body (incoming m))
    → let letter = read to_locale_string micromark sanitize (incoming m) in
      (b : Blurb) × (get_elem? (map (render_incoming to_locale_string) (incoming_rows messages)) i
        ≡ some (blurb b))
      × (b.name ≡ letter.from)
      × (b.timestamp ≡ letter.timestamp)
      × (length b.excerpt ≤ 65)
      × (get_elem? b.excerpt k ≡ get_elem? (body (incoming m)) k)
unfolding read body from_line time_line incoming_blurb
render_incoming-read to_locale_string micromark sanitize messages i k m e h l = (
  incoming_blurb to_locale_string m,
  rendered-incoming to_locale_string messages i e,
  refl,
  refl,
  omega (arith, length-truncate m.message 65 (omega arith)),
  get_elem?-truncate m.message 65 k h l,
)

-- If Enter on a row of the outbox or of the sent messages opens a message, the row shows "To: " and
-- the recipients of the tab that reads the message, and the same time. The row's excerpt has at
-- most 65 characters, and those in front of the dots are those of the text.
pub render_outgoing-read :
    (to_locale_string : ℤ → JsString) (micromark sanitize : JsString → JsString)
    (messages : List OutgoingMessage) (i k : ℕ) (m : OutgoingMessage)
    → execute (outgoing_rows messages) (pos i) ≡ some m
    → k + 3 < 65
    → k < length (body (outgoing m))
    → let letter = read to_locale_string micromark sanitize (outgoing m) in
      (b : Blurb) × (get_elem? (map (render_outgoing to_locale_string) (outgoing_rows messages)) i
        ≡ some (blurb b))
      × (b.name ≡ text "To: " ++ letter.to)
      × (b.timestamp ≡ letter.timestamp)
      × (length b.excerpt ≤ 65)
      × (get_elem? b.excerpt k ≡ get_elem? (body (outgoing m)) k)
unfolding read body to_line time_line outgoing_blurb
render_outgoing-read to_locale_string micromark sanitize messages i k m e h l = (
  outgoing_blurb to_locale_string m,
  rendered-outgoing to_locale_string messages i e,
  refl,
  refl,
  omega (arith, length-truncate m.message 65 (omega arith)),
  get_elem?-truncate m.message 65 k h l,
)
