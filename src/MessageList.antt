-- ===== src/MessageList.antt =====
-- The lists of messages (client/gui/src/renderer/components/MessageList.tsx): the merging of streamed
-- batches, the loading of outgoing messages, and the rows that the lists show.
pub mod Blurbs
pub mod Merging
pub mod Incoming
pub mod Streams
pub mod Following
pub mod Outgoing
pub mod Loading
mod Tests
use anysphere_messaging.Common.{
  ℕ, Bool, false, Option, none, some, List, [], ◌∷◌, ◌++◌, map, ltb, if◌then◌else◌,
}
use anysphere_messaging.Types.{Timestamp, IncomingMessage, OutgoingMessage}
use anysphere_messaging.Utils.{decimal}
use anysphere_messaging.SelectableList.{Row, item, ListItem}

-- What the comparison reads: the object of a timestamp, or `new Date()` in milliseconds.
pub data Time : Type 0 where
  plain : Timestamp → Time
  date : ℕ → Time

-- `a > b`. Two plain objects are both compared as the text "[object Object]", and a date and a
-- plain object as a number and NaN.
unfoldable pub is_later : Time → Time → Bool
is_later (date a) (date b) = ltb b a
is_later (plain _) _ = false
is_later (date _) (plain _) = false

-- `m.deliveredAt ?? new Date()`
unfoldable pub time_of : ℕ → IncomingMessage → Time
time_of now m = elim m.delivered_at [ none ↦ date now | some t ↦ plain t ]

-- Whether the comparison gives 1, which puts `b` in front of `a`. `clock` gives the two readings of
-- the clock in a comparison.
unfoldable pub goes_after :
    (IncomingMessage → IncomingMessage → ℕ × ℕ) → IncomingMessage → IncomingMessage → Bool
unfolding is_later time_of
goes_after clock a b =
    let a_time = time_of (clock a b).0 a in
    let b_time = time_of (clock a b).1 b in
    if is_later a_time b_time then false else is_later b_time a_time

-- `sort` with this comparison, stable as the language demands.
unfoldable pub insert :
    (IncomingMessage → IncomingMessage → ℕ × ℕ)
    → IncomingMessage
    → List IncomingMessage
    → List IncomingMessage
unfolding goes_after
insert clock m [] = m ∷ []
insert clock m (x ∷ xs) =
    let rest = insert clock m xs in if goes_after clock m x then x ∷ rest else m ∷ x ∷ xs

unfoldable pub sort :
    (IncomingMessage → IncomingMessage → ℕ × ℕ) → List IncomingMessage → List IncomingMessage
unfolding insert
sort clock [] = []
sort clock (m ∷ ms) = insert clock m (sort clock ms)

-- The handler of the stream: a batch is put in front of what is there.
unfoldable pub on_batch :
    (IncomingMessage → IncomingMessage → ℕ × ℕ)
    → List IncomingMessage
    → List IncomingMessage
    → List IncomingMessage
unfolding sort
on_batch clock messages prev = sort clock (messages ++ prev)

-- The effect: the list is emptied, then come the batches.
unfoldable pub receive_from :
    (IncomingMessage → IncomingMessage → ℕ × ℕ)
    → List IncomingMessage
    → List (List IncomingMessage)
    → List IncomingMessage
unfolding on_batch
receive_from clock shown [] = shown
receive_from clock shown (batch ∷ batches) = receive_from clock (on_batch clock batch shown) batches

unfoldable pub receive :
    (IncomingMessage → IncomingMessage → ℕ × ℕ) → List (List IncomingMessage) → List IncomingMessage
receive clock batches = receive_from clock [] batches

-- `getOutboxMessages` or `getSentMessages` settles, with `none` for a rejected promise.
unfoldable pub on_loaded :
    Option (List OutgoingMessage) → List OutgoingMessage → List OutgoingMessage
on_loaded none shown = shown
on_loaded (some messages) shown = messages

-- The rows of a list; the action of a row reads its message.
unfoldable pub incoming_rows :
    List IncomingMessage → List (Row (ListItem IncomingMessage IncomingMessage))
incoming_rows messages =
    map (λ (m : IncomingMessage). item (record { id = decimal m.uid; value = m; action = some m }))
      messages

unfoldable pub outgoing_rows :
    List OutgoingMessage → List (Row (ListItem OutgoingMessage OutgoingMessage))
outgoing_rows messages =
    map (λ (m : OutgoingMessage). item (record { id = decimal m.uid; value = m; action = some m }))
      messages
