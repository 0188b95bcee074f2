-- ===== src/MessageList/Merging.antt =====
-- In which order the messages are shown, and which one a row reads.
use anysphere_messaging.Common.{
  ℕ, zero, suc, ◌≡◌, ◌≢◌, refl, sym, ◌∙◌, arith, none, List, [], ◌∷◌, ◌++◌, All, All-append,
  append-nil, append_assoc, get_elem?,
}
use anysphere_messaging.Common.Int.{pos}
use anysphere_messaging.Types.{IncomingMessage}
use anysphere_messaging.SelectableList.{execute}
use anysphere_messaging.MessageList.{
  is_later, time_of, goes_after, insert, sort, on_batch, receive_from, receive, incoming_rows,
}

abbrev pub IsDelivered : IncomingMessage → Type 0
IsDelivered m = m.delivered_at ≢ none

-- The batches, the last one first.
abbrev pub arrival : List (List IncomingMessage) → List IncomingMessage
arrival [] = []
arrival (batch ∷ batches) = arrival batches ++ batch

insert-delivered :
    (clock : IncomingMessage → IncomingMessage → ℕ × ℕ) (m : IncomingMessage)
    (xs : List IncomingMessage)
    → IsDelivered m
    → insert clock m xs ≡ m ∷ xs
unfolding insert goes_after time_of is_later
insert-delivered clock m [] h = refl
insert-delivered clock m (x ∷ xs) h = ground arith

sort-delivered :
    (clock : IncomingMessage → IncomingMessage → ℕ × ℕ) (xs : List IncomingMessage)
    → All IsDelivered xs
    → sort clock xs ≡ xs
unfolding sort
sort-delivered clock [] h = refl
sort-delivered clock (m ∷ xs) (p, h) =
    rw (sort-delivered clock xs h) (insert-delivered clock m xs p)

receive_from-arrival :
    (clock : IncomingMessage → IncomingMessage → ℕ × ℕ) (shown : List IncomingMessage)
    (batches : List (List IncomingMessage))
    → All IsDelivered shown
    → All (λ batch. All IsDelivered batch) batches
    → receive_from clock shown batches ≡ arrival batches ++ shown
unfolding receive_from on_batch
receive_from-arrival clock shown [] h k = refl
receive_from-arrival clock shown (batch ∷ batches) h (p, k) =
    rw (sort-delivered clock (batch ++ shown) (All-append IsDelivered batch shown p h)) (
      receive_from-arrival clock (batch ++ shown) batches (All-append IsDelivered batch shown p h) k
      ∙ sym (append_assoc (arrival batches) batch shown))

-- If every message has its time of delivery, the list shows the batches as they came, the last one
-- first, whatever the times are: the comparison of the times never orders two messages.
pub receive-arrival :
    (clock : IncomingMessage → IncomingMessage → ℕ × ℕ) (batches : List (List IncomingMessage))
    → All (λ batch. All IsDelivered batch) batches
    → receive clock batches ≡ arrival batches
unfolding receive
receive-arrival clock batches h =
    receive_from-arrival clock [] batches tt h ∙ append-nil (arrival batches)

-- Enter on the row at an index reads the message at that index, and nothing out of range.
pub execute-incoming_rows :
    (messages : List IncomingMessage) (i : ℕ)
    → execute (incoming_rows messages) (pos i) ≡ get_elem? messages i
unfolding execute incoming_rows
execute-incoming_rows [] i = refl
execute-incoming_rows (m ∷ messages) zero = refl
execute-incoming_rows (m ∷ messages) (suc i) = execute-incoming_rows messages i
