-- ===== src/MessageList/Tests.antt =====
-- Two batches, the later one with the older message.
use anysphere_messaging.Common.{
  ℕ, ◌≡◌, ◌≢◌, arith, map, refl, true, false, text, List, [], ◌∷◌, none, some,
}
use anysphere_messaging.Common.Int.{pos}
use anysphere_messaging.Types.{IncomingMessage, OutgoingMessage}
use anysphere_messaging.Daemon.Schema.{new, all}
use anysphere_messaging.MessageList.Incoming.{Stream, nothing_shown, show, deliver}
use anysphere_messaging.MessageList.Following.{
  ListEvent, draws, delivers, batches_of, run, run-batches_of,
}
use anysphere_messaging.MessageList.Outgoing.{
  OutgoingType, outbox, sent, show as show_outgoing, answer, nothing_shown as unshown,
}
use anysphere_messaging.MessageList.Loading.{
  Orderly, draws_list, oldest_answered, answer_oldest, run_orderly, run_orderly-messages,
}
use anysphere_messaging.MessageList.{receive, on_loaded}
use anysphere_messaging.MessageList.Merging.{arrival, receive-arrival}

abbrev at : ℕ → ℕ → IncomingMessage
at n s = record {
  uid = n;
  message = text "hello";
  from_unique_name = text "sualeh";
  from_display_name = text "Sualeh";
  other_recipients_list = [];
  delivered_at = some (record { seconds = pos s; nanos = pos 0 });
  seen = false;
  delivered = true;
}

abbrev clock : IncomingMessage → IncomingMessage → ℕ × ℕ
clock a b = (0, 1)

abbrev batches : List (List IncomingMessage)
batches = (at 1 2000 ∷ []) ∷ (at 2 1000 ∷ at 3 3000 ∷ []) ∷ []

receive-arrival_example : receive clock batches ≡ arrival batches
receive-arrival_example =
    receive-arrival clock batches (((λ e. cc), tt), (((λ e. cc), ((λ e. cc), tt)), tt))

-- The tab New is shown and gets a message; then All is shown, and the stream of New delivers once
-- more before that of All does.
abbrev shown_before : List ListEvent
shown_before = draws (some new) ∷ delivers 0 (at 1 2000 ∷ []) ∷ []

abbrev delivered_after : List ListEvent
delivered_after = delivers 0 (at 2 1000 ∷ []) ∷ delivers 1 (at 3 3000 ∷ []) ∷ []

new-shown : (run clock shown_before nothing_shown).shown ≢ some all
unfolding run show deliver
new-shown = ground arith

run-batches_of_example :
    let s = run clock shown_before nothing_shown in
    let u = run clock delivered_after (show (some all) s) in
    (u.shown ≡ some all)
    × (u.messages ≡ receive clock (batches_of s.opened delivered_after))
    × (map (λ (x : Stream). x.number) u.streams ≡ s.opened ∷ [])
    × ((show none u).streams ≡ [])
run-batches_of_example = run-batches_of clock shown_before delivered_after all new-shown refl

-- The daemon has one message in the outbox and none that is sent.
abbrev waiting : OutgoingMessage
waiting = record { uid = 7; message = text "hello"; to_friends_list = []; sent_at = none }

abbrev lists : OutgoingType → List OutgoingMessage
lists outbox = waiting ∷ []
lists sent = []

abbrev orderly : List Orderly
orderly = draws_list (some outbox) ∷ draws_list (some sent) ∷ oldest_answered ∷ oldest_answered ∷ []

run_orderly-messages_example : (run_orderly lists orderly unshown).messages ≡ lists sent
unfolding run_orderly show_outgoing answer_oldest answer on_loaded
run_orderly-messages_example = run_orderly-messages lists orderly sent refl refl
