-- ===== src/Invitations.antt =====
-- The tab of invitations (client/gui/src/renderer/components/Invitations.tsx): two lists, each of
-- which asks the daemon for its invitations while its flag `refresh` is set, and the button that
-- cancels an invitation and sets the flag. The daemon is a parameter: its state is of type `Store`.
pub mod Refreshing
pub mod Settling
pub mod Opening
mod Tests
use anysphere_messaging.Common.{
  Bool, true, false, Option, none, some, List, [], ◌∷◌, ◌++◌, map, JsString, text, if◌then◌else◌,
}
use anysphere_messaging.Types.{Timestamp, IncomingAsyncInvitation, OutgoingAsyncInvitation}
use anysphere_messaging.Utils.{truncate}
use anysphere_messaging.SelectableList.{Row, item, ListItem}

-- The state of one list, with the statuses that it has shown, the last one first.
pub record ListState {ℓ} (A : Type ℓ) : Type ℓ where
  pub async_invitations : List A
  pub refresh : Bool
  pub statuses : List JsString

abbrev pub mounted {ℓ} : {A : Type ℓ} → ListState A
mounted = record { async_invitations = []; refresh = true; statuses = [] }

-- How a promise of the daemon settles: with a value, or with the text of an error.
pub data Settled {ℓ} (A : Type ℓ) : Type ℓ where
  resolved : A → Settled A
  rejected : JsString → Settled A

-- The effect: the new state, and whether the daemon is asked for the list.
unfoldable pub run_effect {ℓ} : {A : Type ℓ} → ListState A → ListState A × Bool
run_effect s = if s.refresh then (record s { refresh = false }, true) else (s, false)

-- The answer to that request; `what` is the word in the message.
unfoldable pub on_list {ℓ} : {A : Type ℓ} → JsString → Settled (List A) → ListState A → ListState A
unfolding text
on_list what (resolved invitations) s = record s { async_invitations = invitations }
on_list what (rejected err) s = record s {
  statuses = (text "Failed to get " ++ (what ++ (text " async invitations: " ++ err))) ∷ s.statuses;
}

-- What Cancel sends to the daemon.
unfoldable pub cancel_request : OutgoingAsyncInvitation → JsString
cancel_request inv = inv.public_id

-- `cancelAsyncInvitation` settles.
unfoldable pub on_cancel :
    OutgoingAsyncInvitation
    → Option JsString
    → ListState OutgoingAsyncInvitation
    → ListState OutgoingAsyncInvitation
unfolding text
on_cancel inv none s = record s {
  refresh = true;
  statuses = (text "Cancelled invitation to " ++ (inv.display_name ++ text ".")) ∷ s.statuses;
}
on_cancel inv (some err) s = record s {
  statuses = (text "Failed to cancel invitation: " ++ err) ∷ s.statuses;
}

-- The rows. A click on an outgoing invitation writes it to the console only; the action of an
-- incoming one is `handleIncomingInvitation` with it.
unfoldable pub outgoing_rows :
    List OutgoingAsyncInvitation
    → List (Row (ListItem OutgoingAsyncInvitation OutgoingAsyncInvitation))
outgoing_rows invs =
    map
      (λ (inv : OutgoingAsyncInvitation).
        item (record { id = inv.unique_name; value = inv; action = some inv }))
      invs

unfoldable pub incoming_rows :
    List IncomingAsyncInvitation
    → List (Row (ListItem IncomingAsyncInvitation IncomingAsyncInvitation))
incoming_rows invs =
    map
      (λ (inv : IncomingAsyncInvitation).
        item (record { id = inv.public_id; value = inv; action = some inv }))
      invs

-- The texts of a row; `format` stands for `formatTime` of the converted date.
unfoldable pub outgoing_title : OutgoingAsyncInvitation → JsString
unfolding text
outgoing_title inv =
    text "To: " ++ (inv.display_name ++ (text " (" ++ (truncate inv.public_id 10 ++ text ")")))

unfoldable pub sent_string : (Timestamp → JsString) → OutgoingAsyncInvitation → JsString
unfolding text
sent_string format inv = elim inv.sent_at [ none ↦ text "Not yet sent." | some t ↦ format t ]

unfoldable pub received_string : (Timestamp → JsString) → IncomingAsyncInvitation → JsString
unfolding text
received_string format inv = elim inv.received_at [
  | none ↦ text "Not yet received."
  | some t ↦ format t
]

-- The text that both lists show when they are empty.
unfoldable pub empty_state {ℓ} : {A : Type ℓ} → List A → Option JsString
unfolding text
empty_state [] = some (text "No outgoing invitations.")
empty_state (_ ∷ _) = none

-- The list of outgoing invitations together with the daemon: the daemon's state, the answers on
-- their way to the list, which come in the order of the requests, and the cancellations whose
-- promises are pending, each with how it will settle.
pub record World {ℓ} (Store : Type ℓ) : Type ℓ where
  pub ui : ListState OutgoingAsyncInvitation
  pub store : Store
  pub answers : List (Settled (List OutgoingAsyncInvitation))
  pub cancels : List (OutgoingAsyncInvitation × Option JsString)

pub data Event : Type 0 where
  -- React runs the effect; `some err` says that the request will fail.
  effect : Option JsString → Event
  answer : Event
  -- The button; `some err` says that the request will fail.
  press_cancel : OutgoingAsyncInvitation → Option JsString → Event
  cancel_settles : Event

module _ {ℓ} {Store : Type ℓ} (listed : Store → List OutgoingAsyncInvitation)
    (cancel : JsString → Store → Store) where
  -- What the daemon answers to the request for the list.
  abbrev pub served : Option JsString → Store → Settled (List OutgoingAsyncInvitation)
  served none store = resolved (listed store)
  served (some err) store = rejected err

  abbrev pub cancelled : OutgoingAsyncInvitation → Option JsString → Store → Store
  cancelled inv none store = cancel (cancel_request inv) store
  cancelled inv (some err) store = store

  unfoldable pub step : Event → World Store → World Store
  unfolding run_effect on_list on_cancel text
  step (effect fails) w =
      let (ui, asks) = run_effect w.ui in
      record w {
        ui = ui;
        answers = if asks then w.answers ++ served fails w.store ∷ [] else w.answers;
      }
  step answer w = elim w.answers [
    | [] ↦ w
    | a ∷ rest ↦ record w { ui = on_list (text "outgoing") a w.ui; answers = rest }
  ]
  step (press_cancel inv fails) w = record w {
    store = cancelled inv fails w.store;
    cancels = w.cancels ++ (inv, fails) ∷ [];
  }
  step cancel_settles w = elim w.cancels [
    | [] ↦ w
    | c ∷ rest ↦ record w { ui = on_cancel c.0 c.1 w.ui; cancels = rest }
  ]

  unfoldable pub steps : List Event → World Store → World Store
  unfolding step
  steps [] w = w
  steps (e ∷ es) w = steps es (step e w)
