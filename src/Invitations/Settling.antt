-- ===== src/Invitations/Settling.antt =====
-- How the list of outgoing invitations comes to rest.
use anysphere_messaging.Common.{
  ℕ, zero, suc, Option, none, List, [], ◌∷◌, ◌++◌, JsString, length, if◌then◌else◌,
}
use anysphere_messaging.Types.{OutgoingAsyncInvitation}
use anysphere_messaging.Invitations.{
  ListState, Settled, resolved, World, Event, effect, answer, cancel_settles, steps,
}

-- The event, as many times as the number says.
times : ℕ → Event → List Event
times zero e = []
times (suc n) e = e ∷ times n e

-- The pending cancellations settle, the effect runs, and the answers come.
pub settling {ℓ} : {Store : Type ℓ} → World Store → List Event
settling w =
    times (length w.cancels) cancel_settles ++ effect none ∷ times (suc (length w.answers)) answer

module _ {ℓ} {Store : Type ℓ} (listed : Store → List OutgoingAsyncInvitation)
    (cancel : JsString → Store → Store) where
  abbrev run : List Event → World Store → World Store
  run = steps listed cancel

  abbrev world :
      ListState OutgoingAsyncInvitation
      → Store
      → List (Settled (List OutgoingAsyncInvitation))
      → List (OutgoingAsyncInvitation × Option JsString)
      → World Store
  world ui store answers cancels = record {
    ui = ui;
    store = store;
    answers = answers;
    cancels = cancels;
  }

  asked_answers :
      ListState OutgoingAsyncInvitation
      → Store
      → List (Settled (List OutgoingAsyncInvitation))
      → List (Settled (List OutgoingAsyncInvitation))
  asked_answers ui store answers =
      if ui.refresh then answers ++ resolved (listed store) ∷ [] else answers
