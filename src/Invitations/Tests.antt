-- ===== src/Invitations/Tests.antt =====
-- Two invitations, one of which is cancelled, and an incoming one that is clicked.
use anysphere_messaging.Common.{
  ◌≡◌, refl, false, not, none, List, [], ◌∷◌, JsString, text, str_eq, filter,
}
use anysphere_messaging.Types.{OutgoingAsyncInvitation}
use anysphere_messaging.Invitations.{
  World, Event, effect, answer, press_cancel, cancel_settles, run_effect, on_list, on_cancel,
  cancel_request, step, steps,
}
use anysphere_messaging.Invitations.Refreshing.{opening}

abbrev shengtong : OutgoingAsyncInvitation
shengtong = record {
  unique_name = text "shengtong";
  display_name = text "Shengtong";
  public_id = text "bb";
  message = text "hi";
  sent_at = none;
}

abbrev sualeh : OutgoingAsyncInvitation
sualeh = record {
  unique_name = text "sualeh";
  display_name = text "Sualeh";
  public_id = text "cc";
  message = text "hello";
  sent_at = none;
}

-- A daemon whose state is the list of its invitations.
abbrev Store : Type 0
Store = List OutgoingAsyncInvitation

abbrev listed : Store → List OutgoingAsyncInvitation
listed store = store

abbrev cancel : JsString → Store → Store
cancel id store = filter (λ inv. not (str_eq inv.public_id id)) store

abbrev both : Store
both = shengtong ∷ sualeh ∷ []

abbrev cancelling : List Event
cancelling =
    effect none ∷ answer ∷ press_cancel shengtong none ∷ cancel_settles ∷ effect none ∷ answer ∷ []

abbrev rested : World Store
rested = record {
  ui = record {
    async_invitations = sualeh ∷ [];
    refresh = false;
    statuses = text "Cancelled invitation to Shengtong." ∷ [];
  };
  store = sualeh ∷ [];
  answers = [];
  cancels = [];
}

cancelling-rested : steps listed cancel cancelling (opening both) ≡ rested
unfolding steps step run_effect on_list on_cancel cancel_request text str_eq
cancelling-rested = refl

abbrev clicked : List Event
clicked = effect none ∷ answer ∷ press_cancel shengtong none ∷ []
