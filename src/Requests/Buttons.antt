-- ===== src/Requests/Buttons.antt =====
-- What the buttons of the screens below client/gui/src/renderer/components/AddFriend are for: a
-- description of their calls and of what they say, beside the code.
use anysphere_messaging.Common.{
  ◌≡◌, ◌≢◌, ◌∷◌, ◌++◌, join, some, refl, arith, JsString, text, List, [],
}
use anysphere_messaging.Daemon.Calls.{
  Operation, op_add_sync_friend, op_add_async_friend, op_accept_async_invitation,
  op_reject_async_invitation,
}
use anysphere_messaging.AddFriend.{
  Request, add_sync_friend, add_async_friend, accept_async_invitation, reject_async_invitation,
  Outcome as Decision, called, NameForm, finish_in_person, finish_remote, accept, reject,
}
use anysphere_messaging.Requests.{operation_of, success_message, failure_message, could_not_add}

-- What the user has done to ask something of the daemon: the button that was pressed, and what the
-- screen had collected.
pub data Button : Type 0 where
  finishes_in_person : NameForm → List JsString → Button
  sends_invitation : NameForm → JsString → JsString → Button
  accepts_invitation : NameForm → JsString → Button
  removes_invitation : JsString → Button

-- What the screen's callback decides.
unfoldable pub decision_of : Button → Decision
unfolding finish_in_person finish_remote accept reject
decision_of (finishes_in_person f theirs) = finish_in_person f theirs
decision_of (sends_invitation f id content) = finish_remote f id (some content)
decision_of (accepts_invitation f id) = accept f id
decision_of (removes_invitation id) = reject id

-- The screens that name the contact need a display name.
abbrev pub IsNamed : Button → Type 0
IsNamed (finishes_in_person f theirs) = f.display_name ≢ []
IsNamed (sends_invitation f id content) = f.display_name ≢ []
IsNamed (accepts_invitation f id) = f.display_name ≢ []
IsNamed (removes_invitation id) = Unit

-- What a button is for: the method of the daemon with its fields, what the status says afterwards,
-- and what it says of an error.
pub record Deal : Type 0 where
  pub operation : Operation
  pub said : JsString
  pub complaint : JsString → JsString

unfoldable pub deal_of : Button → Deal
unfolding text
deal_of (finishes_in_person f theirs) = record {
  operation = op_add_sync_friend (record {
    unique_name = f.unique_name;
    display_name = f.display_name;
    story = join (32 ∷ []) theirs;
  });
  said = text "Added " ++ (f.display_name ++ text " as a contact.");
  complaint = λ err. text "Could not add " ++ (f.display_name ++ (text ": " ++ err));
}
deal_of (sends_invitation f id content) = record {
  operation = op_add_async_friend (record {
    unique_name = f.unique_name;
    display_name = f.display_name;
    public_id = id;
    message = content;
  });
  said = text "Sent an invitation to " ++ (f.display_name ++ text ".");
  complaint = λ err. text "Could not add " ++ (f.display_name ++ (text ": " ++ err));
}
deal_of (accepts_invitation f id) = record {
  operation =
      op_accept_async_invitation
        (record { public_id = id; unique_name = f.unique_name; display_name = f.display_name });
  said = text "Added " ++ (f.display_name ++ text ".");
  complaint = λ err. text "Could not add " ++ (f.display_name ++ (text ": " ++ err));
}
deal_of (removes_invitation id) = record {
  operation = op_reject_async_invitation (record { public_id = id });
  said = text "Rejected invitation from " ++ (id ++ text ".");
  complaint = λ err. text "Failed to reject invitation: " ++ err;
}

-- The request that is made of what the screen had collected.
abbrev pub request_of : Button → Request
request_of (finishes_in_person f theirs) =
    add_sync_friend f.unique_name f.display_name (join (32 ∷ []) theirs)
request_of (sends_invitation f id content) =
    add_async_friend f.unique_name f.display_name id content
request_of (accepts_invitation f id) = accept_async_invitation f.unique_name f.display_name id
request_of (removes_invitation id) = reject_async_invitation id

pub decision_of-called : (b : Button) → IsNamed b → decision_of b ≡ called (request_of b)
unfolding decision_of finish_in_person finish_remote accept reject
decision_of-called (finishes_in_person f theirs) h = ground arith
decision_of-called (sends_invitation f id content) h = ground arith
decision_of-called (accepts_invitation f id) h = ground arith
decision_of-called (removes_invitation id) h = refl

pub request_of-deal :
    (b : Button) (err : JsString)
    → (operation_of (request_of b) ≡ (deal_of b).operation)
      × (success_message (request_of b) ≡ (deal_of b).said)
      × (failure_message (request_of b) err ≡ (deal_of b).complaint err)
unfolding deal_of operation_of success_message failure_message could_not_add
request_of-deal (finishes_in_person f theirs) err = (refl, refl, refl)
request_of-deal (sends_invitation f id content) err = (refl, refl, refl)
request_of-deal (accepts_invitation f id) err = (refl, refl, refl)
request_of-deal (removes_invitation id) err = (refl, refl, refl)
