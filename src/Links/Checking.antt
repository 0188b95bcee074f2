-- ===== src/Links/Checking.antt =====
-- The field for another's link while the daemon checks what was pasted: the effect of
-- client/gui/src/renderer/components/AddFriend/AddFriendRemote.tsx starts a check for each text, and
-- no check is ever given up. The answers come in any order, also when the dialog has gone on
-- (client/gui/src/renderer/components/AddFriend/AddFriend.tsx). `is_valid` is what the daemon
-- answers for an id.
use anysphere_messaging.Common.{
  ℕ, JsString, text, str_eq, none, some, List, [], ◌∷◌, ◌++◌, get_elem?, remove_at, if◌then◌else◌,
}
use anysphere_messaging.Main.{remote}
use anysphere_messaging.Dialog.{DialogState, on_dialog, paste_public_id}
use anysphere_messaging.Links.{pasted_id, Validity, valid, invalid, check_failed}

pub record RemoteState : Type 0 where
  pub their_id : JsString
  -- The ids whose checks are not answered yet.
  pub checks : List JsString
  pub dialog : DialogState
  -- The messages that `setStatus` was given, the last one first.
  pub statuses : List JsString

-- The effect on a text of the field.
unfoldable pub on_text : JsString → RemoteState → RemoteState
unfolding pasted_id
on_text value s = elim (pasted_id value) [
  | [] ↦ record s { their_id = value }
  | c ∷ cs ↦ record s { their_id = value; checks = s.checks ++ (c ∷ cs) ∷ [] }
]

-- The field is there on the screen Remote only; a text that is the same starts no effect.
unfoldable pub type_text : JsString → RemoteState → RemoteState
unfolding on_text
type_text value s = elim s.dialog.screen [
  | remote ↦ if str_eq value s.their_id then s else on_text value s
  | _ ↦ s
]

unfoldable pub redraw : RemoteState → RemoteState
unfolding on_text
redraw s = elim s.dialog.screen [ remote ↦ on_text s.their_id s | _ ↦ s ]

-- What `then` and `catch` do with the answer for an id.
unfoldable pub on_validity : Validity → JsString → RemoteState → RemoteState
unfolding on_dialog text
on_validity valid id s = record s { dialog = on_dialog (paste_public_id id) s.dialog }
on_validity invalid id s = s
on_validity (check_failed err) id s = record s {
  statuses = (text "Failed to check if public ID is valid: " ++ err) ∷ s.statuses;
}

pub data RemoteEvent : Type 0 where
  types : JsString → RemoteEvent
  -- The check at a position is answered.
  answers : ℕ → RemoteEvent
  -- The dialog is drawn again, as when the user's own id arrives: its callback is a new one, so the
  -- effect runs again.
  redraws : RemoteEvent

module _ (is_valid : JsString → Validity) where
  unfoldable pub answer : ℕ → RemoteState → RemoteState
  unfolding on_validity
  answer i s = elim (get_elem? s.checks i) [
    | none ↦ s
    | some id ↦ on_validity (is_valid id) id (record s { checks = remove_at i s.checks })
  ]

  unfoldable pub step : RemoteEvent → RemoteState → RemoteState
  unfolding type_text answer redraw
  step (types value) s = type_text value s
  step (answers i) s = answer i s
  step redraws s = redraw s

  unfoldable pub run : List RemoteEvent → RemoteState → RemoteState
  unfolding step
  run [] s = s
  run (e ∷ events) s = run events (step e s)

-- The screen Remote, before anything is typed.
abbrev pub at_remote : DialogState → RemoteState
at_remote d = record {
  their_id = [];
  checks = [];
  dialog = record d { screen = remote };
  statuses = [];
}
