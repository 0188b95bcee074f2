-- ===== src/MessageList/Outgoing.antt =====
-- The list of the tabs Outbox and Sent (`OutgoingMessageList` of
-- client/gui/src/renderer/components/MessageList.tsx) while the daemon is asked. Both tabs draw the
-- same component at the same place (client/gui/src/renderer/Main.tsx), so React keeps it, with its
-- messages, from one to the other, and makes a new one after any other tab. No request is ever given
-- up; what an answer sets in a component that is gone is lost.
use anysphere_messaging.Common.{
  ℕ, ◌+◌, Bool, true, false, ◌&&◌, Option, none, some, List, [], ◌∷◌, ◌++◌, get_elem?, remove_at,
  ◌==◌, if◌then◌else◌,
}
use anysphere_messaging.Types.{OutgoingMessage}
use anysphere_messaging.Window.{Component, outbox_messages, sent_messages}
use anysphere_messaging.MessageList.{on_loaded}

pub data OutgoingType : Type 0 where
  outbox sent : OutgoingType

-- A request that is not answered, with the component that made it.
pub record Asked : Type 0 where
  pub instance_of : ℕ
  pub type : OutgoingType

pub record OutgoingView : Type 0 where
  -- The number of the component that is or was last on the screen.
  pub current : ℕ
  pub shown : Option OutgoingType
  pub messages : List OutgoingMessage
  pub asked : List Asked

abbrev pub nothing_shown : OutgoingView
nothing_shown = record { current = 0; shown = none; messages = []; asked = [] }

-- What the tab that is drawn shows.
unfoldable pub list_of : Component → Option OutgoingType
list_of outbox_messages = some outbox
list_of sent_messages = some sent
list_of _ = none

abbrev pub same_type : OutgoingType → OutgoingType → Bool
same_type outbox outbox = true
same_type sent sent = true
same_type _ _ = false

-- The window is drawn again: the effect runs for a new component and for a new type.
unfoldable pub show : Option OutgoingType → OutgoingView → OutgoingView
show none s = record s { shown = none }
show (some t) s = elim s.shown [
  | none ↦ record {
    current = s.current + 1;
    shown = some t;
    messages = [];
    asked = s.asked ++ record { instance_of = s.current + 1; type = t } ∷ [];
  }
  | some u ↦ if same_type t u then s else record s {
    shown = some t;
    asked = s.asked ++ record { instance_of = s.current; type = t } ∷ [];
  }
]

abbrev is_shown : Option OutgoingType → Bool
is_shown none = false
is_shown (some t) = true

-- The request at a position is answered, with `none` for a rejected promise.
unfoldable pub answer : ℕ → Option (List OutgoingMessage) → OutgoingView → OutgoingView
unfolding on_loaded
answer i loaded s = elim (get_elem? s.asked i) [
  | none ↦ s
  | some q ↦
      let left = record s { asked = remove_at i s.asked } in
      if is_shown s.shown && q.instance_of == s.current
      then record left { messages = on_loaded loaded s.messages }
      else left
]

pub data ListEvent : Type 0 where
  shows : Option OutgoingType → ListEvent
  answers : ℕ → Option (List OutgoingMessage) → ListEvent

unfoldable pub run : List ListEvent → OutgoingView → OutgoingView
unfolding show answer
run [] s = s
run (shows t ∷ events) s = run events (show t s)
run (answers i loaded ∷ events) s = run events (answer i loaded s)
