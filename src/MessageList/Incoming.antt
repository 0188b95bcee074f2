-- ===== src/MessageList/Incoming.antt =====
-- The list of the tabs New and All (`IncomingMessageList` of
-- client/gui/src/renderer/components/MessageList.tsx) while messages arrive. Both tabs draw the same
-- component at the same place (client/gui/src/renderer/Main.tsx), so React keeps it from one to the
-- other, and makes a new one after any other tab. Its effect opens a stream, and returns the function
-- that cancels it, which React calls before the effect runs again and when the component goes. A
-- stream delivers until it is cancelled, whatever is on the screen; what it sets in a component that
-- is gone is lost.
use anysphere_messaging.Common.{
  ℕ, ◌+◌, ◌==◌, ◌&&◌, not, Bool, true, false, Option, none, some, List, [], ◌∷◌, ◌++◌, any, filter,
  if◌then◌else◌,
}
use anysphere_messaging.Types.{IncomingMessage}
use anysphere_messaging.Daemon.Schema.{Filter, new, all}
use anysphere_messaging.MessageList.{on_batch}

-- A stream that is open, with the component that has opened it.
pub record Stream : Type 0 where
  pub number : ℕ
  pub component : ℕ

pub record IncomingView : Type 0 where
  -- The number of the component that is or was last on the screen.
  pub component : ℕ
  pub shown : Option Filter
  pub messages : List IncomingMessage
  pub streams : List Stream
  -- How many streams have been opened.
  pub opened : ℕ
  -- The stream that the function which the effect returned last would cancel.
  pub cleanup : Option ℕ

abbrev pub nothing_shown : IncomingView
nothing_shown = record {
  component = 0;
  shown = none;
  messages = [];
  streams = [];
  opened = 0;
  cleanup = none;
}

abbrev pub same_filter : Filter → Filter → Bool
same_filter new new = true
same_filter all all = true
same_filter _ _ = false

unfoldable pub cancel : ℕ → List Stream → List Stream
cancel n streams = filter (λ x. not (x.number == n)) streams

-- What the effect returned is called.
unfoldable pub clean_up : IncomingView → IncomingView
unfolding cancel
clean_up s = elim s.cleanup [
  | none ↦ s
  | some n ↦ record s { streams = cancel n s.streams; cleanup = none }
]

-- The effect.
unfoldable pub run_effect : IncomingView → IncomingView
run_effect s = record s {
  messages = [];
  streams = s.streams ++ record { number = s.opened; component = s.component } ∷ [];
  opened = s.opened + 1;
  cleanup = some s.opened;
}

-- The window is drawn again, with one of the two tabs or with another.
unfoldable pub show : Option Filter → IncomingView → IncomingView
unfolding clean_up run_effect
show none s = record (clean_up s) { shown = none }
show (some t) s = elim s.shown [
  | none ↦ run_effect (record s { component = s.component + 1; shown = some t })
  | some u ↦ if same_filter t u then s else run_effect (record (clean_up s) { shown = some t })
]

abbrev pub is_shown : Option Filter → Bool
is_shown none = false
is_shown (some t) = true

module _ (clock : IncomingMessage → IncomingMessage → ℕ × ℕ) where
  -- The stream of a number delivers a batch, if it is open.
  unfoldable pub deliver : ℕ → List IncomingMessage → IncomingView → IncomingView
  unfolding on_batch
  deliver n batch s =
      if is_shown s.shown && any (λ x. x.number == n && x.component == s.component) s.streams
      then record s { messages = on_batch clock batch s.messages }
      else s
