-- ===== src/Status.antt =====
-- The status line (client/gui/src/renderer/components/Status.tsx): `setStatus`, `setVisible` with
-- its timer of ten seconds, and the button that closes it. Time is in milliseconds.
pub mod Timers
use anysphere_messaging.Common.{
  ℕ, ◌+◌, Bool, true, false, List, [], ◌∷◌, ◌++◌, JsString, leb, any, filter, not, if◌then◌else◌,
}

pub record StatusState : Type 0 where
  pub message : JsString
  pub display : Bool
  -- When the timers that `setTimeout` started will fire; none is ever cancelled.
  pub timers : List ℕ

abbrev pub initial : StatusState
initial = record { message = []; display = false; timers = [] }

unfoldable pub set_status : JsString → StatusState → StatusState
set_status message s = record s { message = message }

unfoldable pub set_visible : ℕ → StatusState → StatusState
set_visible now s = record s { display = true; timers = s.timers ++ (now + 10000) ∷ [] }

unfoldable pub close : StatusState → StatusState
close s = record s { display = false }

-- The clock reaches `now`: every timer that is due fires and hides the status.
unfoldable pub advance : ℕ → StatusState → StatusState
advance now s = record s {
  display = if any (λ due. leb due now) s.timers then false else s.display;
  timers = filter (λ due. not (leb due now)) s.timers;
}

-- What callers pass on as `setStatus`: both calls, one after the other.
unfoldable pub show : ℕ → JsString → StatusState → StatusState
unfolding set_status set_visible
show now message s = set_visible now (set_status message s)
