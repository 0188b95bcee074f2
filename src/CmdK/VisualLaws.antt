-- ===== src/CmdK/VisualLaws.antt =====
-- The palette never stays between open and closed.
use anysphere_messaging.Common.{Bool, false, ◌≡◌, refl, arith, Option, none, some, ◌∷◌}
use anysphere_messaging.CmdK.Visual.{
  VisualState, animating_in, showing, animating_out, hidden, KBarState, initial, toggled, escaped,
  set_visual_state, press_toggle, press_escape, fire, toggle, Event, mod_k, escape, toggle_call,
  timeout, step, on_close,
}

-- The timer that a visual state has: one in each animation, none at rest.
abbrev pub timer_of : VisualState → Option VisualState
timer_of animating_in = some animating_in
timer_of animating_out = some animating_out
timer_of showing = none
timer_of hidden = none

abbrev pub IsTimed : KBarState → Type 0
IsTimed s = s.timer ≡ timer_of s.visual_state

-- Every event leaves exactly the timer that ends the animation under way, and none at rest.
pub step-IsTimed : (e : Event) (s : KBarState) → IsTimed s → IsTimed (step e s)
unfolding step press_toggle press_escape toggle fire toggled escaped set_visual_state
step-IsTimed (mod_k prevented) s h = ground arith
step-IsTimed escape s h = ground arith
step-IsTimed toggle_call s h = ground arith
step-IsTimed (timeout eager) s h = ground arith

pub data Reach : KBarState → Type 0 where
  start : Reach initial
  next : {s t : KBarState} (e : Event) → Reach s → step e s ≡ t → Reach t

Reach-IsTimed : {s : KBarState} → Reach s → IsTimed s
Reach-IsTimed start = refl
Reach-IsTimed (next {s} e r q) = rw (← q) (step-IsTimed e s (Reach-IsTimed r))

-- After any events, when the pending timer fires the palette is open or closed, whichever way it
-- was going, no timer is left, and a further one changes nothing.
pub fire-settles :
    (eager again : Bool) {s : KBarState}
    → Reach s
    → ((fire eager s).visual_state ≡ elim s.visual_state [
      | animating_in ↦ showing
      | showing ↦ showing
      | animating_out ↦ hidden
      | hidden ↦ hidden
    ])
      × ((fire eager s).timer ≡ none)
      × (fire again (fire eager s) ≡ fire eager s)
unfolding fire set_visual_state
fire-settles eager again {s} r = let h = Reach-IsTimed r in ground arith

-- While the palette is closing, the toggle key opens it again, and the callback that runs is the
-- one for closing.
pub press_toggle_closing :
    (s : KBarState)
    → s.visual_state ≡ animating_out
    → ((press_toggle false s).visual_state ≡ animating_in)
      × ((press_toggle false s).callbacks ≡ on_close ∷ s.callbacks)
unfolding press_toggle toggled set_visual_state
press_toggle_closing s h = ground arith
