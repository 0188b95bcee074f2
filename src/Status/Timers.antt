-- ===== src/Status/Timers.antt =====
-- How long a status is shown.
use anysphere_messaging.Common.{
  ℕ, ◌+◌, ◌<◌, ◌≤◌, ◌≡◌, refl, arith, true, false, List, [], ◌∷◌, ◌++◌, JsString, leb, any, All,
}
use anysphere_messaging.Status.{StatusState, initial, show, advance}

none_due :
    (now t : ℕ) (ts : List ℕ)
    → All (λ due. now < due) ts
    → now < t
    → any (λ due. leb due now) (ts ++ t ∷ []) ≡ false
none_due now t [] h k = ground arith
none_due now t (u ∷ ts) (p, h) k = ground (arith, none_due now t ts h)

last_due : (now t : ℕ) (ts : List ℕ) → t ≤ now → any (λ due. leb due now) (ts ++ t ∷ []) ≡ true
last_due now t [] k = ground arith
last_due now t (u ∷ ts) k = ground (arith, last_due now t ts k)

early_due :
    (now t u : ℕ) (ts : List ℕ) → t ≤ now → any (λ due. leb due now) (t ∷ (ts ++ u ∷ [])) ≡ true
early_due now t u ts k = ground arith

-- A status shown at `now` is still there until ten seconds later, if no earlier status' timer is
-- due by then, and is gone from then on.
pub advance-show :
    (now later : ℕ) (message : JsString) (s : StatusState)
    → All (λ due. later < due) s.timers
    → ((advance later (show now message s)).display ≡ leb later (now + 9999))
      × ((advance later (show now message s)).message ≡ message)
unfolding advance show
advance-show now later message s h = (
  ground (arith, none_due later (now + 10000) s.timers h, last_due later (now + 10000) s.timers),
  refl,
)

-- An earlier timer is not cancelled: a second status, shown before the first one's ten seconds are
-- over, disappears with the first one's timer, less than ten seconds after it was shown.
advance-show_again :
    (first second later : ℕ) (m n : JsString)
    → first < second
    → second < first + 10000
    → later ≡ first + 10000
    → ((advance later (show second n (show first m initial))).display ≡ false)
      × (later < second + 10000)
unfolding advance show
advance-show_again first second later m n lt before at =
    ground (arith, early_due later (first + 10000) (second + 10000) [])
