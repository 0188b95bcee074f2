-- ===== src/Animation/Clock.antt =====
-- How the picture follows the wall clock.
use anysphere_messaging.Common.{ℕ, ◌+◌, ◌*◌, ◌%◌, ◌≡◌, arith}
use anysphere_messaging.Animation.{keyframe, delay}

-- Clocks that differ by whole quarters of an hour, as those of two time zones do, give the same
-- keyframe.
pub keyframe-quarter : (now quarters : ℕ) → keyframe (now + 900000 * quarters) ≡ keyframe now
unfolding keyframe
keyframe-quarter now quarters = omega arith

-- The timer goes off in the next keyframe's two seconds, if it goes off on time: no keyframe is
-- left out and none is drawn twice.
pub keyframe-delay : (now : ℕ) → keyframe (now + delay now) ≡ (keyframe now + 1) % 90
unfolding keyframe delay
keyframe-delay now = omega arith
