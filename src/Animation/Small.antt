-- ===== src/Animation/Small.antt =====
-- The rotation of `StoryAnimationSmall`
-- (client/gui/src/renderer/components/AddFriend/AddFriendInPerson.tsx), the animation of the last
-- page: ten keyframes of three seconds, counted from the one that the page was opened in.
use anysphere_messaging.Common.{
  ℕ, ◌+◌, ◌-◌, ◌*◌, ◌/◌, ◌%◌, ◌<◌, ◌≡◌, arith, ◌==◌, ◌&&◌, not, if◌then◌else◌,
}

pub record SmallState : Type 0 where
  pub keyframe : ℕ
  pub initialkeyframe : ℕ
  pub roundtrips : ℕ

unfoldable pub small_keyframe : ℕ → ℕ
small_keyframe now = now / 3000 % 10

-- After the effects of the first rendering, for which the keyframe is 0: one round trip is counted.
unfoldable pub opened_at : ℕ → SmallState
unfolding small_keyframe
opened_at now = record {
  keyframe = small_keyframe now;
  initialkeyframe = small_keyframe now;
  roundtrips = 1;
}

-- The timer sets the keyframe of the time; a change to 0 counts a round trip.
unfoldable pub on_timer : ℕ → SmallState → SmallState
unfolding small_keyframe
on_timer now s =
    let k = small_keyframe now in
    record s {
      keyframe = k;
      roundtrips = if k == 0 && not (s.keyframe == 0) then s.roundtrips + 1 else s.roundtrips;
    }

-- `keyframes[keyframe].rotation`, in degrees.
unfoldable pub rotation : SmallState → ℕ
rotation s = (s.keyframe + 10 - s.initialkeyframe) % 10 * 120 + s.roundtrips * 120 * 10

-- The timer went off in the keyframe after the present one.
abbrev pub IsNextFrame : ℕ → SmallState → Type 0
IsNextFrame now s = small_keyframe now ≡ (s.keyframe + 1) % 10

-- From one keyframe to the next the circles turn by 120 degrees, but if the page was not opened in
-- keyframe 0: they turn by 1320 degrees into keyframe 0, and 1080 degrees back into the keyframe
-- that the page was opened in.
pub on_timer-rotation :
    (now : ℕ) (s : SmallState)
    → s.keyframe < 10
    → s.initialkeyframe < 10
    → IsNextFrame now s
    → let t = on_timer now s in
      rotation t + (if t.keyframe == s.initialkeyframe && not (t.keyframe == 0) then 1200 else 0)
      ≡ rotation s + 120 + (if t.keyframe == 0 && not (s.initialkeyframe == 0) then 1200 else 0)
unfolding on_timer rotation
on_timer-rotation now s k i next = grind arith
