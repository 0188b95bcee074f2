-- ===== src/Animation/Tests.antt =====
-- A generator that always draws 7/10.
use anysphere_messaging.Common.{
  ◌+◌, ◌*◌, ◌%◌, ◌≡◌, refl, arith, [], ◌∷◌, text, ◌==◌, ◌&&◌, not, if◌then◌else◌,
}
use anysphere_messaging.Common.Int.{pos, negsuc}
use anysphere_messaging.AddFriend.{storylist}
use anysphere_messaging.AddFriend.Stories.{HasNoDot, tell}
use anysphere_messaging.Animation.{Rng, randint, keyframe, delay, story_animation}
use anysphere_messaging.Animation.Clock.{keyframe-delay}
use anysphere_messaging.Animation.Small.{
  SmallState, small_keyframe, IsNextFrame, on_timer, rotation, on_timer-rotation,
}
use anysphere_messaging.Animation.Agreement.{story_animation_comm}

abbrev rng : Rng
rng = record { numerator = λ k. 7; denominator = 10 }

randint_test : randint rng 0 (negsuc 499) (pos 500) ≡ pos 200
unfolding randint
randint_test = refl

keyframe-delay_example : keyframe (180500 + delay 180500) ≡ (keyframe 180500 + 1) % 90
keyframe-delay_example = keyframe-delay 180500

mark-HasNoDot : HasNoDot (text "Cool mark")
unfolding text
mark-HasNoDot = omega arith

film-HasNoDot : HasNoDot (text "Fashionable film")
unfolding text
film-HasNoDot = omega arith

story_animation_comm_example :
    story_animation
      (λ s. s)
      (λ s. rng)
      (tell (text "Cool mark" ∷ []))
      (storylist (tell (text "Fashionable film" ∷ [])))
      (4000 + 900000 * 3)
    ≡ story_animation
        (λ s. s)
        (λ s. rng)
        (tell (text "Fashionable film" ∷ []))
        (storylist (tell (text "Cool mark" ∷ [])))
        4000
story_animation_comm_example =
    story_animation_comm (λ s. s) (λ s. rng) (text "Cool mark") (text "Fashionable film") [] [] 4000
      3 mark-HasNoDot tt film-HasNoDot tt

abbrev turning : SmallState
turning = record { keyframe = 9; initialkeyframe = 4; roundtrips = 1 }

turning-next : IsNextFrame 30000 turning
unfolding small_keyframe
turning-next = refl

on_timer-rotation_example :
    let t = on_timer 30000 turning in
    rotation t
      + (if t.keyframe == turning.initialkeyframe && not (t.keyframe == 0) then 1200 else 0)
    ≡ rotation turning
      + 120
      + (if t.keyframe == 0 && not (turning.initialkeyframe == 0) then 1200 else 0)
on_timer-rotation_example = on_timer-rotation 30000 turning (omega arith) (omega arith) turning-next
