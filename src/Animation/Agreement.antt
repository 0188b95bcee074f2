-- ===== src/Animation/Agreement.antt =====
-- What two people see who compare their animations.
use anysphere_messaging.Common.{ℕ, ◌+◌, ◌*◌, ◌≡◌, refl, List, ◌∷◌, JsString, All}
use anysphere_messaging.AddFriend.{storylist}
use anysphere_messaging.AddFriend.Stories.{HasNoDot, tell}
use anysphere_messaging.AddFriend.Seeds.{compute_seed_comm}
use anysphere_messaging.Animation.{Rng, shown, story_animation}
use anysphere_messaging.Animation.Clock.{keyframe-quarter}

-- Two people who each type the lines that the other's screen shows see the same picture at the same
-- time, also in time zones that are whole quarters of an hour apart, whatever the digest and the
-- generator are.
pub story_animation_comm :
    (digest : JsString → List ℕ) (seedrandom : JsString → Rng) (a b : JsString)
    (more_a more_b : List JsString) (now quarters : ℕ)
    → HasNoDot a
    → All HasNoDot more_a
    → HasNoDot b
    → All HasNoDot more_b
    → story_animation digest seedrandom
        (tell (a ∷ more_a))
        (storylist (tell (b ∷ more_b)))
        (now + 900000 * quarters)
      ≡ story_animation digest seedrandom (tell (b ∷ more_b)) (storylist (tell (a ∷ more_a))) now
unfolding story_animation shown
story_animation_comm digest seedrandom a b more_a more_b now quarters ha has hb hbs =
    rw (keyframe-quarter now quarters, compute_seed_comm a b more_a more_b ha has hb hbs) refl
