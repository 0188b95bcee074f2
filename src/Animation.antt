-- ===== src/Animation.antt =====
-- The animation that two people compare when they add each other in person: `StoryAnimation` of
-- client/gui/src/renderer/components/AddFriend/AddFriendInPerson.tsx, with `randint` of utils.ts.
-- The generator of random numbers (`seedrandom`) and the digest are parameters. A draw is a fraction;
-- the product with a range is exact here, where the source rounds it to a double.
pub mod Bounds
pub mod Clock
pub mod Agreement
pub mod Small
pub mod Picture
pub mod Contrast
mod Tests
use anysphere_messaging.Common.{
  ℕ, zero, suc, ◌+◌, ◌-◌, ◌*◌, ◌/◌, ◌%◌, JsString, text, List, [], ◌∷◌, Option, none, get_elem?,
  ltb, if◌then◌else◌,
}
use anysphere_messaging.Common.Int.{ℤ, pos, negsuc, ◌+ℤ◌, pos_part, neg_part, max}
use anysphere_messaging.AddFriend.{hash_hex, compute_seed_from_stories}

-- The draws of a generator: the `k`-th is `numerator k / denominator`.
pub record Rng : Type 0 where
  pub numerator : ℕ → ℕ
  pub denominator : ℕ

-- `max - min + 1`, for `min` at most `max`.
abbrev pub span : ℤ → ℤ → ℕ
span min max = (pos_part max + neg_part min + 1) - (neg_part max + pos_part min)

-- `Math.floor(rng() * (max - min + 1)) + min`, with draw `k`.
unfoldable pub randint : Rng → ℕ → ℤ → ℤ → ℤ
unfolding ◌+ℤ◌
randint rng k min max = pos (rng.numerator k * span min max / rng.denominator) +ℤ min

pub record Circle : Type 0 where
  pub x : ℤ
  pub y : ℤ
  pub velocity_x : ℤ
  pub velocity_y : ℤ
  pub size : ℤ
  -- `none` for undefined, from outside the array of colours.
  pub color : Option JsString

unfoldable pub colors : List JsString
unfolding text
colors = text "#194F39" ∷ text "#E2A924" ∷ text "#252116" ∷ []

unfoldable pub color_at : ℤ → Option JsString
color_at (pos n) = get_elem? colors n
color_at (negsuc n) = none

-- The circle that the first loop pushes in round `i`, from draw `k` on, with the next draw.
unfoldable pub initial_circle : Rng → ℕ → ℕ → Circle × ℕ
unfolding randint color_at
initial_circle rng i k = (
  record {
    x = randint rng k (negsuc 499) (pos 500);
    y = randint rng (k + 1) (negsuc 199) (pos 200);
    velocity_x = randint rng (k + 2) (negsuc 9) (pos 10);
    velocity_y = randint rng (k + 3) (negsuc 9) (pos 10);
    size =
        if ltb i 2
        then randint rng (k + 4) (pos 150) (pos 200)
        else randint rng (k + 4) (pos 10) (pos 20);
    color = color_at (
        if ltb i 2
        then (if ltb i 1 then pos 0 else pos 1)
        else randint rng (k + 5) (pos 0) (pos 2));
  },
  if ltb i 2 then k + 5 else k + 6,
)

-- The loop, by the rounds that are left.
unfoldable pub initial_circles : Rng → ℕ → ℕ → ℕ → List Circle × ℕ
unfolding initial_circle
initial_circles rng zero i k = ([], k)
initial_circles rng (suc rounds) i k =
    let (circle, k') = initial_circle rng i k in
    let (circles, k'') = initial_circles rng rounds (i + 1) k' in (circle ∷ circles, k'')

unfoldable pub next_circle : Rng → Circle → ℕ → Circle
unfolding randint color_at ◌+ℤ◌
next_circle rng circle k = record {
  x = randint rng (k + 3) (negsuc 499) (pos 500);
  y = randint rng (k + 4) (negsuc 199) (pos 200);
  velocity_x = circle.velocity_x +ℤ randint rng k (negsuc 0) (pos 1);
  velocity_y = circle.velocity_y +ℤ randint rng (k + 1) (negsuc 0) (pos 1);
  size = max (circle.size +ℤ randint rng (k + 2) (negsuc 1) (pos 2)) (pos 20);
  color = color_at (randint rng (k + 5) (pos 0) (pos 2));
}

-- `circles[i].map(...)`: six draws for each circle.
unfoldable pub next_circles : Rng → List Circle → ℕ → List Circle × ℕ
unfolding next_circle
next_circles rng [] k = ([], k)
next_circles rng (circle ∷ circles) k =
    let (rest, k') = next_circles rng circles (k + 6) in (next_circle rng circle k ∷ rest, k')

-- The loop over the frames, by the rounds that are left: the frames after the last one made.
unfoldable pub frames_after : Rng → ℕ → List Circle → ℕ → List (List Circle)
unfolding next_circles
frames_after rng zero circles k = []
frames_after rng (suc rounds) circles k =
    let (next, k') = next_circles rng circles k in next ∷ frames_after rng rounds next k'

-- `n`, the first draw.
unfoldable pub circle_count : Rng → ℕ
unfolding randint
circle_count rng = pos_part (randint rng 0 (pos 15) (pos 20))

unfoldable pub keyframes : Rng → List (List Circle)
unfolding initial_circles frames_after circle_count
keyframes rng =
    let (circles, k) = initial_circles rng (circle_count rng) 0 1 in
    circles ∷ frames_after rng 90 circles k

-- `Math.floor(Date.now() / DURATION) % KEYFRAMES`
unfoldable pub keyframe : ℕ → ℕ
keyframe now = now / 2000 % 90

-- The delay of `setTimeout`: `DURATION + 10 - (Date.now() % DURATION)`.
unfoldable pub delay : ℕ → ℕ
delay now = 2010 - now % 2000

-- What is drawn at a time: `keyframes[keyframe]`, with `none` for an error.
unfoldable pub shown : Rng → ℕ → Option (List Circle)
unfolding keyframes keyframe
shown rng now = get_elem? (keyframes rng) (keyframe now)

-- The screen for two stories, with the digest and the generator of the platform.
unfoldable pub story_animation :
    (JsString → List ℕ) → (JsString → Rng) → JsString → List JsString → ℕ → Option (List Circle)
unfolding shown hash_hex compute_seed_from_stories
story_animation digest seedrandom story theirs now =
    shown (seedrandom (hash_hex (digest (compute_seed_from_stories story theirs)))) now
