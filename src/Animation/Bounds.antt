-- ===== src/Animation/Bounds.antt =====
-- What the frames hold.
use anysphere_messaging.Common.{
  ℕ, zero, suc, ◌+◌, ◌*◌, ◌/◌, ◌<◌, ◌≤◌, ◌≡◌, ◌≢◌, refl, arith, JsString, List, [], ◌∷◌, Option,
  none, some, All, length, get_elem?, get_elem?_lt, ltb, ap, ◌∙◌, Bool, true, false, if◌then◌else◌,
}
use mathlib.Core.Path.{subst}
use native.Mathlib.Nat.{div-lt_iff_lt-mul, mul-lt-mul_of_pos_right}
use anysphere_messaging.Common.Int.{ℤ, pos, negsuc, ◌+ℤ◌, pos_part, ◌≤ℤ◌, max}
use anysphere_messaging.Animation.{
  Rng, span, randint, Circle, colors, color_at, initial_circle, initial_circles, next_circle,
  next_circles, frames_after, circle_count, keyframes, keyframe, shown,
}

-- Every draw lies in [0, 1), as is documented of `seedrandom`.
abbrev pub IsUnit : Rng → Type 0
IsUnit rng = (k : ℕ) → rng.numerator k < rng.denominator

scaled_lt : (a d w : ℕ) → a < d → 0 < w → a * w / d < w
scaled_lt a d w h p =
    (div-lt_iff_lt-mul (omega arith)).1 (omega (arith, mul-lt-mul_of_pos_right h p))

sum-bounds :
    (q : ℕ) (min max : ℤ) → q < span min max → (min ≤ℤ (pos q +ℤ min)) × ((pos q +ℤ min) ≤ℤ max)
unfolding ◌+ℤ◌
sum-bounds q (pos a) (pos b) h = ground arith
sum-bounds q (pos a) (negsuc b) h = ground arith
sum-bounds q (negsuc a) (pos b) h = ground arith
sum-bounds q (negsuc a) (negsuc b) h = ground arith

-- `randint` stays between its bounds.
pub randint-bounds :
    (rng : Rng) (k : ℕ) (min max : ℤ)
    → IsUnit rng
    → min ≤ℤ max
    → (min ≤ℤ randint rng k min max) × (randint rng k min max ≤ℤ max)
unfolding randint
randint-bounds rng k min max u h =
    sum-bounds _ min max
      (scaled_lt (rng.numerator k) rng.denominator (span min max) (u k) (omega arith))

color_at-ne : (z : ℤ) → pos 0 ≤ℤ z → z ≤ℤ pos 2 → color_at z ≢ none
unfolding color_at colors
color_at-ne (pos zero) h k = λ e. cc
color_at-ne (pos (suc zero)) h k = λ e. cc
color_at-ne (pos (suc (suc zero))) h k = λ e. cc
color_at-ne (pos (suc (suc (suc n)))) h k = absurd (omega arith)
color_at-ne (negsuc n) h k = absurd (omega arith)

-- A circle on the picture, not too small to be seen, with one of the colours.
pub record IsPlaced (c : Circle) : Type 0 where
  pub left : negsuc 499 ≤ℤ c.x
  pub right : c.x ≤ℤ pos 500
  pub top : negsuc 199 ≤ℤ c.y
  pub bottom : c.y ≤ℤ pos 200
  pub visible : pos 10 ≤ℤ c.size
  pub colored : c.color ≢ none

module _ (rng : Rng) (u : IsUnit rng) where
  random_color : (k : ℕ) → color_at (randint rng k (pos 0) (pos 2)) ≢ none
  random_color k =
      let (low, high) = randint-bounds rng k (pos 0) (pos 2) u (omega arith) in
      color_at-ne (randint rng k (pos 0) (pos 2)) low high

  placed :
      (k l : ℕ) (vx vy z : ℤ) (c : Option JsString)
      → pos 10 ≤ℤ z
      → c ≢ none
      → IsPlaced (record {
        x = randint rng k (negsuc 499) (pos 500);
        y = randint rng l (negsuc 199) (pos 200);
        velocity_x = vx;
        velocity_y = vy;
        size = z;
        color = c;
      })
  placed k l vx vy z c big colored =
      let (left, right) = randint-bounds rng k (negsuc 499) (pos 500) u (omega arith) in
      let (top, bottom) = randint-bounds rng l (negsuc 199) (pos 200) u (omega arith) in
      record {
        left = left;
        right = right;
        top = top;
        bottom = bottom;
        visible = big;
        colored = colored;
      }

  initial_size :
      (b : Bool) (k : ℕ)
      → pos 10 ≤ℤ (if b then randint rng k (pos 150) (pos 200) else randint rng k (pos 10) (pos 20))
  initial_size true k = omega (arith, (randint-bounds rng k (pos 150) (pos 200) u (omega arith)).0)
  initial_size false k = (randint-bounds rng k (pos 10) (pos 20) u (omega arith)).0

  initial_color :
      (b c : Bool) (k : ℕ)
      → color_at (if b then (if c then pos 0 else pos 1) else randint rng k (pos 0) (pos 2)) ≢ none
  initial_color true true k = color_at-ne (pos 0) (omega arith) (omega arith)
  initial_color true false k = color_at-ne (pos 1) (omega arith) (omega arith)
  initial_color false c k = random_color k

  initial_circle-IsPlaced : (i k : ℕ) → IsPlaced (initial_circle rng i k).0
  unfolding initial_circle
  initial_circle-IsPlaced i k =
      placed k (k + 1) _ _ _ _ (initial_size (ltb i 2) (k + 4))
        (initial_color (ltb i 2) (ltb i 1) (k + 5))

  next_circle-IsPlaced : (c : Circle) (k : ℕ) → IsPlaced (next_circle rng c k)
  unfolding next_circle
  next_circle-IsPlaced c k = placed (k + 3) (k + 4) _ _ _ _ (ground arith) (random_color (k + 5))

  -- A frame of `n` circles, each of them placed.
  abbrev pub IsFrame : ℕ → List Circle → Type 0
  IsFrame n circles = (length circles ≡ n) × All IsPlaced circles

  initial_circles-IsFrame : (rounds i k : ℕ) → IsFrame rounds (initial_circles rng rounds i k).0
  unfolding initial_circles
  initial_circles-IsFrame zero i k = (refl, tt)
  initial_circles-IsFrame (suc rounds) i k =
      let ih = initial_circles-IsFrame rounds (i + 1) (initial_circle rng i k).1 in
      (ap suc ih.0, (initial_circle-IsPlaced i k, ih.1))

  next_circles-IsFrame :
      (circles : List Circle) (k : ℕ) → IsFrame (length circles) (next_circles rng circles k).0
  unfolding next_circles
  next_circles-IsFrame [] k = (refl, tt)
  next_circles-IsFrame (c ∷ circles) k =
      let ih = next_circles-IsFrame circles (k + 6) in
      (ap suc ih.0, (next_circle-IsPlaced c k, ih.1))

  frames_after-IsFrame :
      (rounds n : ℕ) (circles : List Circle) (k : ℕ)
      → length circles ≡ n
      → All (IsFrame n) (frames_after rng rounds circles k)
        × (length (frames_after rng rounds circles k) ≡ rounds)
  unfolding frames_after
  frames_after-IsFrame zero n circles k h = (tt, refl)
  frames_after-IsFrame (suc rounds) n circles k h =
      let next = next_circles-IsFrame circles k in
      let same : length (next_circles rng circles k).0 ≡ n = next.0 ∙ h in
      let ih =
        frames_after-IsFrame rounds n (next_circles rng circles k).0 (next_circles rng circles k).1
          same in
      (((same, next.1), ih.0), ap suc ih.1)

  keyframes-IsFrame :
      All (IsFrame (circle_count rng)) (keyframes rng) × (length (keyframes rng) ≡ 91)
  unfolding keyframes
  keyframes-IsFrame =
      let first = initial_circles-IsFrame (circle_count rng) 0 1 in
      let later =
        frames_after-IsFrame 90 (circle_count rng) _ (initial_circles rng (circle_count rng) 0 1).1
          first.0 in
      ((first, later.0), ap suc later.1)

All-get_elem? {ℓ κ} :
    {A : Type ℓ} (P : A → Type κ) (xs : List A) (i : ℕ) {a : A}
    → All P xs
    → get_elem? xs i ≡ some a
    → P a
All-get_elem? P [] i h e = cc
All-get_elem? P (x ∷ xs) zero {a} (p, h) e = subst P (ground arith) p
All-get_elem? P (x ∷ xs) (suc i) (p, h) e = All-get_elem? P xs i h e

pos_part-range : (z : ℤ) → pos 15 ≤ℤ z → z ≤ℤ pos 20 → (15 ≤ pos_part z) × (pos_part z ≤ 20)
pos_part-range (pos n) low high = omega arith
pos_part-range (negsuc n) low high = omega arith

circle_count-range : (rng : Rng) → IsUnit rng → (15 ≤ circle_count rng) × (circle_count rng ≤ 20)
unfolding circle_count
circle_count-range rng u =
    let (low, high) = randint-bounds rng 0 (pos 15) (pos 20) u (omega arith) in
    pos_part-range (randint rng 0 (pos 15) (pos 20)) low high

frame_at :
    (rng : Rng) (u : IsUnit rng) (n i : ℕ) (frames : List (List Circle))
    → All (IsFrame rng u n) frames × (length frames ≡ 91)
    → (15 ≤ n) × (n ≤ 20)
    → i < 91
    → (circles : List Circle) × (get_elem? frames i ≡ some circles)
      × (15 ≤ length circles)
      × (length circles ≤ 20)
      × All IsPlaced circles
frame_at rng u n i frames (good, count) range lt =
    let (circles, found) = get_elem?_lt frames i (omega (arith, count)) in
    let (size, placed) = All-get_elem? (IsFrame rng u n) frames i good found in
    (circles, found, omega (arith, size), omega (arith, size), placed)

-- If every draw lies in [0, 1), then at any time a frame is drawn, of 15 to 20 circles that lie on
-- the picture, have a visible size and one of the three colours.
pub shown-IsFrame :
    (rng : Rng) (now : ℕ)
    → IsUnit rng
    → (circles : List Circle) × (shown rng now ≡ some circles)
      × (15 ≤ length circles)
      × (length circles ≤ 20)
      × All IsPlaced circles
unfolding shown keyframe
shown-IsFrame rng now u =
    frame_at rng u (circle_count rng) (keyframe now) (keyframes rng) (keyframes-IsFrame rng u)
      (circle_count-range rng u) (omega arith)
