-- ===== src/Animation/Contrast.antt =====
-- What the picture of a public id looks like.
use anysphere_messaging.Common.{
  ℕ, zero, suc, ◌+◌, ◌%◌, ◌≤◌, ◌<◌, ◌≡◌, ◌⊎◌, inl, inr, refl, ap, arith, ◌==◌, JsString, List, All,
  length, Bool-cases,
}
use anysphere_messaging.Common.Int.{ℤ, pos, negsuc, ◌+ℤ◌, pos_part, ◌≤ℤ◌}
use anysphere_messaging.Animation.{Rng, randint}
use anysphere_messaging.Animation.Bounds.{IsUnit, randint-bounds}
use anysphere_messaging.Animation.Picture.{
  draw, Hsl, Disc, second_hue, get_color, get_bg_color, get_border_color, disc, discs_from, picture,
  id_picture,
}

-- A disc with its centre on the picture, of two colours that are 150 degrees apart on the circle of
-- hues, darker than the background and lighter than the border.
pub record IsSeen (background border : Hsl) (d : Disc) : Type 0 where
  pub on_x : (pos 0 ≤ℤ d.x) × (d.x ≤ℤ pos 100)
  pub on_y : (pos 0 ≤ℤ d.y) × (d.y ≤ℤ pos 100)
  pub sized : (30 ≤ d.size) × (d.size ≤ 50)
  pub apart :
      (d.to_color.hue ≡ (d.from_color.hue + 150) % 360)
      ⊎ (d.from_color.hue % 360 ≡ (d.to_color.hue + 150) % 360)
  pub darker :
      (d.from_color.lightness < background.lightness)
      × (d.to_color.lightness < background.lightness)
  pub lighter :
      (border.lightness < d.from_color.lightness) × (border.lightness < d.to_color.lightness)

pos_part-range : (z : ℤ) (a b : ℕ) → pos a ≤ℤ z → z ≤ℤ pos b → (a ≤ pos_part z) × (pos_part z ≤ b)
pos_part-range (pos n) a b low high = omega arith
pos_part-range (negsuc n) a b low high = omega arith

shifted :
    (z : ℤ) → negsuc 49 ≤ℤ z → z ≤ℤ pos 50 → (pos 0 ≤ℤ (pos 50 +ℤ z)) × ((pos 50 +ℤ z) ≤ℤ pos 100)
unfolding ◌+ℤ◌
shifted (pos n) low high = ground arith
shifted (negsuc n) low high = ground arith

second_hue-apart :
    (c hue : ℕ)
    → (second_hue c hue ≡ (hue + 150) % 360) ⊎ (hue % 360 ≡ (second_hue c hue + 150) % 360)
unfolding second_hue
second_hue-apart c hue = elim (Bool-cases (c == 0)) [
  | inl is_zero ↦ inr (ground arith)
  | inr other ↦ inl (ground arith)
]

module _ (rng : Rng) (u : IsUnit rng) where
  draw-range : (k a b : ℕ) → a ≤ b → (a ≤ draw rng k a b) × (draw rng k a b ≤ b)
  draw-range k a b h =
      let (low, high) = randint-bounds rng k (pos a) (pos b) u (omega arith) in
      pos_part-range (randint rng k (pos a) (pos b)) a b low high

  placed :
      (k : ℕ)
      → (pos 0 ≤ℤ (pos 50 +ℤ randint rng k (negsuc 49) (pos 50)))
        × ((pos 50 +ℤ randint rng k (negsuc 49) (pos 50)) ≤ℤ pos 100)
  placed k =
      let (low, high) = randint-bounds rng k (negsuc 49) (pos 50) u (omega arith) in
      shifted (randint rng k (negsuc 49) (pos 50)) low high

  disc-IsSeen :
      (background border : Hsl) (hue k : ℕ)
      → 97 ≤ background.lightness
      → border.lightness ≤ 23
      → IsSeen background border (disc rng hue k)
  unfolding disc get_color
  disc-IsSeen background border hue k light dark =
      let (low, high) = draw-range (k + 3 + 1) 50 70 (omega arith) in
      record {
        on_x = placed k;
        on_y = placed (k + 1);
        sized = draw-range (k + 2) 30 50 (omega arith);
        apart = second_hue-apart (draw rng (k + 3 + 2) 0 1) hue;
        darker = (omega arith, omega arith);
        lighter = (omega arith, omega arith);
      }

  discs_from-IsSeen :
      (background border : Hsl) (hue n k : ℕ)
      → 97 ≤ background.lightness
      → border.lightness ≤ 23
      → (length (discs_from rng hue n k).0 ≡ n)
        × All (IsSeen background border) (discs_from rng hue n k).0
  unfolding discs_from
  discs_from-IsSeen background border hue zero k light dark = (refl, tt)
  discs_from-IsSeen background border hue (suc n) k light dark =
      let (count, seen) = discs_from-IsSeen background border hue n (k + 6) light dark in
      (ap suc count, (disc-IsSeen background border hue k light dark, seen))

  bg_lightness : (k hue : ℕ) → 97 ≤ (get_bg_color rng k hue).lightness
  unfolding get_bg_color
  bg_lightness k hue = (draw-range (k + 1) 97 98 (omega arith)).0

  border_lightness : (k hue : ℕ) → (get_border_color rng k hue).lightness ≤ 23
  unfolding get_border_color
  border_lightness k hue = (draw-range (k + 1) 17 23 (omega arith)).1

  picture-IsSeen :
      (8 ≤ length (picture rng).discs)
      × (length (picture rng).discs ≤ 12)
      × All (IsSeen (picture rng).background (picture rng).border) (picture rng).discs
  unfolding picture
  picture-IsSeen =
      let hue = draw rng 1 0 360 in
      let k = (discs_from rng hue (draw rng 0 8 12) 2).1 in
      let (low, high) = draw-range 0 8 12 (omega arith) in
      let (count, seen) =
        discs_from-IsSeen (get_bg_color rng k hue) (get_border_color rng (k + 2) hue) hue
          (draw rng 0 8 12) 2 (bg_lightness k hue) (border_lightness (k + 2) hue) in
      (omega (arith, count), omega (arith, count), seen)

-- If every draw lies in [0, 1), the picture of an id has 8 to 12 discs, each with its centre on the
-- picture, of 30 to 50 percent of its size, of two colours 150 degrees apart, darker than the
-- background and lighter than the border.
pub id_picture-IsSeen :
    (digest : JsString → List ℕ) (seedrandom : JsString → Rng) (seed : JsString)
    → ((s : JsString) → IsUnit (seedrandom s))
    → let p = id_picture digest seedrandom seed in
      (8 ≤ length p.discs) × (length p.discs ≤ 12) × All (IsSeen p.background p.border) p.discs
unfolding id_picture
id_picture-IsSeen digest seedrandom seed u = picture-IsSeen _ (u _)
