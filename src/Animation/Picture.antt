-- ===== src/Animation/Picture.antt =====
-- The picture of a public id (client/gui/src/renderer/components/AddFriend/IDAnimation.tsx): its
-- circles, background and border, all drawn from a generator that the digest of the id seeds.
use anysphere_messaging.Common.{
  ℕ, zero, suc, ◌+◌, ◌%◌, ◌==◌, JsString, List, [], ◌∷◌, if◌then◌else◌,
}
use anysphere_messaging.Common.Int.{ℤ, pos, negsuc, ◌+ℤ◌, pos_part}
use anysphere_messaging.AddFriend.{hash_hex}
use anysphere_messaging.Animation.{Rng, randint}

-- A draw between two numbers that are not negative.
abbrev pub draw : Rng → ℕ → ℕ → ℕ → ℕ
draw rng k min max = pos_part (randint rng k (pos min) (pos max))

-- `hsl(...)`
pub record Hsl : Type 0 where
  pub hue : ℕ
  pub saturation : ℕ
  pub lightness : ℕ

pub record Disc : Type 0 where
  pub x : ℤ
  pub y : ℤ
  pub size : ℕ
  pub from_color : Hsl
  pub to_color : Hsl

pub record Picture : Type 0 where
  pub discs : List Disc
  pub background : Hsl
  pub border : Hsl

unfoldable pub second_hue : ℕ → ℕ → ℕ
second_hue complementary hue = if complementary == 0 then (hue + 210) % 360 else (hue + 150) % 360

-- `getColor`, from draw `k` on: three draws.
unfoldable pub get_color : Rng → ℕ → ℕ → Hsl × Hsl
unfolding second_hue randint
get_color rng k hue =
    let saturation = draw rng k 85 95 in
    let lightness = draw rng (k + 1) 50 70 in
    (
      record { hue = hue; saturation = saturation; lightness = lightness },
      record {
        hue = second_hue (draw rng (k + 2) 0 1) hue;
        saturation = saturation;
        lightness = lightness;
      },
    )

unfoldable pub get_bg_color : Rng → ℕ → ℕ → Hsl
unfolding randint
get_bg_color rng k hue = record {
  hue = hue;
  saturation = draw rng k 85 95;
  lightness = draw rng (k + 1) 97 98;
}

unfoldable pub get_border_color : Rng → ℕ → ℕ → Hsl
unfolding randint
get_border_color rng k hue = record {
  hue = hue;
  saturation = draw rng k 85 95;
  lightness = draw rng (k + 1) 17 23;
}

-- The element of `Array(n)`, from draw `k` on: six draws.
unfoldable pub disc : Rng → ℕ → ℕ → Disc
unfolding get_color randint ◌+ℤ◌
disc rng hue k = record {
  x = pos 50 +ℤ randint rng k (negsuc 49) (pos 50);
  y = pos 50 +ℤ randint rng (k + 1) (negsuc 49) (pos 50);
  size = draw rng (k + 2) 30 50;
  from_color = (get_color rng (k + 3) hue).0;
  to_color = (get_color rng (k + 3) hue).1;
}

-- The elements that are left to make, with the next draw.
unfoldable pub discs_from : Rng → ℕ → ℕ → ℕ → List Disc × ℕ
unfolding disc
discs_from rng hue zero k = ([], k)
discs_from rng hue (suc n) k =
    let (rest, k') = discs_from rng hue n (k + 6) in (disc rng hue k ∷ rest, k')

unfoldable pub picture : Rng → Picture
unfolding discs_from get_bg_color get_border_color randint
picture rng =
    let n = draw rng 0 8 12 in
    let hue = draw rng 1 0 360 in
    let (discs, k) = discs_from rng hue n 2 in
    record {
      discs = discs;
      background = get_bg_color rng k hue;
      border = get_border_color rng (k + 2) hue;
    }

-- The picture for an id, once its digest has come.
unfoldable pub id_picture : (JsString → List ℕ) → (JsString → Rng) → JsString → Picture
unfolding picture hash_hex
id_picture digest seedrandom seed = picture (seedrandom (hash_hex (digest seed)))
