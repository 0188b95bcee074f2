-- ===== src/AddFriend/Seeds.antt =====
-- The seed of the animation that two people compare.
use anysphere_messaging.Common.{
  ◌≡◌, refl, arith, true, false, List, [], ◌∷◌, JsString, join, All, ap,
}
use anysphere_messaging.AddFriend.{str_lt, sort_two, compute_seed_from_stories, storylist}
use anysphere_messaging.AddFriend.Stories.{HasNoDot, tell, storylist-tell}

str_lt_asym : (s t : JsString) → str_lt s t ≡ true → str_lt t s ≡ false
unfolding str_lt
str_lt_asym [] [] h = refl
str_lt_asym [] (b ∷ t) h = refl
str_lt_asym (a ∷ s) [] h = cc
str_lt_asym (a ∷ s) (b ∷ t) h = ground (arith, str_lt_asym s t)

str_lt_connected : (s t : JsString) → str_lt s t ≡ false → str_lt t s ≡ false → s ≡ t
unfolding str_lt
str_lt_connected [] [] h k = refl
str_lt_connected [] (b ∷ t) h k = cc
str_lt_connected (a ∷ s) [] h k = cc
str_lt_connected (a ∷ s) (b ∷ t) h k = ground (arith, str_lt_connected s t)

sort_two_comm : (s t : JsString) → sort_two s t ≡ sort_two t s
unfolding sort_two
sort_two_comm s t = ground (arith, str_lt_asym s t, str_lt_asym t s, str_lt_connected s t)

-- Two people who each type the lines that the other's screen shows compute the same seed, whoever
-- of the two is which.
pub compute_seed_comm :
    (a b : JsString) (more_a more_b : List JsString)
    → HasNoDot a
    → All HasNoDot more_a
    → HasNoDot b
    → All HasNoDot more_b
    → compute_seed_from_stories (tell (a ∷ more_a)) (storylist (tell (b ∷ more_b)))
      ≡ compute_seed_from_stories (tell (b ∷ more_b)) (storylist (tell (a ∷ more_a)))
unfolding compute_seed_from_stories
compute_seed_comm a b more_a more_b ha has hb hbs =
    rw ((storylist-tell b more_b hb hbs).1, (storylist-tell a more_a ha has).1)
      (ap (join (32 ∷ [])) (sort_two_comm (tell (a ∷ more_a)) (tell (b ∷ more_b))))
