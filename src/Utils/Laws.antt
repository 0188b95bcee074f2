-- ===== src/Utils/Laws.antt =====
-- What the helpers on strings promise.
use anysphere_messaging.Common.{
  ℕ, zero, suc, ◌+◌, ◌-◌, ◌≤◌, ◌<◌, ◌≡◌, refl, JsString, [], ◌∷◌, ◌++◌, text, length, get_elem?,
  arith, length-append, get_elem?_lt,
}
use Prim.Native.Nat.{min}
use anysphere_messaging.Utils.{take, truncate, alphabet, char_at, random_from, random_string}

length-take : (n : ℕ) (s : JsString) → length (take n s) ≡ min n (length s)
unfolding take
length-take zero s = omega arith
length-take (suc n) [] = omega arith
length-take (suc n) (c ∷ s) = omega (arith, length-take n s)

-- A text within the limit is unchanged. A longer one is cut to the limit, if the limit leaves room
-- for the dots, and starts with the text's first characters.
pub length-truncate : (s : JsString) (n : ℕ) → 3 ≤ n → length (truncate s n) ≡ min n (length s)
unfolding truncate text
length-truncate s n h =
    ground (arith, length-append (take (n - 3) s) (text "..."), length-take (n - 3) s)

get_elem?-take :
    (n i : ℕ) (s t : JsString) → i < n → i < length s → get_elem? (take n s ++ t) i ≡ get_elem? s i
unfolding take
get_elem?-take zero i s t h k = absurd (omega arith)
get_elem?-take (suc n) i [] t h k = absurd (omega arith)
get_elem?-take (suc n) zero (c ∷ s) t h k = refl
get_elem?-take (suc n) (suc i) (c ∷ s) t h k = get_elem?-take n i s t (omega arith) (omega arith)

-- The characters in front of the dots are those of the text.
pub get_elem?-truncate :
    (s : JsString) (n i : ℕ) → i + 3 < n → i < length s → get_elem? (truncate s n) i ≡ get_elem? s i
unfolding truncate
get_elem?-truncate s n i h k = ground (arith, get_elem?-take (n - 3) i s (text "..."))

length-char_at : (s : JsString) (i : ℕ) → i < length s → length (char_at s i) ≡ 1
unfolding char_at
length-char_at s i h = let (c, found) = get_elem?_lt s i h in ground arith

length-random_from :
    (draw : ℕ → ℕ) (n k : ℕ) (s : JsString)
    → ((i : ℕ) → draw i < length alphabet)
    → length (random_from draw n k s) ≡ length s + n
unfolding random_from
length-random_from draw zero k s h = omega arith
length-random_from draw (suc n) k s h =
    let c = char_at alphabet (draw k) in
    omega (
      arith,
      length-random_from draw n (k + 1) (s ++ c) h,
      length-append s c,
      length-char_at alphabet (draw k) (h k),
    )

-- The loop of `randomString` stops with exactly as many characters as asked for, where each draw
-- is an index of the alphabet.
pub length-random_string :
    (draw : ℕ → ℕ) (n : ℕ)
    → ((i : ℕ) → draw i < length alphabet)
    → length (random_string draw n) ≡ n
unfolding random_string
length-random_string draw n h = omega (arith, length-random_from draw n 0 [] h)
