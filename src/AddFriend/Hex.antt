-- ===== src/AddFriend/Hex.antt =====
-- The hexadecimal form of a hash.
use anysphere_messaging.Common.{
  ℕ, ◌+◌, ◌/◌, ◌%◌, ◌≡◌, ◌<◌, refl, sym, ◌∙◌, arith, List, [], ◌∷◌, All, ap, length,
}
use mathlib.Core.Path.{ap₂}
use anysphere_messaging.AddFriend.{hex_digit, to_hex, pad_start, hash_hex}

hex_digit_inj : (a b : ℕ) → a < 16 → b < 16 → hex_digit a ≡ hex_digit b → a ≡ b
unfolding hex_digit
hex_digit_inj a b h k e = ground arith

-- A byte has two digits.
two_digits : (b : ℕ) → pad_start (to_hex b) ≡ hex_digit (b / 16) ∷ hex_digit (b % 16) ∷ []
unfolding to_hex pad_start hex_digit
two_digits b = ground arith

abbrev pub IsByte : ℕ → Type 0
IsByte b = b < 256

hash_hex-cons :
    (b : ℕ) (bytes : List ℕ)
    → hash_hex (b ∷ bytes) ≡ hex_digit (b / 16) ∷ (hex_digit (b % 16) ∷ hash_hex bytes)
unfolding hash_hex
hash_hex-cons b bytes = rw two_digits

byte_inj :
    (x y : ℕ)
    → IsByte x
    → IsByte y
    → hex_digit (x / 16) ≡ hex_digit (y / 16)
    → hex_digit (x % 16) ≡ hex_digit (y % 16)
    → x ≡ y
byte_inj x y p q e e' = omega (
  arith,
  hex_digit_inj (x / 16) (y / 16) (omega arith) (omega arith) e,
  hex_digit_inj (x % 16) (y % 16) (omega arith) (omega arith) e',
)

length-hash_hex : (a : List ℕ) → length (hash_hex a) ≡ length a + length a
length-hash_hex [] = unfold hash_hex in omega arith
length-hash_hex (x ∷ a) = rw hash_hex-cons (omega (arith, length-hash_hex a))

inj : (a b : List ℕ) → All IsByte a → All IsByte b → hash_hex a ≡ hash_hex b → a ≡ b
inj [] [] h k e = refl
inj [] (y ∷ b) h k e =
    absurd (omega (arith, length-hash_hex [], length-hash_hex (y ∷ b), ap length e))
inj (x ∷ a) [] h k e =
    absurd (omega (arith, length-hash_hex (x ∷ a), length-hash_hex [], ap length e))
inj (x ∷ a) (y ∷ b) (p, h) (q, k) e =
    let same = sym (hash_hex-cons x a) ∙ e ∙ hash_hex-cons y b in
    let first : hex_digit (x / 16) ≡ hex_digit (y / 16) = cc in
    let second : hex_digit (x % 16) ≡ hex_digit (y % 16) = cc in
    let rest : hash_hex a ≡ hash_hex b = cc in
    ap₂ ◌∷◌ (byte_inj x y p q first second) (inj a b h k rest)

-- The form of a hash has two digits for each byte, and two hashes of the same form are the same.
pub hash_hex_inj :
    (a b : List ℕ)
    → All IsByte a
    → All IsByte b
    → hash_hex a ≡ hash_hex b
    → (a ≡ b) × (length (hash_hex a) ≡ length a + length a)
hash_hex_inj a b h k e = (inj a b h k e, length-hash_hex a)
