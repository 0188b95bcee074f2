-- ===== src/Utils.antt =====
-- The helpers of client/gui/src/renderer/utils.ts on strings. The `truncate` of
-- client/gui/src/main/daemon.ts takes `substring` where this one takes `substr`: from index 0 the
-- two agree, and a negative end or length gives the empty string.
pub mod Laws
mod Tests
use anysphere_messaging.Common.{
  ℕ, zero, suc, ◌+◌, ◌-◌, ◌/◌, ◌%◌, JsString, List, [], ◌∷◌, ◌++◌, text, length, leb, ltb,
  get_elem?, if◌then◌else◌, none, some, join, filter, not, Bool, true, false,
}

-- `s.substr(0, n)`, with `n` cut off at 0.
unfoldable pub take : ℕ → JsString → JsString
take zero s = []
take (suc n) [] = []
take (suc n) (c ∷ s) = c ∷ take n s

unfoldable pub truncate : JsString → ℕ → JsString
truncate str max_length =
    if leb (length str) max_length then str else take (max_length - 3) str ++ text "..."

unfoldable pub alphabet : JsString
unfolding text
alphabet = text "abcdefghijklmnopqrstuvwxyzABCDEFGHIJKLMNOPQRSTUVWXYZ0123456789"

-- `charAt`, empty out of range.
unfoldable pub char_at : JsString → ℕ → JsString
char_at s i = elim (get_elem? s i) [ none ↦ [] | some c ↦ c ∷ [] ]

-- The loop of `randomString`, by the rounds that are left; `draw k` is the value of
-- `(Math.random() * 62) | 0` in round `k`.
unfoldable pub random_from : (ℕ → ℕ) → ℕ → ℕ → JsString → JsString
random_from draw zero k s = s
random_from draw (suc n) k s = random_from draw n (k + 1) (s ++ char_at alphabet (draw k))

unfoldable pub random_string : (ℕ → ℕ) → ℕ → JsString
random_string draw n = random_from draw n 0 []

is_empty : JsString → Bool
is_empty [] = true
is_empty (_ ∷ _) = false

-- `classes.filter(Boolean).join(" ")`: the empty string is falsy.
unfoldable pub class_names : List JsString → JsString
unfolding is_empty text
class_names classes = join (text " ") (filter (λ c. not (is_empty c)) classes)

-- `${n}` for a natural number, digit by digit; more fuel than the number has digits is enough.
unfoldable pub decimal_from : ℕ → ℕ → JsString → JsString
decimal_from zero n out = out
decimal_from (suc fuel) n out =
    let rest = decimal_from fuel (n / 10) ((48 + n % 10) ∷ out) in
    if ltb n 10 then (48 + n) ∷ out else rest

unfoldable pub decimal : ℕ → JsString
unfolding decimal_from
decimal n = decimal_from (suc n) n []
