-- ===== src/Links/Pasting.antt =====
-- A link that is copied and pasted.
use anysphere_messaging.Common.{
  ◌≡◌, refl, ap, inl, inr, arith, false, some, [], ◌∷◌, ◌++◌, JsString, text, All, Bool-cases,
}
use anysphere_messaging.Links.{
  is_space, strip_spaces, after_prefix, strip_scheme, strip_host, pasted_id, copied_link,
}

pub after_prefix-append : (p s : JsString) → after_prefix p (p ++ s) ≡ some s
unfolding after_prefix
after_prefix-append [] s = refl
after_prefix-append (a ∷ p) s = ground (arith, after_prefix-append p s)

-- No white space.
abbrev pub IsSolid : JsString → Type 0
IsSolid s = All (λ c. is_space c ≡ false) s

strip_spaces-IsSolid : (s : JsString) → IsSolid s → strip_spaces s ≡ s
unfolding strip_spaces
strip_spaces-IsSolid [] h = refl
strip_spaces-IsSolid (c ∷ s) (p, h) = ground (arith, strip_spaces-IsSolid s h)

strip_spaces-append : (s t : JsString) → strip_spaces (s ++ t) ≡ strip_spaces s ++ strip_spaces t
unfolding strip_spaces
strip_spaces-append [] t = refl
strip_spaces-append (c ∷ s) t = elim (Bool-cases (is_space c)) [
  | inl space ↦ ground (arith, strip_spaces-append s t)
  | inr other ↦ ground (arith, strip_spaces-append s t)
]

-- The copied link has no white space where the id has none.
pub strip_spaces-copied_link :
    (id : JsString) → IsSolid id → strip_spaces (copied_link id) ≡ copied_link id
unfolding copied_link strip_spaces is_space text
strip_spaces-copied_link id h =
    ap (λ (s : JsString). text "https://anysphere.id/#" ++ s) (strip_spaces-IsSolid id h)

-- The ways to write a link: as it is copied, with the other scheme, and as it is shown.
pub data Scheme : Type 0 where
  https http bare : Scheme

unfoldable pub link : Scheme → JsString → JsString
unfolding copied_link
link https id = copied_link id
link http id = text "http://anysphere.id/#" ++ id
link bare id = text "anysphere.id/#" ++ id

stripped_link : (scheme : Scheme) (id : JsString) → strip_host (strip_scheme (link scheme id)) ≡ id
unfolding link copied_link strip_scheme strip_host after_prefix text
stripped_link https id = refl
stripped_link http id = refl
stripped_link bare id = refl

pub pasted_id-link :
    (scheme : Scheme) (id pasted : JsString)
    → strip_spaces pasted ≡ link scheme id
    → pasted_id pasted ≡ id
unfolding pasted_id
pasted_id-link scheme id pasted e = rw e (stripped_link scheme id)
