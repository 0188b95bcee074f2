-- ===== src/Compose/AutoLinks.antt =====
-- The matchers that make links of what is written
-- (client/gui/src/renderer/components/Compose/Plugins/AsphrAutoLinkPlugin.tsx). What the two regular
-- expressions find is a parameter.
use anysphere_messaging.Common.{
  ℕ, ◌≡◌, refl, Bool, true, false, ◌&&◌, ◌||◌, JsString, text, str_eq, Option, none, some, [], ◌∷◌,
  ◌++◌, length, if◌then◌else◌,
}

-- `match.index` and `match[0]`.
pub record Found : Type 0 where
  pub index : ℕ
  pub matched : JsString

pub record LinkMatch : Type 0 where
  pub index : ℕ
  pub length_of : ℕ
  pub label : JsString
  pub url : JsString

-- `substring(0, n)` compared with a string of the length `n`.
unfoldable pub starts_with : JsString → JsString → Bool
starts_with [] s = true
starts_with (c ∷ p) [] = false
starts_with (c ∷ p) (d ∷ s) = let rest = starts_with p s in str_eq (c ∷ []) (d ∷ []) && rest

unfoldable pub link_url : JsString → JsString
unfolding starts_with text
link_url found =
    if starts_with (text "http") found || starts_with (text "ftp") found
    then found
    else text "https://" ++ found

unfoldable pub url_matcher : (JsString → Option Found) → JsString → Option LinkMatch
unfolding link_url
url_matcher exec s = elim (exec s) [
  | none ↦ none
  | some found ↦ some (record {
    index = found.index;
    length_of = length found.matched;
    label = found.matched;
    url = link_url found.matched;
  })
]

unfoldable pub email_matcher : (JsString → Option Found) → JsString → Option LinkMatch
unfolding text
email_matcher exec s = elim (exec s) [
  | none ↦ none
  | some found ↦ some (record {
    index = found.index;
    length_of = length found.matched;
    label = found.matched;
    url = text "mailto:" ++ found.matched;
  })
]

-- A host that starts with the letters http gets no scheme, and one with two slashes before it gets
-- two more.
pub link_url-bare :
    (link_url (text "httpbin.org") ≡ text "httpbin.org")
    × (link_url (text "//a.org") ≡ text "https:////a.org")
unfolding link_url starts_with text str_eq
link_url-bare = (refl, refl)
