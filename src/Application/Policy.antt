-- ===== src/Application/Policy.antt =====
-- The headers of the answers that a page gets (`onHeadersReceived` in `createWindow` of
-- client/gui/src/main/main.ts). An object is a list of its keys with their values, each key once;
-- the keys of headers are compared as they are spelled.
use anysphere_messaging.Common.{
  ◌≡◌, refl, arith, Option, none, some, List, [], ◌∷◌, JsString, text, str_eq, str_eq_iff,
  str_eq_refl, if◌then◌else◌,
}

abbrev pub Headers : Type 0
Headers = List (JsString × List JsString)

-- `{ ...headers, [name]: value }`
unfoldable pub with_header : JsString → List JsString → Headers → Headers
with_header name value [] = (name, value) ∷ []
with_header name value ((n, v) ∷ headers) =
    let rest = with_header name value headers in
    if str_eq n name then (n, value) ∷ headers else (n, v) ∷ rest

unfoldable pub header : JsString → Headers → Option (List JsString)
header name [] = none
header name ((n, v) ∷ headers) =
    let rest = header name headers in if str_eq n name then some v else rest

unfoldable pub policy_name : JsString
unfolding text
policy_name = text "Content-Security-Policy"

unfoldable pub policy : List JsString
unfolding text
policy = text "default-src 'self'; style-src 'self' 'unsafe-inline'" ∷ []

unfoldable pub on_headers_received : Headers → Headers
unfolding with_header policy_name policy
on_headers_received headers = with_header policy_name policy headers

header-with_header :
    (name asked : JsString) (value : List JsString) (headers : Headers)
    → header asked (with_header name value headers)
      ≡ (if str_eq name asked then some value else header asked headers)
unfolding header with_header
header-with_header name asked value [] = refl
header-with_header name asked value ((n, v) ∷ headers) = ground (
  arith,
  header-with_header name asked value headers,
  str_eq_iff n name,
  str_eq_iff name asked,
  str_eq_iff n asked,
)

with_header-twice :
    (name : JsString) (value : List JsString) (headers : Headers)
    → with_header name value (with_header name value headers) ≡ with_header name value headers
unfolding with_header
with_header-twice name value [] = ground (arith, str_eq_refl name)
with_header-twice name value ((n, v) ∷ headers) =
    ground (arith, with_header-twice name value headers)

-- Whatever headers an answer has, it gets the policy of the application in place of its own, keeps
-- its other headers, and gets nothing more when the listener runs again.
pub header-on_headers_received :
    (asked : JsString) (headers : Headers)
    → (header asked (on_headers_received headers)
        ≡ (if str_eq policy_name asked then some policy else header asked headers))
      × (on_headers_received (on_headers_received headers) ≡ on_headers_received headers)
unfolding on_headers_received
header-on_headers_received asked headers = (
  header-with_header policy_name asked policy headers,
  with_header-twice policy_name policy headers,
)
