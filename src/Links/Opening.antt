-- ===== src/Links/Opening.antt =====
-- A link that opens the application.
use anysphere_messaging.Common.{
  ℕ, ◌≡◌, all, not, ◌==◌, ◌∙◌, ap, false, Bool-cases, inl, inr, if◌then◌else◌, refl, arith, Bool,
  true, ◌&&◌, ◌||◌, leb, none, some, List, [], ◌∷◌, ◌++◌, JsString, text, All, append_assoc,
  append-nil, sym, get_elem?,
}
use anysphere_messaging.Main.{show_initial_modal, add_friend, remote_part_two}
use anysphere_messaging.Dialog.{loaded, draw_remote_part_two, drawn_modal}
use anysphere_messaging.Links.{
  is_development, port_or_default, resolve_html_path, last_segment_from, last_segment, Platform,
  load_url, create_window, on_open_url, open_page,
}

-- A letter or a digit.
abbrev pub is_plain : ℕ → Bool
is_plain c = leb 48 c && leb c 57 || (leb 65 c && leb c 90 || leb 97 c && leb c 122)

abbrev pub IsPlain : JsString → Type 0
IsPlain id = All (λ c. is_plain c ≡ true) id

-- Neither a question mark nor a number sign, which end the path of an address.
abbrev pub is_unmarked : ℕ → Bool
is_unmarked c = not (c == 63 || c == 35)

abbrev pub HasNoMark : JsString → Type 0
HasNoMark s = all is_unmarked s ≡ true

-- No separator of a path.
abbrev pub is_no_separator : ℕ → Bool
is_no_separator c = not (c == 47 || c == 92)

abbrev pub HasNoSeparator : JsString → Type 0
HasNoSeparator s = all is_no_separator s ≡ true

-- What is known of a platform whose paths have slashes: `path.resolve` puts the name of the page
-- behind the directory of the renderer; setting a `pathname` encodes both marks in it; the directory
-- and the port hold none; and `URLSearchParams` reads a parameter of letters and digits as it stands
-- behind the first question mark, and none where there is no question mark.
pub record IsDocumented (p : Platform) : Type 0 where
  pub renderer : JsString
  pub resolved :
      (rest : JsString)
      → HasNoSeparator rest
      → p.path_resolve (p.dirname ∷ text "../renderer/" ∷ (text "index.html" ++ rest) ∷ [])
        ≡ renderer ++ 47 ∷ (text "index.html" ++ rest)
  pub plain_renderer : HasNoMark renderer
  pub plain_port : HasNoMark (port_or_default p.port)
  pub encoded :
      (origin name : JsString) → HasNoMark origin → HasNoMark (p.with_pathname origin name)
  pub read_back :
      (front id : JsString)
      → HasNoMark front
      → IsPlain id
      → p.get_public_id (front ++ (text "?publicID=" ++ id)) ≡ some id
  pub absent : (href : JsString) → HasNoMark href → p.get_public_id href ≡ none

last_segment_from-plain :
    (segment id : JsString) → IsPlain id → last_segment_from segment id ≡ segment ++ id
unfolding last_segment_from
last_segment_from-plain segment [] h = sym (append-nil segment)
last_segment_from-plain segment (c ∷ id) (p, h) =
    ground
      (arith, last_segment_from-plain (segment ++ c ∷ []) id h, append_assoc segment (c ∷ []) id)

last_segment_from-front :
    (front segment id : JsString) → IsPlain id → last_segment_from segment (front ++ 47 ∷ id) ≡ id
unfolding last_segment_from
last_segment_from-front [] segment id h = last_segment_from-plain [] id h
last_segment_from-front (c ∷ front) segment id h = ground (
  arith,
  last_segment_from-front front [] id h,
  last_segment_from-front front (segment ++ c ∷ []) id h,
)

pub last_segment-front : (front id : JsString) → IsPlain id → last_segment (front ++ 47 ∷ id) ≡ id
unfolding last_segment
last_segment-front front id h = last_segment_from-front front [] id h

open_page-some :
    (p : Platform) (href : JsString) {id : JsString}
    → p.get_public_id href ≡ some id
    → (open_page p href).modal ≡ some (add_friend (some remote_part_two) none (some id))
unfolding open_page show_initial_modal
open_page-some p href e = ground arith

open_page-none :
    (p : Platform) (href : JsString) → p.get_public_id href ≡ none → (open_page p href).modal ≡ none
unfolding open_page show_initial_modal
open_page-none p href e = ground arith

first_window :
    (p : Platform) (front id : JsString) (windows : List JsString)
    → IsPlain id
    → get_elem? (on_open_url p (front ++ 47 ∷ id) windows) 0
      ≡ some (resolve_html_path p (text "index.html?publicID=" ++ id))
unfolding on_open_url create_window load_url
first_window p front id [] h = rw (last_segment-front front id h) refl
first_window p front id (w ∷ windows) h = rw (last_segment-front front id h) refl

all-append :
    (p : ℕ → Bool) (s t : JsString) → all p s ≡ true → all p t ≡ true → all p (s ++ t) ≡ true
all-append p [] t h k = k
all-append p (c ∷ s) t h k = ground (arith, all-append p s t (ground arith) k)

IsPlain-HasNoSeparator : (id : JsString) → IsPlain id → HasNoSeparator id
IsPlain-HasNoSeparator [] h = refl
IsPlain-HasNoSeparator (c ∷ id) (p, h) = ground (arith, IsPlain-HasNoSeparator id h)

-- The address of the page in a release, in front of its parameter.
abbrev pub release_page : JsString → JsString
release_page renderer = text "file://" ++ (renderer ++ text "/index.html")

release_page-HasNoMark :
    (renderer : JsString) → HasNoMark renderer → HasNoMark (release_page renderer)
unfolding text
release_page-HasNoMark renderer h = all-append is_unmarked renderer (text "/index.html") h refl

resolved-release :
    (p : Platform) (rest : JsString) (d : IsDocumented p)
    → is_development p.node_env ≡ false
    → HasNoSeparator rest
    → resolve_html_path p (text "index.html" ++ rest) ≡ release_page d.renderer ++ rest
unfolding resolve_html_path text
resolved-release p rest d e h =
    let behind : JsString → JsString = λ s. text "file://" ++ s in
    let name = text "index.html" ++ rest in
    let at_release : resolve_html_path p name
        ≡ behind (p.path_resolve (p.dirname ∷ text "../renderer/" ∷ name ∷ [])) =
      rw e refl in
    at_release
    ∙ (ap behind (d.resolved rest h)
        ∙ ap behind (sym (append_assoc d.renderer (text "/index.html") rest)))

resolved-development :
    (p : Platform) (name : JsString) (d : IsDocumented p)
    → is_development p.node_env ≡ true
    → HasNoMark (resolve_html_path p name)
unfolding resolve_html_path text
resolved-development p name d e =
    rw e (d.encoded (text "http://localhost:" ++ port_or_default p.port) name d.plain_port)

-- What a page reads of the address that it is given for an id.
read_back-resolved :
    (p : Platform) (id : JsString)
    → IsDocumented p
    → IsPlain id
    → (p.get_public_id (resolve_html_path p (text "index.html?publicID=" ++ id))
        ≡ (if is_development p.node_env then none else some id))
      × (p.get_public_id (resolve_html_path p (text "index.html")) ≡ none)
unfolding text
read_back-resolved p id d h = elim (Bool-cases (is_development p.node_env)) [
  | inl development ↦ (
    rw development (d.absent _ (resolved-development p _ d development)),
    d.absent _ (resolved-development p _ d development),
  )
  | inr release ↦ (
    rw release (
        ap p.get_public_id
          (resolved-release p (text "?publicID=" ++ id) d release (IsPlain-HasNoSeparator id h))
        ∙ d.read_back (release_page d.renderer) id
            (release_page-HasNoMark d.renderer d.plain_renderer) h),
    ap p.get_public_id (resolved-release p [] d release refl)
        ∙ (ap p.get_public_id (append-nil (release_page d.renderer))
            ∙ d.absent (release_page d.renderer)
                (release_page-HasNoMark d.renderer d.plain_renderer)),
  )
]

drawn-page :
    (p : Platform) (href id story public_id : JsString) (development : Bool)
    → p.get_public_id href ≡ (if development then none else some id)
    → drawn_modal (loaded story public_id ∷ []) (open_page p href).modal
      ≡ (if development then none else some (draw_remote_part_two public_id id))
unfolding drawn_modal
drawn-page p href id story public_id true e = rw (open_page-none p href e) refl
drawn-page p href id story public_id false e = rw (open_page-some p href e) refl

-- Where paths have slashes and the platform does what its documentation says: opening a link that
-- ends in a slash and an id of letters and digits loads a page in the first window, or in a new one
-- where there is none. Outside development it shows the dialog that adds the contact with that id.
-- In development it shows no dialog: the address has the id in an encoded path. A window that is
-- opened for no link shows no dialog.
pub on_open_url-drawn_modal :
    (p : Platform) (front id : JsString) (windows : List JsString) (story public_id : JsString)
    → IsDocumented p
    → IsPlain id
    → (w : JsString) × (get_elem? (on_open_url p (front ++ 47 ∷ id) windows) 0 ≡ some w)
      × (drawn_modal (loaded story public_id ∷ []) (open_page p w).modal
          ≡ (if is_development p.node_env then none else some (draw_remote_part_two public_id id)))
      × ((open_page p (load_url p none)).modal ≡ none)
unfolding load_url
on_open_url-drawn_modal p front id windows story public_id d h =
    let href = resolve_html_path p (text "index.html?publicID=" ++ id) in
    let (with_id, without) = read_back-resolved p id d h in
    (
      href,
      first_window p front id windows h,
      drawn-page p href id story public_id (is_development p.node_env) with_id,
      open_page-none p (resolve_html_path p (text "index.html")) without,
    )
