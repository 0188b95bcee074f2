-- ===== src/Links/Tests.antt =====
-- A link that is pasted with a space in it, and one that opens the application.
use anysphere_messaging.Common.{
  arith, List, Option, filter, ◌==◌, if◌then◌else◌, ◌≡◌, refl, none, some, [], ◌∷◌, ◌++◌, JsString,
  text, str_eq, get_elem?,
}
use anysphere_messaging.Dialog.{open_dialog, on_dialog, draw_remote_part_two, loaded, drawn_modal}
use anysphere_messaging.Links.{
  is_development, port_or_default, is_space, strip_spaces, after_prefix, pasted_id, strip_scheme,
  strip_host, Validity, valid, Platform, on_open_url, open_page, load_url,
}
use anysphere_messaging.Main.{remote_part_two}
use anysphere_messaging.Links.Checking.{
  types, answers, type_text, on_text, on_validity, answer, step, run, at_remote,
}
use anysphere_messaging.Links.Racing.{IsPasted, texts_of, run-their_id}
use anysphere_messaging.Links.Opening.{
  IsPlain, HasNoMark, is_unmarked, IsDocumented, on_open_url-drawn_modal,
}

abbrev every_valid : JsString → Validity
every_valid id = valid

abbrev public_id : JsString
public_id = text "85dG"

abbrev pasted : JsString
pasted = text " https://anysphere.id/#85dG "

-- A platform on which the page is `/app/renderer/index.html`, and the id is what follows the first
-- question mark with the name of the parameter.
abbrev name_of : List JsString → JsString
name_of (dirname ∷ up ∷ name ∷ rest) = text "/app/renderer" ++ 47 ∷ name
name_of _ = []

abbrev encode : JsString → JsString
encode name = filter is_unmarked name

abbrev after_mark : JsString → Option JsString
after_mark [] = none
after_mark (c ∷ href) =
    let rest = after_mark href in
    let found = after_prefix (text "publicID=") href in if c == 63 then found else rest

abbrev platform : Platform
platform = record {
  node_env = some (text "production");
  port = none;
  dirname = text "/app/main";
  path_resolve = name_of;
  with_pathname = λ origin name. origin ++ 47 ∷ encode name;
  get_public_id = after_mark;
}

encode-HasNoMark : (name : JsString) → HasNoMark (encode name)
encode-HasNoMark [] = refl
encode-HasNoMark (c ∷ name) = ground (arith, encode-HasNoMark name)

encoded-HasNoMark :
    (origin name : JsString) → HasNoMark origin → HasNoMark (origin ++ 47 ∷ encode name)
encoded-HasNoMark [] name h = encode-HasNoMark name
encoded-HasNoMark (c ∷ origin) name h = ground (arith, encoded-HasNoMark origin name (ground arith))

after_mark-found :
    (front id : JsString)
    → HasNoMark front
    → after_mark (front ++ (text "?publicID=" ++ id)) ≡ some id
unfolding after_prefix text
after_mark-found [] id h = refl
after_mark-found (c ∷ front) id h = ground (arith, after_mark-found front id (ground arith))

after_mark-absent : (href : JsString) → HasNoMark href → after_mark href ≡ none
after_mark-absent [] h = refl
after_mark-absent (c ∷ href) h = ground (arith, after_mark-absent href (ground arith))

platform-IsDocumented : IsDocumented platform
unfolding text port_or_default
platform-IsDocumented = record {
  renderer = text "/app/renderer";
  resolved = λ rest h. refl;
  plain_renderer = refl;
  plain_port = refl;
  encoded = encoded-HasNoMark;
  read_back = λ front id h plain. after_mark-found front id h;
  absent = after_mark-absent;
}

public_id-IsPlain : IsPlain public_id
unfolding text
public_id-IsPlain = (refl, (refl, (refl, (refl, tt))))

on_open_url-drawn_modal_example :
    (w : JsString) × (get_elem? (on_open_url platform (text "anysphere://" ++ 47 ∷ public_id) []) 0
      ≡ some w)
    × (drawn_modal (loaded (text "A story.") (text "me") ∷ []) (open_page platform w).modal ≡ (
        if is_development platform.node_env
        then none
        else some (draw_remote_part_two (text "me") public_id)))
    × ((open_page platform (load_url platform none)).modal ≡ none)
on_open_url-drawn_modal_example =
    on_open_url-drawn_modal platform (text "anysphere://") public_id [] (text "A story.")
      (text "me") platform-IsDocumented public_id-IsPlain

-- An id is pasted, and found valid.
abbrev first : JsString
first = text "85dG"

gone_on :
    (run every_valid
      (types first ∷ answers 0 ∷ [])
      (at_remote (open_dialog none none))).dialog.screen
    ≡ remote_part_two
unfolding run step type_text on_text pasted_id strip_spaces strip_scheme strip_host is_space
    after_prefix text str_eq answer on_validity on_dialog
gone_on = refl

run-their_id_example :
    let events = types first ∷ answers 0 ∷ [] in
    let u = run every_valid events (at_remote (open_dialog none none)) in
    (every_valid u.dialog.their_id ≡ valid) × IsPasted (texts_of events) u.dialog.their_id
run-their_id_example =
    run-their_id every_valid (types first ∷ answers 0 ∷ []) (open_dialog none none) gone_on
