-- ===== src/Compose/Sending.antt =====
-- What is sent, and when.
use anysphere_messaging.Common.{
  ◌≡◌, ◌≢◌, ◌↔◌, refl, arith, Option, none, some, List, [], ◌∷◌, ◌++◌, map, JsString, join, All, ap,
  ◌∙◌, sym,
}
use anysphere_messaging.Compose.{WriteFriend, WriteData, sent, send, single_newlines}

abbrev pub HasNoNewline : JsString → Type 0
HasNoNewline s = All (λ c. c ≢ 10) s

single_newlines-append :
    (s t : JsString)
    → HasNoNewline s
    → single_newlines (s ++ (10 ∷ 10 ∷ t)) ≡ s ++ (10 ∷ single_newlines t)
unfolding single_newlines
single_newlines-append [] t h = refl
single_newlines-append (c ∷ []) t (p, h) = ground arith
single_newlines-append (c ∷ d ∷ s) t (p, h) = ground (arith, single_newlines-append (d ∷ s) t h)

single_newlines_plain : (s : JsString) → HasNoNewline s → single_newlines s ≡ s
unfolding single_newlines
single_newlines_plain [] h = refl
single_newlines_plain (c ∷ []) h = refl
single_newlines_plain (c ∷ d ∷ s) (p, h) = ground (arith, single_newlines_plain (d ∷ s) h)

-- The markdown of the editor separates paragraphs by an empty line. What is sent has the same
-- paragraphs, empty ones included, one to a line.
pub single_newlines-join :
    (paragraphs : List JsString)
    → All HasNoNewline paragraphs
    → single_newlines (join (10 ∷ 10 ∷ []) paragraphs) ≡ join (10 ∷ []) paragraphs
unfolding join
single_newlines-join [] h = unfold single_newlines in refl
single_newlines-join (p ∷ []) (h, _) = single_newlines_plain p h
single_newlines-join (p ∷ q ∷ ps) (h, hs) =
    single_newlines-append p (join (10 ∷ 10 ∷ []) (q ∷ ps)) h
    ∙ ap (λ (t : JsString). p ++ (10 ∷ t)) (single_newlines-join (q ∷ ps) hs)

-- `send` inverted.
pub send-eq-sent_iff :
    (w : WriteData) (editor : Option JsString) (names : List JsString) (content : JsString)
    → (send w editor ≡ sent names content) ↔ (
        (markdown : JsString) × (w.multi_select_state.query ≡ [])
        × (w.multi_select_state.friends ≢ [])
        × (editor ≡ some markdown)
        × (names ≡ map (λ (f : WriteFriend). f.unique_name) w.multi_select_state.friends)
        × (content ≡ single_newlines markdown))
unfolding send
send-eq-sent_iff w none names content = (λ h. ground arith, λ h. ground arith)
send-eq-sent_iff w (some markdown) names content = (
  λ h. (markdown, ground arith, ground arith, refl, ground arith, ground arith),
  λ h. ground arith,
)

-- The editor gives paragraphs, none with a newline in it, with an empty line between two of them.
-- `send` then sends exactly when nothing is left in the input and some contact is chosen: to the
-- unique names of the chosen contacts, in order, the same paragraphs, one to a line. Without the
-- editor it sends nothing, whatever is chosen.
pub send-paragraphs_iff :
    (w : WriteData) (paragraphs : List JsString) (names : List JsString) (content : JsString)
    → All HasNoNewline paragraphs
    → ((send w (some (join (10 ∷ 10 ∷ []) paragraphs)) ≡ sent names content) ↔ (
        (w.multi_select_state.query ≡ [])
        × (w.multi_select_state.friends ≢ [])
        × (names ≡ map (λ (f : WriteFriend). f.unique_name) w.multi_select_state.friends)
        × (content ≡ join (10 ∷ []) paragraphs)))
      × (send w none ≢ sent names content)
send-paragraphs_iff w paragraphs names content h =
    let markdown = join (10 ∷ 10 ∷ []) paragraphs in
    let lines = single_newlines-join paragraphs h in
    let (there, back) = send-eq-sent_iff w (some markdown) names content in
    (
      (
        λ e.
            let (m, query, friends, given, to_, text_) = there e in
            (query, friends, to_, text_ ∙ (ap single_newlines (ground (arith, given)) ∙ lines)),
        λ k.
            let (query, friends, to_, text_) = k in
            back (markdown, query, friends, refl, to_, text_ ∙ sym lines),
      ),
      λ e. let (m, _, _, given, _, _) = (send-eq-sent_iff w none names content).0 e in ground arith,
    )
