-- ===== src/Delivery/Mixing.antt =====
-- Whose text is sent to whom.
use anysphere_messaging.Common.{
  ◌≡◌, ◌≢◌, inl, inr, refl, ap, ◌∙◌, ◌⊎◌, arith, JsString, text, none, some, List, [], map,
}
use anysphere_messaging.Compose.{WriteFriend, WriteData, sent, refused, send, single_newlines}
use anysphere_messaging.Compose.Sending.{send-eq-sent_iff}
use anysphere_messaging.Main.{MainState, edit_write}
use anysphere_messaging.Window.{WindowAction, select_tab, edit, act}
use anysphere_messaging.Window.Drafts.{select}
use anysphere_messaging.Delivery.Editors.{
  WritingState, shown_draft, type_text, do_action, send_shown,
}

-- A draft that can be sent: some contact is chosen and nothing is left in the input.
pub record IsComplete (w : WriteData) : Type 0 where
  pub someone : w.multi_select_state.friends ≢ []
  pub no_query : w.multi_select_state.query ≡ []

abbrev pub names : WriteData → List JsString
names w = map (λ (f : WriteFriend). f.unique_name) w.multi_select_state.friends

send-some :
    (w : WriteData) (markdown : JsString)
    → IsComplete w
    → send w (some markdown) ≡ sent (names w) (single_newlines markdown)
send-some w markdown c =
    (send-eq-sent_iff w (some markdown) (names w) (single_newlines markdown)).1
      (markdown, c.no_query, c.someone, refl, refl, refl)

send-none :
    (w : WriteData)
    → IsComplete w
    → send w none ≡ refused (text "Internal error. Please try again.")
unfolding send
send-none w c = ground (arith, c.someone, c.no_query)

type_text-editor :
    (markdown : JsString) (s : WritingState) {v : WriteData}
    → shown_draft s.main ≡ some v
    → type_text markdown s ≡ record s { editor = some markdown }
unfolding type_text
type_text-editor markdown s e = ground arith

do_action-kept :
    (a : WindowAction) (s : WritingState) {m : MainState} {v w : WriteData}
    → act a s.main ≡ some m
    → shown_draft s.main ≡ some v
    → shown_draft m ≡ some w
    → do_action a s ≡ some (record { main = m; editor = s.editor })
unfolding do_action
do_action-kept a s done before after = ground arith

send_shown-some :
    (s : WritingState) {w : WriteData}
    → shown_draft s.main ≡ some w
    → send_shown s ≡ some (send w s.editor)
unfolding send_shown
send_shown-some s e = ground arith

do_action-fresh :
    (a : WindowAction) (s : WritingState) {m : MainState}
    → act a s.main ≡ some m
    → (shown_draft s.main ≡ none) ⊎ (shown_draft m ≡ none)
    → do_action a s ≡ some (record { main = m; editor = none })
unfolding do_action
do_action-fresh a s done h = ground arith

-- The text is typed while one draft is shown, and the next action of the window shows another or
-- the same one with other contacts: Send sends the text to the contacts that are shown now.
send_shown-next :
    (a : WindowAction) (s : WritingState) (markdown : JsString) (m : MainState) (v w : WriteData)
    → act a s.main ≡ some m
    → shown_draft s.main ≡ some v
    → shown_draft m ≡ some w
    → IsComplete w
    → (u : WritingState) × (do_action a (type_text markdown s) ≡ some u)
      × (send_shown u ≡ some (sent (names w) (single_newlines markdown)))
send_shown-next a s markdown m v w done before after c =
    let u : WritingState = record { main = m; editor = some markdown } in
    (
      u,
      ap (do_action a) (type_text-editor markdown s before)
          ∙ do_action-kept a (record s { editor = some markdown }) done before after,
      send_shown-some u after ∙ ap some (send-some w markdown c),
    )

-- A text is written for a draft, and then contacts are chosen in the same tab: Send sends that text
-- to those contacts. If another tab to write in is selected instead, Send there sends the text of
-- the first tab to the contacts of the second. In both cases the draft that is shown then has some
-- contact and nothing left in its input.
pub send_shown-other_tab :
    (s : WritingState) (id markdown : JsString) (v w x : WriteData)
    → shown_draft s.main ≡ some v
    → shown_draft (edit_write w s.main) ≡ some w
    → shown_draft (select id s.main) ≡ some x
    → IsComplete w
    → IsComplete x
    → ((u : WritingState) × (do_action (edit w) (type_text markdown s) ≡ some u)
        × (send_shown u ≡ some (sent (names w) (single_newlines markdown))))
      × ((u : WritingState) × (do_action (select_tab id) (type_text markdown s) ≡ some u)
          × (send_shown u ≡ some (sent (names x) (single_newlines markdown))))
unfolding act
send_shown-other_tab s id markdown v w x before edited moved c d = (
  send_shown-next (edit w) s markdown (edit_write w s.main) v w refl before edited c,
  send_shown-next (select_tab id) s markdown (select id s.main) v x refl before moved d,
)

-- A text that is written for a draft is lost when a tab is selected that is not one to write in: back in the tab of the draft
-- there is a new editor, and Send is refused until something is written again.
pub send_shown-away :
    (s : WritingState) (away back markdown : JsString) (v w : WriteData)
    → shown_draft s.main ≡ some v
    → shown_draft (select away s.main) ≡ none
    → shown_draft (select back (select away s.main)) ≡ some w
    → IsComplete w
    → (t u : WritingState) × (do_action (select_tab away) (type_text markdown s) ≡ some t)
      × (do_action (select_tab back) t ≡ some u)
      × (send_shown u ≡ some (refused (text "Internal error. Please try again.")))
unfolding act
send_shown-away s away back markdown v w before left returned c =
    let t : WritingState = record { main = select away s.main; editor = none } in
    let u : WritingState = record { main = select back t.main; editor = none } in
    (
      t,
      u,
      ap (do_action (select_tab away)) (type_text-editor markdown s before)
          ∙ do_action-fresh (select_tab away) (record s { editor = some markdown }) refl (inr left),
      do_action-fresh (select_tab back) t refl (inl left),
      send_shown-some u returned ∙ ap some (send-none w c),
    )
