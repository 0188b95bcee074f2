-- ===== src/Window/SideBar.antt =====
-- The sidebar (client/gui/src/renderer/components/SideBar/SideBar.tsx): a list of five rows that the
-- keys move in, each of which presses a button of the window.
use anysphere_messaging.Common.{
  ℕ, zero, suc, ◌+◌, ◌-◌, ◌≤◌, ◌≡◌, refl, ◌∙◌, ap, arith, true, false, none, some, List, [], ◌∷◌,
  ◌++◌, JsString, String, text, str_eq, ltb, if◌then◌else◌,
}
use anysphere_messaging.Common.Int.{ℤ, pos}
use anysphere_messaging.Tabs.{KeyEvent}
use anysphere_messaging.SelectableList.{
  Row, item, ListItem, is_divider_at, start_index, loop_up, loop_down, previous_index, next_index,
  moved, clicked, ignored, handle_key, execute,
}
use anysphere_messaging.Main.{
  MainState, SideBarButton, inbox_button, outbox_button, sent_button, add_friend_button,
  invitations_button, side_bar_callback,
}

option : String → String → SideBarButton → Row (ListItem JsString SideBarButton)
unfolding text
option id name button = item (record { id = text id; value = text name; action = some button })

unfoldable pub selectable_option : List (Row (ListItem JsString SideBarButton))
unfolding option
selectable_option =
    option "inbox" "Inbox" inbox_button
    ∷ option "outbox" "Outbox" outbox_button
    ∷ option "sent" "Sent" sent_button
    ∷ option "add-friend" "Add Friend" add_friend_button
    ∷ option "invitations" "Invitations" invitations_button
    ∷ []

-- The active row and the window.
pub record SideBarState : Type 0 where
  pub active_index : ℤ
  pub main : MainState

-- A key in the open sidebar, whose list is searchable.
unfoldable pub on_key : KeyEvent → SideBarState → SideBarState
unfolding selectable_option handle_key execute side_bar_callback
on_key e s = elim (handle_key selectable_option true e s.active_index) [
  | moved z ↦ record s { active_index = z }
  | clicked ↦ elim (execute selectable_option s.active_index) [
    | none ↦ s
    | some button ↦ record s { main = side_bar_callback button s.main }
  ]
  | ignored ↦ s
]

unfoldable pub on_keys : List KeyEvent → SideBarState → SideBarState
unfolding on_key
on_keys [] s = s
on_keys (e ∷ es) s = on_keys es (on_key e s)

abbrev pub key_event : String → KeyEvent
key_event name = record { ctrl_key = false; shift_key = false; meta_key = false; key = text name }

abbrev pub times : ℕ → KeyEvent → List KeyEvent
times zero e = []
times (suc n) e = e ∷ times n e

-- The rows from the top, the last one for all that is below.
abbrev pub button_at : ℕ → SideBarButton
button_at zero = inbox_button
button_at (suc zero) = outbox_button
button_at (suc (suc zero)) = sent_button
button_at (suc (suc (suc zero))) = add_friend_button
button_at (suc (suc (suc (suc n)))) = invitations_button

abbrev pub at_most_4 : ℕ → ℕ
at_most_4 n = if ltb n 4 then n else 4

down_key :
    (i : ℕ) (s : MainState)
    → i ≤ 4
    → on_key (key_event "ArrowDown") (record { active_index = pos i; main = s })
      ≡ record { active_index = pos (at_most_4 (i + 1)); main = s }
unfolding on_key handle_key next_index loop_down is_divider_at selectable_option option text str_eq
down_key zero s h = refl
down_key (suc zero) s h = refl
down_key (suc (suc zero)) s h = refl
down_key (suc (suc (suc zero))) s h = refl
down_key (suc (suc (suc (suc zero)))) s h = refl
down_key (suc (suc (suc (suc (suc i))))) s h = absurd (omega arith)

up_key :
    (i : ℕ) (s : MainState)
    → i ≤ 4
    → on_key (key_event "ArrowUp") (record { active_index = pos i; main = s })
      ≡ record { active_index = pos (i - 1); main = s }
unfolding on_key handle_key previous_index loop_up start_index is_divider_at selectable_option
    option text str_eq
up_key zero s h = refl
up_key (suc zero) s h = refl
up_key (suc (suc zero)) s h = refl
up_key (suc (suc (suc zero))) s h = refl
up_key (suc (suc (suc (suc zero)))) s h = refl
up_key (suc (suc (suc (suc (suc i))))) s h = absurd (omega arith)

enter_key :
    (i : ℕ) (s : MainState)
    → i ≤ 4
    → on_key (key_event "Enter") (record { active_index = pos i; main = s })
      ≡ record { active_index = pos i; main = side_bar_callback (button_at i) s }
unfolding on_key handle_key execute selectable_option option text str_eq
enter_key zero s h = refl
enter_key (suc zero) s h = refl
enter_key (suc (suc zero)) s h = refl
enter_key (suc (suc (suc zero))) s h = refl
enter_key (suc (suc (suc (suc zero)))) s h = refl
enter_key (suc (suc (suc (suc (suc i))))) s h = absurd (omega arith)

on_keys-append :
    (es fs : List KeyEvent) (s : SideBarState) → on_keys (es ++ fs) s ≡ on_keys fs (on_keys es s)
unfolding on_keys
on_keys-append [] fs s = refl
on_keys-append (e ∷ es) fs s = on_keys-append es fs (on_key e s)

down_keys :
    (n i : ℕ) (s : MainState)
    → i ≤ 4
    → on_keys (times n (key_event "ArrowDown")) (record { active_index = pos i; main = s })
      ≡ record { active_index = pos (at_most_4 (i + n)); main = s }
unfolding on_keys
down_keys zero i s h = ground arith
down_keys (suc n) i s h =
    ap (on_keys (times n (key_event "ArrowDown"))) (down_key i s h)
    ∙ down_keys n (at_most_4 (i + 1)) s (ground arith)
    ∙ ap (λ (j : ℕ). record { active_index = pos j; main = s }) (ground arith)

down_keys_from_top :
    (n : ℕ) (s : MainState)
    → on_keys (times n (key_event "ArrowDown")) (record { active_index = pos 0; main = s })
      ≡ record { active_index = pos (at_most_4 n); main = s }
down_keys_from_top n s =
    down_keys n 0 s (omega arith)
    ∙ ap (λ (j : ℕ). record { active_index = pos j; main = s }) (ground arith)

up_keys :
    (n i : ℕ) (s : MainState)
    → i ≤ 4
    → on_keys (times n (key_event "ArrowUp")) (record { active_index = pos i; main = s })
      ≡ record { active_index = pos (i - n); main = s }
unfolding on_keys
up_keys zero i s h = ground arith
up_keys (suc n) i s h =
    ap (on_keys (times n (key_event "ArrowUp"))) (up_key i s h)
    ∙ up_keys n (i - 1) s (omega arith)
    ∙ ap (λ (j : ℕ). record { active_index = pos j; main = s }) (ground arith)

-- In the sidebar as it opens, some presses of the arrow down, then some of the arrow up and Enter
-- press the button that they count to, where the row at the bottom and the one at the top are not
-- left.
pub on_keys-enter :
    (downs ups : ℕ) (s : MainState)
    → on_keys
        (times downs (key_event "ArrowDown")
          ++ (times ups (key_event "ArrowUp") ++ key_event "Enter" ∷ []))
        (record { active_index = pos 0; main = s })
      ≡ record {
        active_index = pos (at_most_4 downs - ups);
        main = side_bar_callback (button_at (at_most_4 downs - ups)) s;
      }
unfolding on_keys
on_keys-enter downs ups s =
    on_keys-append (times downs (key_event "ArrowDown")) _ _
    ∙ ap (on_keys (times ups (key_event "ArrowUp") ++ key_event "Enter" ∷ []))
        (down_keys_from_top downs s)
    ∙ on_keys-append (times ups (key_event "ArrowUp")) _ _
    ∙ ap (on_keys (key_event "Enter" ∷ [])) (up_keys ups (at_most_4 downs) s (ground arith))
    ∙ enter_key (at_most_4 downs - ups) s (ground arith)
