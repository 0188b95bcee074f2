-- ===== src/Window/Drawing.antt =====
-- What the window draws: the casts of the selected tab's data (client/gui/src/renderer/Main.tsx).
use anysphere_messaging.Common.{
  ℕ, ◌≡◌, inl, inr, refl, arith, true, some, List, text, find, Option-cases, Bool-cases,
}
use anysphere_messaging.Compose.{WriteData}
use anysphere_messaging.Tabs.{Tab, TabsState, write, close_tab, selected_actual_tab}
use anysphere_messaging.CmdK.Visual.{KBarState}
use anysphere_messaging.CmdK.Shortcuts.{Effect, opened_at, performed}
use anysphere_messaging.Window.Drawn.{
  IsDrawn, AreDrawn, AreDrawn-push, AreDrawn-close, AreDrawn-switch, AreDrawn-update, AreDrawn-same,
  stale_next_tab-HasSameTabs, handle_key-AreDrawn, selected-IsDrawn, open_or_push-AreDrawn,
}
use anysphere_messaging.Main.{
  Message, TabData, write_data, MainState, read_message, read_tab, edit_write, empty_write,
  write_tab, write_message, SideBarButton, inbox_button, outbox_button, sent_button,
  add_friend_button, invitations_button, on_button, side_bar_callback, open_outbox, open_sent,
  outbox_tab, sent_tab, invitations_tab, open_friend_modal, close_modal, already_read, type_eq,
}
use anysphere_messaging.Window.Escape.{close_by_escape-tabs_state}
use anysphere_messaging.Window.{
  default_tabs, opened, Component, new_messages, all_messages, outbox_messages, sent_messages,
  invitation_lists, read_view, write_view, selected_component, WindowAction, open_message, edit,
  compose, press_button, select_tab, close_by_button, press_key, close_shown, act, stale_next_tab,
  perform, run_effect, WindowState, on_escape,
}

-- The states that the window comes to: by what is done in it, by the palette's actions, and by
-- Escape with the palette in any state.
pub data Reachable : MainState → Type 0 where
  start : Reachable opened
  acted : {s u : MainState} (a : WindowAction) → Reachable s → act a s ≡ some u → Reachable u
  ran :
      {s u : MainState} (draw : ℕ → ℕ) (e : Effect)
      → Reachable s
      → run_effect draw e s ≡ some u
      → Reachable u
  left :
      {s : MainState} (k : KBarState)
      → Reachable s
      → Reachable (on_escape (record { main = s; kbar = k })).main

opened-AreDrawn : AreDrawn opened.tabs_state
unfolding selected_component
opened-AreDrawn = record {
  default_drawn = (new_messages, refl);
  tabs_drawn = ((new_messages, refl), ((all_messages, refl), tt));
}

edited-IsDrawn :
    (w : WriteData) (tab : Tab TabData)
    → type_eq tab.type write ≡ true
    → IsDrawn (record tab { payload = write_data w })
unfolding selected_component type_eq
edited-IsDrawn w tab e = (write_view w, ground arith)

edit_write-AreDrawn :
    (w : WriteData) (s : MainState) → AreDrawn s.tabs_state → AreDrawn (edit_write w s).tabs_state
unfolding edit_write
edit_write-AreDrawn w s h =
    let tab = selected_actual_tab s.tabs_state in
    elim (Bool-cases (type_eq tab.type write)) [
      | inl is_write ↦ ground (
        arith,
        AreDrawn-update (record tab { payload = write_data w }) s.tabs_state
            (edited-IsDrawn w tab is_write) h,
      )
      | inr other ↦ ground arith
    ]

read_tab-IsDrawn : (m : Message) → IsDrawn (read_tab m)
unfolding read_tab selected_component
read_tab-IsDrawn m = (read_view m, refl)

read_message-AreDrawn :
    (m : Message) (s : MainState) → AreDrawn s.tabs_state → AreDrawn (read_message m s).tabs_state
unfolding read_message
read_message-AreDrawn m s h = elim (Option-cases (find (already_read m) s.tabs_state.tabs)) [
  | inl absent ↦ ground (arith, AreDrawn-push (read_tab m) s.tabs_state (read_tab-IsDrawn m) h)
  | inr (t, found) ↦ ground (arith, AreDrawn-switch t.id s.tabs_state h)
]

write_message-AreDrawn :
    (draw : ℕ → ℕ) (s : MainState)
    → AreDrawn s.tabs_state
    → AreDrawn (write_message draw s).tabs_state
unfolding write_message write_tab selected_component
write_message-AreDrawn draw s h =
    AreDrawn-push (write_tab draw) s.tabs_state (write_view empty_write, refl) h

side_bar_callback-AreDrawn :
    (b : SideBarButton) (s : MainState)
    → AreDrawn s.tabs_state
    → AreDrawn (side_bar_callback b s).tabs_state
unfolding side_bar_callback on_button open_outbox open_sent open_friend_modal selected_component
side_bar_callback-AreDrawn inbox_button s h = AreDrawn-switch (text "all") s.tabs_state h
side_bar_callback-AreDrawn outbox_button s h =
    open_or_push-AreDrawn _ outbox_tab s.tabs_state (outbox_messages, refl) h
side_bar_callback-AreDrawn sent_button s h =
    open_or_push-AreDrawn _ sent_tab s.tabs_state (sent_messages, refl) h
side_bar_callback-AreDrawn add_friend_button s h = h
side_bar_callback-AreDrawn invitations_button s h =
    open_or_push-AreDrawn _ invitations_tab s.tabs_state (invitation_lists, refl) h

pub act-AreDrawn :
    (a : WindowAction) (s : MainState) {u : MainState}
    → AreDrawn s.tabs_state
    → act a s ≡ some u
    → AreDrawn u.tabs_state
unfolding act
act-AreDrawn (open_message m) s h e = ground (arith, read_message-AreDrawn m s h)
act-AreDrawn (edit w) s h e = ground (arith, edit_write-AreDrawn w s h)
act-AreDrawn (compose draw) s h e = ground (arith, write_message-AreDrawn draw s h)
act-AreDrawn (press_button b) s h e = ground (arith, side_bar_callback-AreDrawn b s h)
act-AreDrawn (select_tab id) s h e = ground (arith, AreDrawn-switch id s.tabs_state h)
act-AreDrawn (close_by_button id) s h e = ground (arith, AreDrawn-close id s.tabs_state h)
act-AreDrawn (press_key k) s {u} h e =
    ground (arith, handle_key-AreDrawn k s.tabs_state {u = u.tabs_state} h)
act-AreDrawn close_shown s h e =
    ground (arith, AreDrawn-close (selected_actual_tab s.tabs_state).id s.tabs_state h)

stale_next_tab-AreDrawn :
    (captured : List (Tab TabData)) (s : TabsState TabData) {u : TabsState TabData}
    → AreDrawn s
    → stale_next_tab captured s ≡ some u
    → AreDrawn u
stale_next_tab-AreDrawn captured s h e = AreDrawn-same (stale_next_tab-HasSameTabs captured s e) h

run_effect-AreDrawn :
    (draw : ℕ → ℕ) (e : Effect) (s : MainState) {u : MainState}
    → AreDrawn s.tabs_state
    → run_effect draw e s ≡ some u
    → AreDrawn u.tabs_state
unfolding run_effect perform open_friend_modal
run_effect-AreDrawn draw (performed a) s {u} h e = ground (
  arith,
  write_message-AreDrawn draw s h,
  stale_next_tab-AreDrawn default_tabs s.tabs_state {u = u.tabs_state} h,
)
run_effect-AreDrawn draw (opened_at a) s h e = ground arith

on_escape-AreDrawn :
    (s : WindowState) → AreDrawn s.main.tabs_state → AreDrawn (on_escape s).main.tabs_state
unfolding on_escape close_modal
on_escape-AreDrawn s h =
    let id = (selected_actual_tab s.main.tabs_state).id in
    ground (
      arith,
      close_by_escape-tabs_state s.main.modal s.main,
      close_by_escape-tabs_state s.main.modal
          (record s.main { tabs_state = close_tab id s.main.tabs_state }),
      AreDrawn-close id s.main.tabs_state h,
    )

Reachable-AreDrawn : {s : MainState} → Reachable s → AreDrawn s.tabs_state
Reachable-AreDrawn start = opened-AreDrawn
Reachable-AreDrawn (acted {s} a r e) = act-AreDrawn a s (Reachable-AreDrawn r) e
Reachable-AreDrawn (ran {s} draw e r q) = run_effect-AreDrawn draw e s (Reachable-AreDrawn r) q
Reachable-AreDrawn (left {s} k r) =
    on_escape-AreDrawn (record { main = s; kbar = k }) (Reachable-AreDrawn r)

-- In every state that the window comes to, the data of the tab that is shown is of the kind that
-- its component is given by an unchecked cast: a message for Read, a draft for Write.
pub Reachable-selected_component :
    (s : MainState)
    → Reachable s
    → (c : Component) × (selected_component (selected_actual_tab s.tabs_state) ≡ some c)
Reachable-selected_component s r = selected-IsDrawn s.tabs_state (Reachable-AreDrawn r)
