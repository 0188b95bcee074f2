-- ===== src/Delivery/Sessions.antt =====
-- Sending among everything else that is done in the window, in any order.
use anysphere_messaging.Common.{
  ℕ, ◌≡◌, ◌≢◌, ◌⊎◌, inl, inr, refl, arith, Bool, true, false, List, [], ◌∷◌, ◌++◌, map, JsString,
  Option, some, get_elem?, remove_at, All, All-append, All-remove_at, Option-cases,
}
use anysphere_messaging.Types.{Timestamp}
use anysphere_messaging.Daemon.Schema.{Client}
use anysphere_messaging.Daemon.Calls.{op_send_message, perform, is_resolved}
use anysphere_messaging.Compose.{
  WriteFriend, WriteData, SendResult, send, sent, refused, after_send,
}
use anysphere_messaging.Compose.Sending.{send-eq-sent_iff}
use anysphere_messaging.Tabs.{TabsState, selected_actual_tab}
use anysphere_messaging.Main.{TabData}
use anysphere_messaging.Window.{selected_component, act}
use anysphere_messaging.Window.Drawn.{AreDrawn, AreDrawn-close}
use anysphere_messaging.Window.Drawing.{act-AreDrawn}
use anysphere_messaging.Delivery.Settling.{pending_of}
use anysphere_messaging.Delivery.{
  Pending, DeliveryState, close_tab_since, draft_of, submit, press_send, on_sent, Event, presses,
  settles, does, settle, happen, run,
}

-- The request of a promise is addressed to someone: to the contacts of its draft.
pub record IsAddressed (p : Pending) : Type 0 where
  pub someone : p.draft.multi_select_state.friends ≢ []
  pub names :
      p.request.unique_name_list
      ≡ map (λ (f : WriteFriend). f.unique_name) p.draft.multi_select_state.friends
  pub complete : p.draft.multi_select_state.query ≡ []

pub record IsSound {W : Type 0} (s : DeliveryState W) : Type 0 where
  pub drawn : AreDrawn s.main.tabs_state
  pub addressed : All IsAddressed s.pending

AreDrawn-since :
    (previous id : JsString) (s : TabsState TabData)
    → AreDrawn s
    → AreDrawn (close_tab_since previous id s)
unfolding close_tab_since
AreDrawn-since previous id s h =
    let closed =
      AreDrawn-close id (record s { previous_selected_tab = previous })
        (record { default_drawn = h.default_drawn; tabs_drawn = h.tabs_drawn }) in
    record { default_drawn = closed.default_drawn; tabs_drawn = closed.tabs_drawn }

submit-cases :
    {W : Type 0} (r : SendResult) (w : WriteData) (now : ℕ) (s : DeliveryState W)
    → let u = submit r w now s in
      (u.main ≡ s.main)
      × ((u.pending ≡ s.pending)
          ⊎ ((names : List JsString) × (content : JsString) × (r ≡ sent names content)
              × (u.pending ≡ s.pending ++ pending_of w names content s ∷ [])))
unfolding submit
submit-cases (refused message) w now s = (refl, inl refl)
submit-cases (sent names content) w now s = (refl, inr (names, content, refl, refl))

submit-IsAddressed :
    {W : Type 0} (editor : Option JsString) (w : WriteData) (now : ℕ) (s : DeliveryState W)
    → All IsAddressed s.pending
    → All IsAddressed (submit (send w editor) w now s).pending
submit-IsAddressed editor w now s h = elim (submit-cases (send w editor) w now s).1 [
  | inl same ↦ rw same h
  | inr (names, content, accepted, more) ↦
      let (_, complete, someone, _, same, _) =
        (send-eq-sent_iff w editor names content).0 accepted in
      rw more (
        All-append IsAddressed s.pending (pending_of w names content s ∷ []) h
          (record { someone = someone; names = same; complete = complete }, tt))
]

pub press_send-main :
    {W : Type 0} (editor : Option JsString) (now : ℕ) (s : DeliveryState W)
    → (press_send editor now s).main ≡ s.main
unfolding press_send
press_send-main editor now s =
    elim (Option-cases (draft_of (selected_component (selected_actual_tab s.main.tabs_state)))) [
      | inl absent ↦ ground arith
      | inr (w, shown) ↦ ground (arith, (submit-cases (send w editor) w now s).0)
    ]

press_send-IsAddressed :
    {W : Type 0} (editor : Option JsString) (now : ℕ) (s : DeliveryState W)
    → All IsAddressed s.pending
    → All IsAddressed (press_send editor now s).pending
unfolding press_send
press_send-IsAddressed editor now s h =
    elim (Option-cases (draft_of (selected_component (selected_actual_tab s.main.tabs_state)))) [
      | inl absent ↦ rw (absent, press_send) h
      | inr (w, shown) ↦ rw (shown, press_send) (submit-IsAddressed editor w now s h)
    ]

on_sent-IsSound :
    {W : Type 0} (now : ℕ) (ok : Bool) (p : Pending) (s : DeliveryState W)
    → IsSound s
    → IsSound (on_sent now ok p s)
unfolding on_sent after_send
on_sent-IsSound now true p s h = record {
  drawn = AreDrawn-since p.previous p.tab_id s.main.tabs_state h.drawn;
  addressed = h.addressed;
}
on_sent-IsSound now false p s h = record { drawn = h.drawn; addressed = h.addressed }

module _ {W : Type 0} (fake : Bool) (started : Timestamp) (hash : JsString)
    (client : Client W) where
  settle-IsSound :
      (i now : ℕ) (s : DeliveryState W)
      → IsSound s
      → IsSound (settle fake started hash client i now s)
  unfolding settle
  settle-IsSound i now s h = elim (Option-cases (get_elem? s.pending i)) [
    | inl absent ↦ rw (absent, settle) h
    | inr (p, found) ↦
        let (outcome, daemon) =
          perform fake started hash client (op_send_message p.request) s.daemon in
        rw (found, settle)
          (on_sent-IsSound now (is_resolved outcome) p
            (record s { daemon = daemon; pending = remove_at i s.pending })
            (record {
              drawn = h.drawn;
              addressed = All-remove_at IsAddressed i s.pending h.addressed;
            }))
  ]

  happen-IsSound :
      (e : Event) (s : DeliveryState W) {u : DeliveryState W}
      → IsSound s
      → happen fake started hash client e s ≡ some u
      → IsSound u
  unfolding happen
  happen-IsSound (presses editor now) s {u} h q =
      let same : press_send editor now s ≡ u = ground arith in
      rw (← same) (record {
        drawn = rw (press_send-main editor now s) h.drawn;
        addressed = press_send-IsAddressed editor now s h.addressed;
      })
  happen-IsSound (settles i now) s {u} h q =
      let same : settle fake started hash client i now s ≡ u = ground arith in
      rw (← same) (settle-IsSound i now s h)
  happen-IsSound (does a) s {u} h q = elim (Option-cases (act a s.main)) [
    | inl thrown ↦ absurd (ground arith)
    | inr (m, acted) ↦
        let same : record s { main = m } ≡ u = ground arith in
        rw (← same)
          (record { drawn = act-AreDrawn a s.main h.drawn acted; addressed = h.addressed })
  ]

  -- Whatever happens in the window and at the daemon, in any order, with or without fake data: every
  -- message on its way is addressed to the contacts of its draft, one or more, with nothing left in
  -- the input, and the data of every tab is of the kind that its component takes. It holds after the
  -- events if it holds before them and the window does not throw.
  pub run-IsSound :
      (events : List Event) (s u : DeliveryState W)
      → IsSound s
      → run fake started hash client events s ≡ some u
      → IsSound u
  unfolding run
  run-IsSound [] s u h q = let same : s ≡ u = ground arith in rw (← same) h
  run-IsSound (e ∷ events) s u h q = elim (Option-cases (happen fake started hash client e s)) [
    | inl thrown ↦ absurd (ground arith)
    | inr (v, happened) ↦
        run-IsSound events v u (happen-IsSound e s {u = v} h happened) (ground arith)
  ]
