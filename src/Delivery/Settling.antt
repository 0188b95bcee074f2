-- ===== src/Delivery/Settling.antt =====
-- How the sending of a message ends.
use anysphere_messaging.Common.{
  ℕ, ◌≡◌, ◌≢◌, refl, ap, ◌∙◌, arith, Bool, true, false, not, List, [], ◌∷◌, ◌++◌, JsString, Option,
  some, get_elem?, remove_at, str_eq, str_eq_iff, filter, if◌then◌else◌,
}
use anysphere_messaging.Types.{Timestamp}
use anysphere_messaging.Daemon.Schema.{Client}
use anysphere_messaging.Daemon.Calls.{
  op_send_message, perform, method_of, sent_by, is_resolved, is_response,
}
use anysphere_messaging.Daemon.CallLaws.{perform-call}
use anysphere_messaging.Compose.{WriteData, send, sent, after_send}
use anysphere_messaging.Tabs.{Tab, TabsState, has_tab, close_tab, after_close, selected_actual_tab}
use anysphere_messaging.Tabs.Selection.{IsSelectable, close_tab-IsSelectable}
use anysphere_messaging.Status.{show}
use anysphere_messaging.Main.{TabData}
use anysphere_messaging.Window.{selected_component, write_view}
use anysphere_messaging.Delivery.{
  Pending, DeliveryState, close_tab_since, draft_of, submit, press_send, on_sent, settle,
}

-- The promise of a press of Send in this state, with the names and the text of the request.
abbrev pub pending_of :
    {W : Type 0} → WriteData → List JsString → JsString → DeliveryState W → Pending
pending_of w names content s = record {
  draft = w;
  request = record { unique_name_list = names; message = content };
  tab_id = (selected_actual_tab s.main.tabs_state).id;
  previous = s.main.tabs_state.previous_selected_tab;
}

pub press_send-sent :
    {W : Type 0} (editor : Option JsString) (now : ℕ) (s : DeliveryState W) (w : WriteData)
    (names : List JsString) (content : JsString)
    → selected_component (selected_actual_tab s.main.tabs_state) ≡ some (write_view w)
    → send w editor ≡ sent names content
    → press_send editor now s
      ≡ record s { pending = s.pending ++ pending_of w names content s ∷ [] }
unfolding press_send draft_of submit
press_send-sent editor now s w names content shown e = ground arith

pub on_sent-cases :
    {W : Type 0} (now : ℕ) (ok : Bool) (p : Pending) (s : DeliveryState W)
    → let u = on_sent now ok p s in
      (u.daemon ≡ s.daemon)
      × (u.pending ≡ s.pending)
      × (u.status ≡ show now (after_send ok p.draft).0 s.status)
      × (u.main ≡ (
          if ok
          then record s.main { tabs_state = close_tab_since p.previous p.tab_id s.main.tabs_state }
          else s.main))
unfolding on_sent after_send
on_sent-cases now true p s = (refl, refl, refl, refl)
on_sent-cases now false p s = (refl, refl, refl, refl)

module _ {W : Type 0} (started : Timestamp) (hash : JsString) (client : Client W) where
  -- The daemon after the call for this promise, and whether the call brings a response.
  abbrev pub called : Pending → W → W
  called p w = let o = op_send_message p.request in (client.call (method_of o) (sent_by o) w).1

  abbrev pub is_delivered : Pending → W → Bool
  is_delivered p w =
      let o = op_send_message p.request in is_response (client.call (method_of o) (sent_by o) w).0

  settle-eq :
      (i now : ℕ) (s : DeliveryState W) (p : Pending)
      → get_elem? s.pending i ≡ some p
      → let (outcome, daemon) =
          perform false started hash client (op_send_message p.request) s.daemon in
        settle false started hash client i now s
        ≡ on_sent now
            (is_resolved outcome)
            p
            (record s { daemon = daemon; pending = remove_at i s.pending })
  unfolding settle
  settle-eq i now s p found = ground arith

  settle-called :
      (i now : ℕ) (s : DeliveryState W) (p : Pending)
      → get_elem? s.pending i ≡ some p
      → settle false started hash client i now s
        ≡ on_sent now
            (is_delivered p s.daemon)
            p
            (record s { daemon = called p s.daemon; pending = remove_at i s.pending })
  settle-called i now s p found =
      let o = op_send_message p.request in
      let (_, answers, left) = perform-call started hash client o s.daemon in
      settle-eq i now s p found
      ∙ (ap
            (λ (b : Bool). on_sent now b p (record s {
              daemon = (perform false started hash client o s.daemon).1;
              pending = remove_at i s.pending;
            }))
            answers
          ∙ ap
              (λ (w : W).
                on_sent now (is_delivered p s.daemon) p
                  (record s { daemon = w; pending = remove_at i s.pending }))
              left)

  -- What a promise does when it settles.
  pub settle-found :
      (i now : ℕ) (s : DeliveryState W) (p : Pending)
      → get_elem? s.pending i ≡ some p
      → let u = settle false started hash client i now s in
        let ok = is_delivered p s.daemon in
        (u.daemon ≡ called p s.daemon)
        × (u.pending ≡ remove_at i s.pending)
        × (u.main ≡ (
            if ok
            then record s.main {
              tabs_state = close_tab_since p.previous p.tab_id s.main.tabs_state;
            }
            else s.main))
        × (u.status ≡ show now (after_send ok p.draft).0 s.status)
  settle-found i now s p found =
      let e = settle-called i now s p found in
      let (d, ps, st, m) =
        on_sent-cases now (is_delivered p s.daemon) p
          (record s { daemon = called p s.daemon; pending = remove_at i s.pending }) in
      (
        ap (λ (u : DeliveryState W). u.daemon) e ∙ d,
        ap (λ (u : DeliveryState W). u.pending) e ∙ ps,
        ap (λ (u : DeliveryState W). u.main) e ∙ m,
        ap (λ (u : DeliveryState W). u.status) e ∙ st,
      )

pub has_tab-closed :
    (id : JsString) (ts : List (Tab TabData))
    → has_tab id (filter (λ t. not (str_eq t.id id)) ts) ≡ false
has_tab-closed id [] = refl
has_tab-closed id (t ∷ ts) = ground (arith, has_tab-closed id ts)

-- When the tab of a message that was sent closes, it is gone, whatever was selected meanwhile; the
-- tab that is shown is never one that is not there, and where another tab was shown it still is.
close_tab_since-closed :
    (previous id : JsString) (s : TabsState TabData)
    → IsSelectable s
    → let u = close_tab_since previous id s in
      (has_tab id u.tabs ≡ false)
      × IsSelectable u
      × (s.selected_tab ≢ id → u.selected_tab ≡ s.selected_tab)
      × (u.previous_selected_tab ≡ s.previous_selected_tab)
unfolding close_tab_since close_tab after_close
close_tab_since-closed previous id s h =
    let closed = close_tab-IsSelectable id (record s { previous_selected_tab = previous }) h in
    (has_tab-closed id s.tabs, closed, λ other. ground (arith, str_eq_iff s.selected_tab id), refl)
