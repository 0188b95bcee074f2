-- ===== src/Delivery/Repeats.antt =====
-- Several messages on their way, and one that is sent again.
use anysphere_messaging.Common.{
  ℕ, zero, suc, ◌≡◌, refl, ap, ◌∙◌, arith, false, List, [], ◌∷◌, ◌++◌, append-nil, append_assoc,
  sym, JsString, Option, some, length, remove_at,
}
use anysphere_messaging.Types.{Timestamp}
use anysphere_messaging.Daemon.Schema.{Client}
use anysphere_messaging.Compose.{WriteData, send, sent}
use anysphere_messaging.Tabs.{selected_actual_tab}
use anysphere_messaging.Window.{selected_component, write_view}
use anysphere_messaging.Delivery.Settling.{pending_of, press_send-sent, called, settle-found}
use anysphere_messaging.Delivery.{Pending, DeliveryState, press_send, settle}

-- Send is pressed a number of times, with nothing else in between.
unfoldable pub press_times :
    {W : Type 0} → ℕ → Option JsString → ℕ → DeliveryState W → DeliveryState W
press_times zero editor now s = s
press_times (suc k) editor now s = press_times k editor now (press_send editor now s)

unfoldable pub repeat : ℕ → Pending → List Pending
repeat zero p = []
repeat (suc k) p = p ∷ repeat k p

press_times-sent :
    {W : Type 0} (k : ℕ) (editor : Option JsString) (now : ℕ) (s : DeliveryState W) (w : WriteData)
    (names : List JsString) (content : JsString)
    → selected_component (selected_actual_tab s.main.tabs_state) ≡ some (write_view w)
    → send w editor ≡ sent names content
    → press_times k editor now s
      ≡ record s { pending = s.pending ++ repeat k (pending_of w names content s) }
unfolding press_times repeat
press_times-sent zero editor now s w names content shown e =
    ap (λ (ps : List Pending). record s { pending = ps }) (sym (append-nil s.pending))
press_times-sent (suc k) editor now s w names content shown e =
    let p = pending_of w names content s in
    ap (press_times k editor now) (press_send-sent editor now s w names content shown e)
    ∙ (press_times-sent k editor now (record s { pending = s.pending ++ p ∷ [] }) w names content
          shown e
        ∙ ap (λ (ps : List Pending). record s { pending = ps })
            (append_assoc s.pending (p ∷ []) (repeat k p)))

module _ {W : Type 0} (started : Timestamp) (hash : JsString) (client : Client W) where
  -- The first promise settles, a number of times.
  unfoldable pub settle_first : ℕ → ℕ → DeliveryState W → DeliveryState W
  settle_first zero now s = s
  settle_first (suc k) now s = settle_first k now (settle false started hash client zero now s)

  -- The calls that a list of promises comes to.
  unfoldable pub called_all : List Pending → W → W
  called_all [] w = w
  called_all (p ∷ ps) w = called_all ps (called started hash client p w)

  -- When all promises settle in the order of the presses, the daemon has been called for each of
  -- them exactly once, in that order, and none is left.
  pub settle_first-called_all :
      (ps : List Pending) (now : ℕ) (s : DeliveryState W)
      → s.pending ≡ ps
      → let u = settle_first (length ps) now s in
        (u.daemon ≡ called_all ps s.daemon) × (u.pending ≡ [])
  unfolding settle_first called_all
  settle_first-called_all [] now s e = (refl, e)
  settle_first-called_all (p ∷ ps) now s e =
      let (d, left, _, _) = settle-found started hash client zero now s p (ground arith) in
      let rest =
        settle_first-called_all ps now (settle false started hash client zero now s)
          (left ∙ ap (remove_at zero) e) in
      (rest.0 ∙ ap (called_all ps) d, rest.1)

  -- Nothing guards against a second press: while a draft that `send` accepts is shown and nothing is
  -- on its way, as many presses as there are send the same message to the same contacts as many
  -- times, one call of the daemon each.
  pub press_times-called_all :
      (k : ℕ) (editor : Option JsString) (now later : ℕ) (s : DeliveryState W) (w : WriteData)
      (names : List JsString) (content : JsString)
      → s.pending ≡ []
      → selected_component (selected_actual_tab s.main.tabs_state) ≡ some (write_view w)
      → send w editor ≡ sent names content
      → let copies = repeat k (pending_of w names content s) in
        let u = settle_first (length copies) later (press_times k editor now s) in
        (u.daemon ≡ called_all copies s.daemon) × (u.pending ≡ [])
  press_times-called_all k editor now later s w names content idle shown e =
      let copies = repeat k (pending_of w names content s) in
      let pressed = press_times-sent k editor now s w names content shown e in
      let (d, left) = settle_first-called_all copies later (press_times k editor now s) (
        ap (λ (u : DeliveryState W). u.pending) pressed
        ∙ ap (λ (ps : List Pending). ps ++ copies) idle) in
      (d ∙ ap (λ (u : DeliveryState W). called_all copies u.daemon) pressed, left)
