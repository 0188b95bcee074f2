-- ===== src/Delivery/Failing.antt =====
-- Sending while the daemon does not answer.
use mathlib.Core.Option
use anysphere_messaging.Common.{
  ℕ, ◌≡◌, inl, inr, refl, ap, ◌∙◌, arith, false, List, [], ◌∷◌, JsString, Option, none, some,
  get_elem?, Option-cases,
}
use anysphere_messaging.Types.{Timestamp}
use anysphere_messaging.Daemon.Schema.{Client}
use anysphere_messaging.Main.{MainState}
use anysphere_messaging.Window.{act}
use anysphere_messaging.Delivery.Settling.{is_delivered, settle-found}
use anysphere_messaging.Delivery.Sessions.{press_send-main}
use anysphere_messaging.Delivery.{
  Pending, DeliveryState, press_send, Event, presses, settles, does, settle, happen, run,
}

-- The window on its own, without the sending.
unfoldable pub window_only : List Event → MainState → Option MainState
window_only [] m = some m
window_only (presses _ _ ∷ events) m = window_only events m
window_only (settles _ _ ∷ events) m = window_only events m
window_only (does a ∷ events) m = elim (act a m) [ none ↦ none | some n ↦ window_only events n ]

module _ {W : Type 0} (started : Timestamp) (hash : JsString) (client : Client W)
    (unanswered : (p : Pending) (v : W) → is_delivered started hash client p v ≡ false) where
  settle-unanswered :
      (i now : ℕ) (s : DeliveryState W) → (settle false started hash client i now s).main ≡ s.main
  unfolding settle
  settle-unanswered i now s = elim (Option-cases (get_elem? s.pending i)) [
    | inl absent ↦ ground arith
    | inr (p, found) ↦
        let (_, _, main, _) = settle-found started hash client i now s p found in
        let no_answer = unanswered p s.daemon in rw no_answer at main
  ]

  -- If no call of `sendMessage` brings a response, nothing that is sent shows in the tabs and the
  -- dialogs: after any events the window is what it is without the sending, every draft in its tab,
  -- and it throws only if it throws without the sending.
  pub run-window_only :
      (events : List Event) (s : DeliveryState W)
      → Option.map (λ (u : DeliveryState W). u.main) (run false started hash client events s)
        ≡ window_only events s.main
  unfolding run happen window_only
  run-window_only [] s = refl
  run-window_only (presses editor now ∷ events) s =
      run-window_only events (press_send editor now s)
      ∙ ap (window_only events) (press_send-main editor now s)
  run-window_only (settles i now ∷ events) s =
      run-window_only events (settle false started hash client i now s)
      ∙ ap (window_only events) (settle-unanswered i now s)
  run-window_only (does a ∷ events) s = elim (Option-cases (act a s.main)) [
    | inl thrown ↦ ground arith
    | inr (m, acted) ↦ ground (arith, run-window_only events (record s { main = m }))
  ]
