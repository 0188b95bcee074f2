-- ===== src/Delivery/Ending.antt =====
-- Which tabs are left when every message on its way has been sent.
use anysphere_messaging.Common.{
  ℕ, zero, ◌≡◌, inl, inr, refl, ap, ◌∙◌, arith, Bool, true, false, not, ◌&&◌, ◌||◌, List, [], ◌∷◌,
  JsString, str_eq, str_eq_iff, any, filter, length, remove_at, Bool-cases,
}
use anysphere_messaging.Types.{Timestamp}
use anysphere_messaging.Daemon.Schema.{Client}
use anysphere_messaging.Tabs.{TabsState, has_tab, close_tab}
use anysphere_messaging.Tabs.Selection.{has_tab-close}
use anysphere_messaging.Main.{MainState, TabData}
use anysphere_messaging.Delivery.Settling.{is_delivered, settle-found, has_tab-closed}
use anysphere_messaging.Delivery.Repeats.{settle_first}
use anysphere_messaging.Delivery.{Pending, DeliveryState, close_tab_since, settle}

close_tab_since-has_tab :
    (previous id j : JsString) (s : TabsState TabData)
    → has_tab j (close_tab_since previous id s).tabs ≡ has_tab j s.tabs && not (str_eq id j)
unfolding close_tab_since close_tab
close_tab_since-has_tab previous id j s = elim (Bool-cases (str_eq id j)) [
  | inl same ↦
      let e : id ≡ j = (str_eq_iff id j).0 same in
      let gone : has_tab j (filter (λ t. not (str_eq t.id id)) s.tabs) ≡ false =
        rw e (has_tab-closed j s.tabs) in
      ground arith
  | inr other ↦ ground (arith, has_tab-close id j s.tabs, str_eq_iff id j, str_eq_iff j id)
]

module _ {W : Type 0} (started : Timestamp) (hash : JsString) (client : Client W)
    (answered : (p : Pending) (w : W) → is_delivered started hash client p w ≡ true) where
  settle-has_tab :
      (p : Pending) (ps : List Pending) (now : ℕ) (s : DeliveryState W) (j : JsString)
      → s.pending ≡ p ∷ ps
      → let u = settle false started hash client zero now s in
        (has_tab j u.main.tabs_state.tabs
          ≡ has_tab j s.main.tabs_state.tabs && not (str_eq p.tab_id j))
        × (u.pending ≡ ps)
  settle-has_tab p ps now s j e =
      let (_, left, main, _) = settle-found started hash client zero now s p (ground (arith, e)) in
      let ok = answered p s.daemon in
      let closed = (rw ok at main) in
      (
        ap (λ (m : MainState). has_tab j m.tabs_state.tabs) closed
            ∙ close_tab_since-has_tab p.previous p.tab_id j s.main.tabs_state,
        left ∙ ap (remove_at zero) e,
      )

  and_not : (a b c : Bool) → (a && not b) && not c ≡ a && not (b || c)
  and_not true true c = refl
  and_not true false c = refl
  and_not false b c = refl

  -- If every call of `sendMessage` brings a response: once all messages on their way have settled, in
  -- the order of the presses, the tabs that are open are those that were open before, less the tabs
  -- of their drafts.
  pub settle_first-has_tab :
      (ps : List Pending) (now : ℕ) (s : DeliveryState W) (j : JsString)
      → s.pending ≡ ps
      → let u = settle_first started hash client (length ps) now s in
        has_tab j u.main.tabs_state.tabs
        ≡ has_tab j s.main.tabs_state.tabs && not (any (λ (p : Pending). str_eq p.tab_id j) ps)
  unfolding settle_first
  settle_first-has_tab [] now s j e = ground arith
  settle_first-has_tab (p ∷ ps) now s j e =
      let (here, left) = settle-has_tab p ps now s j e in
      let rest = settle_first-has_tab ps now (settle false started hash client zero now s) j left in
      let others = any (λ (q : Pending). str_eq q.tab_id j) ps in
      rest
      ∙ (ap (λ (b : Bool). b && not others) here
          ∙ and_not (has_tab j s.main.tabs_state.tabs) (str_eq p.tab_id j) others)
