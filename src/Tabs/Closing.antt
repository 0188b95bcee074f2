-- ===== src/Tabs/Closing.antt =====
-- Closing tabs, and the keyboard's way to do it.
use anysphere_messaging.Common.{
  ◌≡◌, ◌↔◌, refl, all, Bool-cases, inl, inr, true, false, not, ◌&&◌, none, some, List, [], ◌∷◌,
  arith, JsString, str_eq, str_eq_iff, filter, text, if◌then◌else◌,
}
use anysphere_messaging.Tabs.{
  Tab, TabsState, KeyEvent, has_tab, close_tab, after_close, selected_actual_tab, handle_key,
  next_tab, shows_close_button,
}
use anysphere_messaging.Tabs.Selection.{has_tab-close, has_tab_of_filter}
use anysphere_messaging.Tabs.Cycle.{next_tab-eq-none_iff}

abbrev pub close_key : KeyEvent
close_key = record { ctrl_key = false; shift_key = false; meta_key = true; key = text "w" }

abbrev pub next_key : KeyEvent
next_key = record { ctrl_key = true; shift_key = false; meta_key = false; key = text "Tab" }

module _ {ℓ} {D : Type ℓ} where
  has_tab-close_self :
      (id : JsString) (ts : List (Tab D))
      → has_tab id (filter (λ t. not (str_eq t.id id)) ts) ≡ false
  has_tab-close_self id [] = refl
  has_tab-close_self id (t ∷ ts) = ground (arith, has_tab-close_self id ts)

  -- After `closeTab(id)` no tab has that id, and the tabs with other ids are still there.
  pub close_tab-has_tab :
      (id j : JsString) (s : TabsState D)
      → has_tab j (close_tab id s).tabs ≡ (not (str_eq j id) && has_tab j s.tabs)
  unfolding close_tab
  close_tab-has_tab id j s =
      ground (arith, str_eq_iff j id, has_tab-close id j s.tabs, has_tab-close_self id s.tabs)

  -- Closing the selected tab selects the tab that was selected before it, if that is still open,
  -- and the default tab otherwise; closing another tab leaves the selection.
  pub close_tab-selected_tab :
      (id : JsString) (s : TabsState D)
      → (close_tab id s).selected_tab ≡ (
          if str_eq s.selected_tab id
          then (if has_tab s.previous_selected_tab (close_tab id s).tabs
              then s.previous_selected_tab
              else s.default_tab.id)
          else s.selected_tab)
  unfolding close_tab after_close
  close_tab-selected_tab id s =
      ground (
        arith,
        has_tab_of_filter s.previous_selected_tab (filter (λ t. not (str_eq t.id id)) s.tabs),
      )

  handle_next_key : (s : TabsState D) → handle_key next_key s ≡ next_tab s
  unfolding handle_key text str_eq
  handle_next_key s = refl

  handle_close_key :
      (s : TabsState D) → handle_key close_key s ≡ some (close_tab (selected_actual_tab s).id s)
  unfolding handle_key text str_eq
  handle_close_key s = refl

  closed_all :
      (id : JsString) (ts : List (Tab D))
      → (filter (λ t. not (str_eq t.id id)) ts ≡ []) ↔ (all (λ t. str_eq t.id id) ts ≡ true)
  closed_all id [] = (λ e. refl, λ e. refl)
  closed_all id (t ∷ ts) =
      let (to_, from_) = closed_all id ts in
      elim (Bool-cases (str_eq t.id id)) [
        | inl same ↦ (λ e. ground (arith, to_), λ e. ground (arith, from_))
        | inr other ↦ (λ e. absurd (ground arith), λ e. absurd (ground arith))
      ]

  -- Where the tab that is drawn as selected is unclosable, it has no close button, and Cmd-W closes
  -- it all the same: the tabs with other ids are still there, and none with its own. The key
  -- Ctrl-Tab pressed next throws exactly where there was no tab with another id.
  pub close_key-unclosable :
      (s : TabsState D) (j : JsString)
      → (selected_actual_tab s).unclosable ≡ true
      → let t = selected_actual_tab s in
        (u : TabsState D) × (shows_close_button t ≡ false)
        × (handle_key close_key s ≡ some u)
        × (has_tab j u.tabs ≡ (not (str_eq j t.id) && has_tab j s.tabs))
        × ((handle_key next_key u ≡ none) ↔ (all (λ x. str_eq x.id t.id) s.tabs ≡ true))
  unfolding shows_close_button close_tab
  close_key-unclosable s j fixed =
      let t = selected_actual_tab s in
      let u = close_tab t.id s in
      let empty = closed_all t.id s.tabs in
      let thrown = next_tab-eq-none_iff u in
      (
        u,
        ground arith,
        handle_close_key s,
        close_tab-has_tab t.id j s,
        (
          λ e. empty.0 (thrown.0 (rw (handle_next_key u) at e)),
          λ e. rw (handle_next_key u) (thrown.1 (empty.1 e)),
        ),
      )
