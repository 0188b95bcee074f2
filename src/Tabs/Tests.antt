-- ===== src/Tabs/Tests.antt =====
-- The tab bar on a bar of three tabs.
use anysphere_messaging.Common.{
  ℕ, ◌≡◌, ◌↔◌, refl, arith, all, not, ◌&&◌, true, false, none, some, [], ◌∷◌, String, str_eq, text,
  inl,
}
use anysphere_messaging.Tabs.{
  Tab, TabsState, new, has_tab, selected_actual_tab, close_tab, next_tab, select_position,
  selected_index, next_position, find_index, handle_key, shows_close_button, use_tabs,
}
use anysphere_messaging.Tabs.Position.{HasDistinctIds}
use anysphere_messaging.Tabs.Selection.{IsSelectable, close, step, step-IsSelectable}
use anysphere_messaging.Tabs.Cycle.{IsAt, next_tabs, next_tabs-cycle}
use anysphere_messaging.Tabs.Closing.{close_key, next_key, close_key-unclosable}

abbrev named : String → Tab ℕ
named s = record { type = new; name = text s; payload = 0; unclosable = true; id = text s }

abbrev bar : TabsState ℕ
bar = record {
  default_tab = named "new";
  tabs = named "new" ∷ named "all" ∷ named "outbox" ∷ [];
  previous_selected_tab = text "new";
  selected_tab = text "all";
}

abbrev last_one : TabsState ℕ
last_one = record {
  default_tab = named "new";
  tabs = named "new" ∷ [];
  previous_selected_tab = text "new";
  selected_tab = text "new";
}

bar-use_tabs : use_tabs (named "new" ∷ []) ≡ some last_one
unfolding use_tabs
bar-use_tabs = refl

next_tab-bar :
    next_tab bar
    ≡ some (record bar { previous_selected_tab = text "all"; selected_tab = text "outbox" })
unfolding next_tab select_position selected_index next_position find_index text str_eq
next_tab-bar = refl

bar-HasDistinctIds : HasDistinctIds bar.tabs
unfolding text
bar-HasDistinctIds = ground arith

bar-IsAt : IsAt 1 bar
bar-IsAt = record {
  tab = named "all";
  distinct = bar-HasDistinctIds;
  found = refl;
  selected = refl;
}

bar-IsSelectable : IsSelectable bar
unfolding text str_eq
bar-IsSelectable = inl refl

step-close : step (close (text "all")) bar ≡ some (close_tab (text "all") bar)
unfolding step
step-close = refl

step-IsSelectable_example : IsSelectable (close_tab (text "all") bar)
step-IsSelectable_example =
    step-IsSelectable (close (text "all")) bar (close_tab (text "all") bar) bar-IsSelectable tt
      step-close

next_tabs-cycle_example :
    (u : TabsState ℕ) × (next_tabs 5 bar ≡ some u) × IsAt 0 u × (u.tabs ≡ bar.tabs)
next_tabs-cycle_example = next_tabs-cycle 5 1 bar bar-IsAt

bar-unclosable : (selected_actual_tab bar).unclosable ≡ true
unfolding selected_actual_tab text str_eq
bar-unclosable = refl

close_key-unclosable_example :
    let t = selected_actual_tab bar in
    (u : TabsState ℕ) × (shows_close_button t ≡ false)
    × (handle_key close_key bar ≡ some u)
    × (has_tab (text "new") u.tabs
        ≡ (not (str_eq (text "new") t.id) && has_tab (text "new") bar.tabs))
    × ((handle_key next_key u ≡ none) ↔ (all (λ x. str_eq x.id t.id) bar.tabs ≡ true))
close_key-unclosable_example = close_key-unclosable bar (text "new") bar-unclosable
