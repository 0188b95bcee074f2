-- ===== src/Window/Performing.antt =====
-- What each action of the palette does when it is performed, one by one.
use anysphere_messaging.Common.{
  ℕ, ◌≡◌, inl, inr, Bool-cases, refl, arith, true, none, some, JsString, str_eq, text,
  if◌then◌else◌,
}
use anysphere_messaging.Tabs.{TabsState, find_index, next_position}
use anysphere_messaging.Main.{MainState, TabData, open_friend_modal, write_message}
use anysphere_messaging.Window.{default_tabs, stale_next_tab, perform}

-- What the palette selects when the tab with this id is selected.
abbrev pub after_next : JsString → JsString
after_next id = if str_eq (text "new") id then text "all" else text "new"

stale_index :
    (id : JsString)
    → find_index (λ t. str_eq t.id id) default_tabs
      ≡ (if str_eq (text "new") id then some 0 else if str_eq (text "all") id then some 1 else none)
unfolding find_index
stale_index id = elim (Bool-cases (str_eq (text "new") id)) [
  | inl is_new ↦ ground arith
  | inr other ↦ ground arith
]

stale_next_tab-default_tabs :
    (s : TabsState TabData)
    → stale_next_tab default_tabs s
      ≡ some (record s {
        previous_selected_tab = s.selected_tab;
        selected_tab = after_next s.selected_tab;
      })
unfolding stale_next_tab next_position find_index str_eq text
stale_next_tab-default_tabs s = elim (Bool-cases (str_eq (text "new") s.selected_tab)) [
  | inl is_new ↦ rw (stale_index s.selected_tab) (ground arith)
  | inr other ↦ elim (Bool-cases (str_eq (text "all") s.selected_tab)) [
    | inl is_all ↦ rw (stale_index s.selected_tab) (ground arith)
    | inr neither ↦ rw (stale_index s.selected_tab) (ground arith)
  ]
]

module _ (draw : ℕ → ℕ) (s : MainState) where
  pub perform-friend : perform draw (text "friend") s ≡ some (open_friend_modal s)
  unfolding perform text str_eq
  perform-friend = refl

  pub perform-write : perform draw (text "write") s ≡ some (write_message draw s)
  unfolding perform text str_eq
  perform-write = refl

  pub perform-sidebar : perform draw (text "sidebar") s ≡ some (record s { sidebar_open = true })
  unfolding perform text str_eq
  perform-sidebar = refl

  pub perform-search : perform draw (text "search") s ≡ some s
  unfolding perform text str_eq
  perform-search = refl

  pub perform-help : perform draw (text "help") s ≡ some s
  unfolding perform text str_eq
  perform-help = refl

  pub perform-next_tab :
      perform draw (text "next_tab") s
      ≡ some (record s {
        tabs_state = record s.tabs_state {
          previous_selected_tab = s.tabs_state.selected_tab;
          selected_tab = after_next s.tabs_state.selected_tab;
        };
      })
  unfolding perform text str_eq
  perform-next_tab = rw (stale_next_tab-default_tabs s.tabs_state)
