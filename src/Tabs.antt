-- ===== src/Tabs.antt =====
-- The tab bar (client/gui/src/renderer/components/Tabs.tsx): the hook `useTabs` and the keyboard
-- handler of `TabContainer`. The hook's two callbacks `nextTab` and `previousTab` throw a TypeError
-- where they read `.id` of an absent tab: their result is `none` there. What a tab carries in its
-- field `data` is the parameter `D`. Each operation reads the state of the last rendering.
pub mod Position
pub mod Selection
pub mod Closing
pub mod Cycle
mod Tests
use anysphere_messaging.Common.{
  ℕ, zero, suc, ◌+◌, ◌-◌, ◌%◌, Bool, true, false, not, ◌&&◌, Option, none, some, List, [], ◌∷◌,
  ◌++◌, map, JsString, str_eq, text, filter, any, find, length, get_elem?, ltb, if◌then◌else◌,
}

pub data TabType : Type 0 where
  new all read write outbox sent invitations : TabType

pub record Tab {ℓ} (D : Type ℓ) : Type ℓ where
  pub type : TabType
  pub name : JsString
  pub payload : D
  pub unclosable : Bool
  pub id : JsString

pub record TabsState {ℓ} (D : Type ℓ) : Type ℓ where
  pub default_tab : Tab D
  pub tabs : List (Tab D)
  pub previous_selected_tab : JsString
  pub selected_tab : JsString

pub record KeyEvent : Type 0 where
  pub ctrl_key : Bool
  pub shift_key : Bool
  pub meta_key : Bool
  pub key : JsString

-- `findIndex`, with `none` for -1.
unfoldable pub find_index {ℓ} : {A : Type ℓ} → (A → Bool) → List A → Option ℕ
find_index p [] = none
find_index p (x ∷ xs) =
    let rest : Option ℕ = elim (find_index p xs) [ none ↦ none | some i ↦ some (suc i) ] in
    elim (p x) [ true ↦ some zero | false ↦ rest ]

-- `(index + 1) % tabs.length`
unfoldable pub next_position : Option ℕ → ℕ → ℕ
next_position none n = 0 % n
next_position (some i) n = (i + 1) % n

-- `(index - 1 + tabs.length) % tabs.length`: at index -1 and length 1 this is -1 % 1, which is -0.
unfoldable pub previous_position : Option ℕ → ℕ → ℕ
previous_position none n = (n - 2) % n
previous_position (some i) n = (i + n - 1) % n

module _ {ℓ} {D : Type ℓ} where
  -- `useTabs(initial)` reads `initial[0].id`.
  unfoldable pub use_tabs : List (Tab D) → Option (TabsState D)
  use_tabs [] = none
  use_tabs (t ∷ ts) =
      some (record {
        default_tab = t;
        tabs = t ∷ ts;
        previous_selected_tab = t.id;
        selected_tab = t.id;
      })

  -- Whether some tab has this id.
  abbrev pub has_tab : JsString → List (Tab D) → Bool
  has_tab id tabs = any (λ t. str_eq t.id id) tabs

  unfoldable pub push_tab : Tab D → TabsState D → TabsState D
  push_tab tab s = record s {
    tabs = s.tabs ++ tab ∷ [];
    previous_selected_tab = s.selected_tab;
    selected_tab = tab.id;
  }

  -- What `closeTab` selects, given the tabs that are left.
  unfoldable pub after_close : JsString → List (Tab D) → TabsState D → JsString
  after_close id new_tabs s =
      if str_eq s.selected_tab id
      then (if ltb 0 (length (filter (λ t. str_eq t.id s.previous_selected_tab) new_tabs))
          then s.previous_selected_tab
          else s.default_tab.id)
      else s.selected_tab

  unfoldable pub close_tab : JsString → TabsState D → TabsState D
  close_tab id s =
      let new_tabs = filter (λ t. not (str_eq t.id id)) s.tabs in
      record s { tabs = new_tabs; selected_tab = after_close id new_tabs s }

  -- The updater of `nextTab` and `previousTab` once the position is known: `tabs[position].id`.
  unfoldable pub select_position : ℕ → TabsState D → Option (TabsState D)
  select_position i s = elim (get_elem? s.tabs i) [
    | none ↦ none
    | some t ↦ some (record s { previous_selected_tab = s.selected_tab; selected_tab = t.id })
  ]

  unfoldable pub selected_index : TabsState D → Option ℕ
  selected_index s = find_index (λ t. str_eq t.id s.selected_tab) s.tabs

  unfoldable pub next_tab : TabsState D → Option (TabsState D)
  next_tab s = select_position (next_position (selected_index s) (length s.tabs)) s

  unfoldable pub previous_tab : TabsState D → Option (TabsState D)
  previous_tab s = select_position (previous_position (selected_index s) (length s.tabs)) s

  unfoldable pub switch_tab : JsString → TabsState D → TabsState D
  switch_tab id s = record s { previous_selected_tab = s.selected_tab; selected_tab = id }

  unfoldable pub selected_actual_tab : TabsState D → Tab D
  selected_actual_tab s = elim (find (λ t. str_eq t.id s.selected_tab) s.tabs) [
    | some t ↦ t
    | none ↦ s.default_tab
  ]

  unfoldable pub update_tab : Tab D → TabsState D → TabsState D
  update_tab tab s = record s { tabs = map (λ t. if str_eq t.id tab.id then tab else t) s.tabs }

  -- The handler of `TabContainer`.
  unfoldable pub handle_key : KeyEvent → TabsState D → Option (TabsState D)
  handle_key e s =
      if e.ctrl_key && (e.shift_key && str_eq e.key (text "Tab"))
      then previous_tab s
      else if e.ctrl_key && str_eq e.key (text "Tab")
      then next_tab s
      else if e.meta_key && str_eq e.key (text "w")
      then some (close_tab (selected_actual_tab s).id s)
      else some s

-- `TabElem` draws the close button only then.
unfoldable pub shows_close_button {ℓ} : {D : Type ℓ} → Tab D → Bool
shows_close_button t = not t.unclosable
