-- ===== src/Window/Drawn.antt =====
-- The tab bar's operations and the data of the tabs: what the component of a tab casts.
use anysphere_messaging.Common.{
  ℕ, ◌≡◌, inl, inr, arith, Bool, true, false, not, some, List, [], ◌∷◌, map, JsString, str_eq, find,
  length, get_elem?, All, All-append, All-filter, Option-cases, Bool-cases, if◌then◌else◌,
}
use anysphere_messaging.Tabs.{
  Tab, TabsState, push_tab, close_tab, switch_tab, update_tab, selected_actual_tab, handle_key,
  KeyEvent, selected_index, next_position, previous_position, next_tab, previous_tab,
  select_position,
}
use anysphere_messaging.Main.Opening.{open_or_push-absent, open_or_push-found}
use anysphere_messaging.Main.{TabData, open_or_push}
use anysphere_messaging.Window.{Component, selected_component, stale_next_tab}

-- The data of the tab is of the kind that its component takes.
abbrev pub IsDrawn : Tab TabData → Type 0
IsDrawn tab = (c : Component) × (selected_component tab ≡ some c)

pub record AreDrawn (s : TabsState TabData) : Type 0 where
  pub default_drawn : IsDrawn s.default_tab
  pub tabs_drawn : All IsDrawn s.tabs

All-find :
    (p : Tab TabData → Bool) (ts : List (Tab TabData)) {t : Tab TabData}
    → All IsDrawn ts
    → find p ts ≡ some t
    → IsDrawn t
All-find p [] h e = cc
All-find p (u ∷ ts) {t} (d, h) e = elim (Bool-cases (p u)) [
  | inl here ↦ let same : u ≡ t = ground arith in rw same at d
  | inr later ↦ All-find p ts {t = t} h (ground arith)
]

pub AreDrawn-push :
    (t : Tab TabData) (s : TabsState TabData) → IsDrawn t → AreDrawn s → AreDrawn (push_tab t s)
unfolding push_tab
AreDrawn-push t s d h = record {
  default_drawn = h.default_drawn;
  tabs_drawn = All-append IsDrawn s.tabs (t ∷ []) h.tabs_drawn (d, tt);
}

pub AreDrawn-close :
    (id : JsString) (s : TabsState TabData) → AreDrawn s → AreDrawn (close_tab id s)
unfolding close_tab
AreDrawn-close id s h = record {
  default_drawn = h.default_drawn;
  tabs_drawn = All-filter IsDrawn (λ t. not (str_eq t.id id)) s.tabs h.tabs_drawn;
}

pub AreDrawn-switch :
    (id : JsString) (s : TabsState TabData) → AreDrawn s → AreDrawn (switch_tab id s)
unfolding switch_tab
AreDrawn-switch id s h = record { default_drawn = h.default_drawn; tabs_drawn = h.tabs_drawn }

All-replace :
    (tab : Tab TabData) (ts : List (Tab TabData))
    → IsDrawn tab
    → All IsDrawn ts
    → All IsDrawn (map (λ t. if str_eq t.id tab.id then tab else t) ts)
All-replace tab [] d h = tt
All-replace tab (t ∷ ts) d (e, h) = (
  elim (str_eq t.id tab.id) as (λ b. IsDrawn (if b then tab else t)) [ true ↦ d | false ↦ e ],
  All-replace tab ts d h,
)

pub AreDrawn-update :
    (t : Tab TabData) (s : TabsState TabData) → IsDrawn t → AreDrawn s → AreDrawn (update_tab t s)
unfolding update_tab
AreDrawn-update t s d h = record {
  default_drawn = h.default_drawn;
  tabs_drawn = All-replace t s.tabs d h.tabs_drawn;
}

-- Selecting another tab leaves the tabs.
pub record HasSameTabs (s u : TabsState TabData) : Type 0 where
  same_default : u.default_tab ≡ s.default_tab
  same_tabs : u.tabs ≡ s.tabs

pub AreDrawn-same : {s u : TabsState TabData} → HasSameTabs s u → AreDrawn s → AreDrawn u
AreDrawn-same {s} {u} e h = record {
  default_drawn = rw e.same_default h.default_drawn;
  tabs_drawn = rw e.same_tabs h.tabs_drawn;
}

select_position-HasSameTabs :
    (i : ℕ) (s : TabsState TabData) {u : TabsState TabData}
    → select_position i s ≡ some u
    → HasSameTabs s u
unfolding select_position
select_position-HasSameTabs i s {u} e = elim (Option-cases (get_elem? s.tabs i)) [
  | inl absent ↦ absurd (ground arith)
  | inr (t, found) ↦ record { same_default = ground arith; same_tabs = ground arith }
]

pub stale_next_tab-HasSameTabs :
    (captured : List (Tab TabData)) (s : TabsState TabData) {u : TabsState TabData}
    → stale_next_tab captured s ≡ some u
    → HasSameTabs s u
unfolding stale_next_tab
stale_next_tab-HasSameTabs captured s {u} e = record {
  same_default = ground arith;
  same_tabs = ground arith;
}

moved-AreDrawn :
    (i : ℕ) (s : TabsState TabData) {u : TabsState TabData}
    → AreDrawn s
    → select_position i s ≡ some u
    → AreDrawn u
moved-AreDrawn i s h e = AreDrawn-same (select_position-HasSameTabs i s e) h

pub handle_key-AreDrawn :
    (e : KeyEvent) (s : TabsState TabData) {u : TabsState TabData}
    → AreDrawn s
    → handle_key e s ≡ some u
    → AreDrawn u
unfolding handle_key next_tab previous_tab
handle_key-AreDrawn e s {u} h q = ground (
  arith,
  moved-AreDrawn (next_position (selected_index s) (length s.tabs)) s {u = u} h,
  moved-AreDrawn (previous_position (selected_index s) (length s.tabs)) s {u = u} h,
  AreDrawn-close (selected_actual_tab s).id s h,
)

pub selected-IsDrawn : (s : TabsState TabData) → AreDrawn s → IsDrawn (selected_actual_tab s)
unfolding selected_actual_tab selected_component
selected-IsDrawn s h = elim (Option-cases (find (λ t. str_eq t.id s.selected_tab) s.tabs)) [
  | inl absent ↦ rw (absent, selected_actual_tab) h.default_drawn
  | inr (t, found) ↦
      rw (found, selected_actual_tab)
        (All-find (λ t. str_eq t.id s.selected_tab) s.tabs h.tabs_drawn found)
]

pub open_or_push-AreDrawn :
    (test : Tab TabData → Bool) (tab : Tab TabData) (s : TabsState TabData)
    → IsDrawn tab
    → AreDrawn s
    → AreDrawn (open_or_push test tab s)
open_or_push-AreDrawn test tab s d h = elim (Option-cases (find test s.tabs)) [
  | inl absent ↦ rw (open_or_push-absent test tab s absent) (AreDrawn-push tab s d h)
  | inr (t, found) ↦ rw (open_or_push-found test tab t s found) (AreDrawn-switch t.id s h)
]
