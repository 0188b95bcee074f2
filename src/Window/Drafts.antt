-- ===== src/Window/Drafts.antt =====
-- The drafts in the tabs: what `edit` puts into one and what it puts into another.
use anysphere_messaging.Common.{
  ◌≡◌, ◌≢◌, refl, ◌∙◌, sym, ap, inl, inr, arith, true, false, some, List, [], ◌∷◌, map, JsString,
  str_eq, str_eq_iff, str_eq_refl, find, Bool-cases, if◌then◌else◌,
}
use anysphere_messaging.Compose.{WriteData}
use anysphere_messaging.Tabs.{Tab, TabsState, write, switch_tab, update_tab, selected_actual_tab}
use anysphere_messaging.Tabs.Selection.{find_id}
use anysphere_messaging.Main.{TabData, write_data, MainState, edit_write, type_eq}

-- The tab with this id, where it is one to write in.
pub record IsDraft (id : JsString) (t : Tab TabData) (tabs : List (Tab TabData)) : Type 0 where
  pub found : find (λ u. str_eq u.id id) tabs ≡ some t
  pub writable : type_eq t.type write ≡ true

replace : Tab TabData → List (Tab TabData) → List (Tab TabData)
replace tab ts = map (λ u. if str_eq u.id tab.id then tab else u) ts

find-replace :
    (tab : Tab TabData) (ts : List (Tab TabData)) {t : Tab TabData}
    → find (λ u. str_eq u.id tab.id) ts ≡ some t
    → find (λ u. str_eq u.id tab.id) (replace tab ts) ≡ some tab
unfolding replace
find-replace tab [] e = cc
find-replace tab (u ∷ ts) {t} e = elim (Bool-cases (str_eq u.id tab.id)) [
  | inl here ↦ ground (arith, str_eq_refl tab.id)
  | inr later ↦ ground (arith, find-replace tab ts {t = t})
]

find-replace_other :
    (id : JsString) (tab : Tab TabData) (ts : List (Tab TabData)) {t : Tab TabData}
    → str_eq tab.id id ≡ false
    → find (λ u. str_eq u.id id) ts ≡ some t
    → find (λ u. str_eq u.id id) (replace tab ts) ≡ some t
unfolding replace
find-replace_other id tab [] d e = cc
find-replace_other id tab (u ∷ ts) {t} d e = elim (Bool-cases (str_eq u.id tab.id)) [
  | inl here ↦
      let same : u.id ≡ tab.id = (str_eq_iff u.id tab.id).0 here in
      let skipped : str_eq u.id id ≡ false = rw same d in
      ground (arith, find-replace_other id tab ts {t = t} d)
  | inr other ↦ ground (arith, find-replace_other id tab ts {t = t} d)
]

-- What is typed goes into the selected tab.
edit_write-replace :
    (w : WriteData) (s : MainState) {t : Tab TabData}
    → IsDraft s.tabs_state.selected_tab t s.tabs_state.tabs
    → edit_write w s ≡ record s {
      tabs_state = record s.tabs_state {
        tabs = replace (record t { payload = write_data w }) s.tabs_state.tabs;
      };
    }
unfolding edit_write selected_actual_tab update_tab replace
edit_write-replace w s {t} h = ground (arith, h.found, h.writable)

abbrev with_draft : WriteData → Tab TabData → Tab TabData
with_draft w t = record t { payload = write_data w }

IsDraft-replace :
    (w : WriteData) (id : JsString) (t : Tab TabData) (ts : List (Tab TabData))
    → IsDraft id t ts
    → IsDraft id (with_draft w t) (replace (with_draft w t) ts)
IsDraft-replace w id t ts h =
    let same : t.id ≡ id = find_id id ts h.found in
    record {
      found =
          ap (λ (i : JsString). find (λ u. str_eq u.id i) (replace (with_draft w t) ts)) (sym same)
          ∙ find-replace (with_draft w t) ts
              (ap (λ (i : JsString). find (λ u. str_eq u.id i) ts) same ∙ h.found);
      writable = h.writable;
    }

IsDraft-replace_other :
    (tab : Tab TabData) (id : JsString) (t : Tab TabData) (ts : List (Tab TabData))
    → str_eq tab.id id ≡ false
    → IsDraft id t ts
    → IsDraft id t (replace tab ts)
IsDraft-replace_other tab id t ts d h = record {
  found = find-replace_other id tab ts d h.found;
  writable = h.writable;
}

IsDraft-payload :
    (s : TabsState TabData) (id : JsString) (t : Tab TabData)
    → s.selected_tab ≡ id
    → IsDraft id t s.tabs
    → (selected_actual_tab s).payload ≡ t.payload
unfolding selected_actual_tab
IsDraft-payload s id t e h =
    let shown = ap (λ (i : JsString). find (λ u. str_eq u.id i) s.tabs) e ∙ h.found in ground arith

-- The selected tab `t` takes the draft `w`, and the tab `v` keeps what it has.
typed :
    (w : WriteData) (s : MainState) (id : JsString) (t v : Tab TabData)
    → IsDraft s.tabs_state.selected_tab t s.tabs_state.tabs
    → IsDraft id v s.tabs_state.tabs
    → str_eq s.tabs_state.selected_tab id ≡ false
    → IsDraft s.tabs_state.selected_tab (with_draft w t) (edit_write w s).tabs_state.tabs
      × IsDraft id v (edit_write w s).tabs_state.tabs
      × ((edit_write w s).tabs_state.selected_tab ≡ s.tabs_state.selected_tab)
typed w s id t v h k apart =
    let same : t.id ≡ s.tabs_state.selected_tab =
      find_id s.tabs_state.selected_tab s.tabs_state.tabs h.found in
    rw (edit_write-replace w s h) (
      IsDraft-replace w s.tabs_state.selected_tab t s.tabs_state.tabs h,
      IsDraft-replace_other (with_draft w t) id v s.tabs_state.tabs (rw same apart) k,
      refl,
    )

-- What the window does to write in one tab, then in another, and to come back.
abbrev pub select : JsString → MainState → MainState
select id s = record s { tabs_state = switch_tab id s.tabs_state }

-- With two tabs to write in, of different ids and the first one selected: the contacts and the input
-- that are put into the second one after the first one do not reach the first, and each is given its
-- own when it is selected.
pub edit_write-switch_tab :
    (v w : WriteData) (s : MainState) (id : JsString) (t u : Tab TabData)
    → IsDraft s.tabs_state.selected_tab t s.tabs_state.tabs
    → IsDraft id u s.tabs_state.tabs
    → s.tabs_state.selected_tab ≢ id
    → let both = edit_write w (select id (edit_write v s)) in
      ((selected_actual_tab both.tabs_state).payload ≡ write_data w)
      × ((selected_actual_tab (select s.tabs_state.selected_tab both).tabs_state).payload
          ≡ write_data v)
unfolding switch_tab
edit_write-switch_tab v w s id t u h k apart =
    let first_id = s.tabs_state.selected_tab in
    let (first, second, _) = typed v s id t u h k (ground (arith, str_eq_iff first_id id)) in
    let (second', first', selected) =
      typed w (select id (edit_write v s)) first_id u (with_draft v t) second first
        (ground (arith, str_eq_iff id first_id)) in
    let both = edit_write w (select id (edit_write v s)) in
    (
      IsDraft-payload both.tabs_state id (with_draft w u) selected second',
      IsDraft-payload (select first_id both).tabs_state first_id (with_draft v t) refl first',
    )
