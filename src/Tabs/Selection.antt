-- ===== src/Tabs/Selection.antt =====
-- Which tab is shown: the selected id against the tabs that there are.
use anysphere_messaging.Common.{
  ℕ, ◌≡◌, ◌⊎◌, inl, inr, refl, true, false, not, Option, none, some, List, [], ◌∷◌, ◌++◌, map,
  arith, JsString, str_eq, str_eq_iff, str_eq_refl, length, get_elem?, filter, find, Option-cases,
  if◌then◌else◌, ltb,
}
use anysphere_messaging.Tabs.{
  Tab, TabsState, KeyEvent, has_tab, push_tab, close_tab, after_close, next_tab, previous_tab,
  switch_tab, select_position, selected_actual_tab, update_tab, handle_key,
}
use anysphere_messaging.Tabs.Position.{has_tab-get_elem?}

module _ {ℓ} {D : Type ℓ} where
  -- The selected id is that of a tab, or that of the tab shown when there is none.
  abbrev pub IsSelectable : TabsState D → Type 0
  IsSelectable s = (has_tab s.selected_tab s.tabs ≡ true) ⊎ (s.selected_tab ≡ s.default_tab.id)

  has_tab-append :
      (id : JsString) (ts us : List (Tab D)) → has_tab id us ≡ true → has_tab id (ts ++ us) ≡ true
  has_tab-append id [] us h = h
  has_tab-append id (t ∷ ts) us h = ground (arith, has_tab-append id ts us h)

  -- `newTabs.filter(…).length > 0` says that some tab has the id.
  pub has_tab_of_filter :
      (id : JsString) (ts : List (Tab D))
      → ltb 0 (length (filter (λ t. str_eq t.id id) ts)) ≡ has_tab id ts
  has_tab_of_filter id [] = refl
  has_tab_of_filter id (t ∷ ts) = ground (arith, has_tab_of_filter id ts)

  -- Closing the tabs of one id leaves the others.
  pub has_tab-close :
      (id j : JsString) (ts : List (Tab D))
      → str_eq j id ≡ false
      → has_tab j (filter (λ t. not (str_eq t.id id)) ts) ≡ has_tab j ts
  has_tab-close id j [] ne = refl
  has_tab-close id j (t ∷ ts) ne =
      ground
        (arith, has_tab-close id j ts ne, str_eq_iff t.id id, str_eq_iff t.id j, str_eq_iff j id)

  has_tab-update :
      (id : JsString) (tab : Tab D) (ts : List (Tab D))
      → has_tab id (map (λ t. if str_eq t.id tab.id then tab else t) ts) ≡ has_tab id ts
  has_tab-update id tab [] = refl
  has_tab-update id tab (t ∷ ts) = ground (
    arith,
    has_tab-update id tab ts,
    str_eq_iff t.id tab.id,
    str_eq_iff t.id id,
    str_eq_iff tab.id id,
  )

  push_tab-IsSelectable : (tab : Tab D) (s : TabsState D) → IsSelectable (push_tab tab s)
  unfolding push_tab
  push_tab-IsSelectable tab s =
      inl (has_tab-append tab.id s.tabs (tab ∷ []) (ground (arith, str_eq_refl tab.id)))

  pub close_tab-IsSelectable :
      (id : JsString) (s : TabsState D) → IsSelectable s → IsSelectable (close_tab id s)
  unfolding close_tab after_close
  close_tab-IsSelectable id s h =
      let new_tabs = filter (λ t. not (str_eq t.id id)) s.tabs in
      ground (
        arith,
        has_tab_of_filter s.previous_selected_tab new_tabs,
        has_tab-close id s.selected_tab s.tabs,
      )

  select_position-IsSelectable :
      (i : ℕ) (s : TabsState D) {u : TabsState D} → select_position i s ≡ some u → IsSelectable u
  unfolding select_position
  select_position-IsSelectable i s e = elim (Option-cases (get_elem? s.tabs i)) [
    | inl absent ↦ ground arith
    | inr (t, found) ↦ ground (arith, has_tab-get_elem? s.tabs i found)
  ]

  pub find_id :
      (id : JsString) (ts : List (Tab D)) {t : Tab D}
      → find (λ u. str_eq u.id id) ts ≡ some t
      → t.id ≡ id
  find_id id [] e = cc
  find_id id (u ∷ ts) {t} e = ground (arith, find_id id ts {t = t}, str_eq_iff u.id id)

  find-none :
      (id : JsString) (ts : List (Tab D))
      → find (λ u. str_eq u.id id) ts ≡ none
      → has_tab id ts ≡ false
  find-none id [] e = refl
  find-none id (u ∷ ts) e = ground (arith, find-none id ts)

  update_tab-IsSelectable :
      (tab : Tab D) (s : TabsState D) → IsSelectable s → IsSelectable (update_tab tab s)
  unfolding update_tab
  update_tab-IsSelectable tab s h = ground (arith, has_tab-update s.selected_tab tab s.tabs)

  next_tab-IsSelectable : (s : TabsState D) {u : TabsState D} → next_tab s ≡ some u → IsSelectable u
  unfolding next_tab
  next_tab-IsSelectable s e = select_position-IsSelectable _ s e

  previous_tab-IsSelectable :
      (s : TabsState D) {u : TabsState D} → previous_tab s ≡ some u → IsSelectable u
  unfolding previous_tab
  previous_tab-IsSelectable s e = select_position-IsSelectable _ s e

  handle_key-IsSelectable :
      (e : KeyEvent) (s : TabsState D) {u : TabsState D}
      → IsSelectable s
      → handle_key e s ≡ some u
      → IsSelectable u
  unfolding handle_key
  handle_key-IsSelectable e s {u} h k = ground (
    arith,
    next_tab-IsSelectable s {u = u},
    previous_tab-IsSelectable s {u = u},
    close_tab-IsSelectable (selected_actual_tab s).id s h,
  )

  -- The tab that is shown is the one that the bar highlights.
  pub selected_actual_tab-id :
      (s : TabsState D) → IsSelectable s → (selected_actual_tab s).id ≡ s.selected_tab
  unfolding selected_actual_tab
  selected_actual_tab-id s h = elim (Option-cases (find (λ t. str_eq t.id s.selected_tab) s.tabs)) [
    | inl absent ↦ ground (arith, find-none s.selected_tab s.tabs absent)
    | inr (t, found) ↦ ground (arith, find_id s.selected_tab s.tabs found)
  ]

-- What the rest of the client can ask of the tab bar.
pub data TabAction {ℓ} (D : Type ℓ) : Type ℓ where
  push update : Tab D → TabAction D
  close switch : JsString → TabAction D
  next previous : TabAction D
  press : KeyEvent → TabAction D

unfoldable pub step {ℓ} : {D : Type ℓ} → TabAction D → TabsState D → Option (TabsState D)
step (push tab) s = some (push_tab tab s)
step (close id) s = some (close_tab id s)
step (switch id) s = some (switch_tab id s)
step next s = next_tab s
step previous s = previous_tab s
step (update tab) s = some (update_tab tab s)
step (press e) s = handle_key e s

-- A switch names a tab of the bar.
abbrev pub IsListed {ℓ} : {D : Type ℓ} → TabAction D → TabsState D → Type 0
IsListed (switch id) s = has_tab id s.tabs ≡ true
IsListed _ s = Unit

-- Every operation of the tab bar that ends leaves a selected id that is the id of an open tab or
-- of the default tab, if the state before it had one and a switch names an open tab.
pub step-IsSelectable {ℓ} :
    {D : Type ℓ} (a : TabAction D) (s u : TabsState D)
    → IsSelectable s
    → IsListed a s
    → step a s ≡ some u
    → IsSelectable u
unfolding step
step-IsSelectable (push tab) s u h l e = ground (arith, push_tab-IsSelectable tab s)
step-IsSelectable (close id) s u h l e = ground (arith, close_tab-IsSelectable id s h)
step-IsSelectable (switch id) s u h l e = unfold switch_tab in ground arith
step-IsSelectable next s u h l e = next_tab-IsSelectable s e
step-IsSelectable previous s u h l e = previous_tab-IsSelectable s e
step-IsSelectable (update tab) s u h l e = ground (arith, update_tab-IsSelectable tab s h)
step-IsSelectable (press k) s u h l e = handle_key-IsSelectable k s h e
