-- ===== src/Tabs/Cycle.antt =====
-- Going round the tabs.
use native.Mathlib.Nat.{mod-add-mod}
use anysphere_messaging.Common.{
  ◌∷◌, [], List, ap, ◌∙◌, ℕ, zero, suc, ◌+◌, ◌-◌, ◌%◌, ◌<◌, ◌≡◌, ◌↔◌, refl, Option, none, some, [],
  arith, length, get_elem?, get_elem?_lt, lt-length_of_get_elem?,
}
use anysphere_messaging.Tabs.{
  Tab, TabsState, next_tab, previous_tab, select_position, selected_index, next_position,
  previous_position,
}
use anysphere_messaging.Tabs.Position.{HasDistinctIds, find_index-get_elem?}

previous-next_position : (i n : ℕ) → i < n → previous_position (some ((i + 1) % n)) n ≡ i
unfolding previous_position
previous-next_position i n h = grind arith

rotate_zero : (i n : ℕ) → i < n → (i + zero) % n ≡ i
rotate_zero i n h = grind arith

rotate_suc : (i k n : ℕ) → ((i + 1) % n + k) % n ≡ (i + suc k) % n
rotate_suc i k n = mod-add-mod (i + 1) n k ∙ ap (λ (t : ℕ). t % n) (omega arith)

next_position_lt : (o : Option ℕ) (n : ℕ) → 0 < n → next_position o n < n
unfolding next_position
next_position_lt none n h = omega arith
next_position_lt (some i) n h = omega arith

module _ {ℓ} {D : Type ℓ} where
  eq-nil_of_get_elem? :
      (ts : List (Tab D)) (i : ℕ)
      → (0 < length ts → i < length ts)
      → get_elem? ts i ≡ none
      → ts ≡ []
  eq-nil_of_get_elem? [] i h e = refl
  eq-nil_of_get_elem? (t ∷ ts) i h e =
      let (u, found) = get_elem?_lt (t ∷ ts) i (h (omega arith)) in cc

  -- The selected tab stands at position `i`.
  pub record IsAt (i : ℕ) (s : TabsState D) : Type ℓ where
    pub tab : Tab D
    pub distinct : HasDistinctIds s.tabs
    pub found : get_elem? s.tabs i ≡ some tab
    pub selected : tab.id ≡ s.selected_tab

  select_position-IsAt :
      (i : ℕ) (s : TabsState D)
      → HasDistinctIds s.tabs
      → i < length s.tabs
      → (u : TabsState D) × (select_position i s ≡ some u) × IsAt i u × (u.tabs ≡ s.tabs)
  unfolding select_position
  select_position-IsAt i s d h =
      let (t, found) = get_elem?_lt s.tabs i h in
      (
        record s { previous_selected_tab = s.selected_tab; selected_tab = t.id },
        ground arith,
        record { tab = t; distinct = d; found = found; selected = refl },
        refl,
      )

  selected_index-IsAt : (i : ℕ) (s : TabsState D) → IsAt i s → selected_index s ≡ some i
  unfolding selected_index
  selected_index-IsAt i s a =
      let f = find_index-get_elem? s.tabs i a.distinct a.found in rw a.selected at f

  in_range : {i : ℕ} (k : ℕ) (s : TabsState D) → IsAt i s → k % length s.tabs < length s.tabs
  in_range {i} k s a = omega (arith, lt-length_of_get_elem? s.tabs i a.found)

  next_tab-IsAt :
      (i : ℕ) (s : TabsState D)
      → IsAt i s
      → (u : TabsState D) × (next_tab s ≡ some u)
        × IsAt ((i + 1) % length s.tabs) u
        × (u.tabs ≡ s.tabs)
  unfolding next_tab next_position
  next_tab-IsAt i s a =
      rw (selected_index-IsAt i s a)
        (select_position-IsAt ((i + 1) % length s.tabs) s a.distinct (in_range (i + 1) s a))

  previous_tab-IsAt :
      (i : ℕ) (s : TabsState D)
      → IsAt i s
      → (u : TabsState D) × (previous_tab s ≡ some u)
        × IsAt (previous_position (some i) (length s.tabs)) u
        × (u.tabs ≡ s.tabs)
  unfolding previous_tab previous_position
  previous_tab-IsAt i s a = rw (selected_index-IsAt i s a) (
      select_position-IsAt ((i + length s.tabs - 1) % length s.tabs) s a.distinct
        (in_range (i + length s.tabs - 1) s a))

  same_selection :
      (i : ℕ) {s v : TabsState D}
      → IsAt i s
      → IsAt i v
      → v.tabs ≡ s.tabs
      → v.selected_tab ≡ s.selected_tab
  same_selection i {s} {v} a b e =
      let f : get_elem? s.tabs i ≡ some b.tab = rw e at b.found in
      ground (arith, f, a.found, a.selected, b.selected)

  -- With distinct ids, going to the next tab and back selects the tab that was selected, and the
  -- bar is what it was.
  pub previous-next :
      (i : ℕ) (s : TabsState D)
      → IsAt i s
      → (u v : TabsState D) × (next_tab s ≡ some u)
        × (previous_tab u ≡ some v)
        × (v.selected_tab ≡ s.selected_tab)
        × (v.tabs ≡ s.tabs)
  previous-next i s a =
      let (u, moved, at_next, same) = next_tab-IsAt i s a in
      let (v, back, at_prev, same') = previous_tab-IsAt _ u at_next in
      let at_i : IsAt i v =
        rw (previous-next_position i (length s.tabs) (lt-length_of_get_elem? s.tabs i a.found)) at
          (rw same at at_prev) in
      (u, v, moved, back, same_selection i a at_i (same' ∙ same), same' ∙ same)

  -- `nextTab` as many times as `n` says.
  unfoldable pub next_tabs : ℕ → TabsState D → Option (TabsState D)
  next_tabs zero s = some s
  next_tabs (suc n) s =
      let rest = next_tabs n in elim (next_tab s) [ none ↦ none | some u ↦ rest u ]

  -- With distinct ids, `n` presses from position `i` select the tab at position `i + n`, counted
  -- round the bar: every tab is reached, and as many presses as there are tabs come back.
  pub next_tabs-cycle :
      (n i : ℕ) (s : TabsState D)
      → IsAt i s
      → (u : TabsState D) × (next_tabs n s ≡ some u)
        × IsAt ((i + n) % length s.tabs) u
        × (u.tabs ≡ s.tabs)
  unfolding next_tabs
  next_tabs-cycle zero i s a = (
    s,
    refl,
    rw (rotate_zero i (length s.tabs) (lt-length_of_get_elem? s.tabs i a.found)) a,
    refl,
  )
  next_tabs-cycle (suc n) i s a =
      let (u, moved, at_next, same) = next_tab-IsAt i s a in
      let (v, rest, at_end, same') = next_tabs-cycle n _ u at_next in
      (
        v,
        rw (moved, next_tabs) rest,
        rw (← rotate_suc i n (length s.tabs)) (rw same at at_end),
        same' ∙ same,
      )

  -- `nextTab` throws exactly when no tab is open.
  pub next_tab-eq-none_iff : (s : TabsState D) → (next_tab s ≡ none) ↔ (s.tabs ≡ [])
  unfolding next_tab select_position
  next_tab-eq-none_iff s =
      let i = next_position (selected_index s) (length s.tabs) in
      (λ e. ground (arith, eq-nil_of_get_elem? s.tabs i (next_position_lt _ _)), λ e. ground arith)
