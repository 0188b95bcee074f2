-- ===== src/Main/Reading.antt =====
-- Opening a message.
use anysphere_messaging.Common.{
  ℕ, zero, suc, ap, ◌+◌, ◌≡◌, refl, arith, none, some, List, [], ◌∷◌, ◌++◌, str_eq, str_eq_iff,
  str_eq_refl, length, length-append, find, get_elem?, ◌∙◌, append_assoc,
}
use anysphere_messaging.Tabs.{
  Tab, TabsState, push_tab, next_tab, select_position, selected_index, next_position, find_index,
}
use anysphere_messaging.Tabs.Position.{IsFresh}
use anysphere_messaging.Tabs.Cycle.{next_tabs}
use anysphere_messaging.Main.{
  TabData, Message, MainState, uid, already_read, read_tab, read_message,
}

find-already_read : (m : Message) (ts : List (Tab TabData)) → find (already_read m) ts ≡ none
unfolding already_read
find-already_read m [] = refl
find-already_read m (t ∷ ts) = ground (arith, find-already_read m ts)

-- Opening a message always opens one more tab and always reports the message as seen, also when
-- a tab with this message is open already: the loop over the tabs never finds it.
pub read_message-push_tab :
    (m : Message) (s : MainState)
    → read_message m s ≡ record s {
      tabs_state = push_tab (read_tab m) s.tabs_state;
      seen_calls = uid m ∷ s.seen_calls;
    }
unfolding read_message
read_message-push_tab m s = ground (arith, find-already_read m s.tabs_state.tabs)

module _ {ℓ} {D : Type ℓ} where
  find_index-append :
      (ts us : List (Tab D)) (t : Tab D)
      → IsFresh t.id ts
      → find_index (λ u. str_eq u.id t.id) (ts ++ t ∷ us) ≡ some (length ts)
  unfolding find_index
  find_index-append [] us t f = ground (arith, str_eq_refl t.id)
  find_index-append (u ∷ ts) us t (p, f) =
      ground (arith, str_eq_iff u.id t.id, find_index-append ts us t f)

  get_elem?-append_second :
      (ts : List (Tab D)) (t : Tab D) → get_elem? (ts ++ t ∷ t ∷ []) (length ts + 1) ≡ some t
  get_elem?-append_second [] t = refl
  get_elem?-append_second (u ∷ ts) t = ground (arith, get_elem?-append_second ts t)

  next_position-second :
      (ts : List (Tab D)) (t : Tab D)
      → next_position (some (length ts)) (length (ts ++ t ∷ t ∷ [])) ≡ length ts + 1
  unfolding next_position
  next_position-second ts t = grind (arith, length-append ts (t ∷ t ∷ []))

  -- A bar that ends in the same tab twice, which is selected.
  record IsStuck (ts : List (Tab D)) (t : Tab D) (s : TabsState D) : Type ℓ where
    tabs : s.tabs ≡ ts ++ t ∷ t ∷ []
    selected : s.selected_tab ≡ t.id

  next_tab-IsStuck :
      (ts : List (Tab D)) (t : Tab D) (s : TabsState D)
      → IsFresh t.id ts
      → IsStuck ts t s
      → (u : TabsState D) × (next_tab s ≡ some u) × IsStuck ts t u
  unfolding next_tab
  next_tab-IsStuck ts t s f h =
      let u = record s { previous_selected_tab = s.selected_tab; selected_tab = t.id } in
      let at_first : selected_index s ≡ some (length ts) =
        unfold selected_index in rw (h.tabs, h.selected) (find_index-append ts (t ∷ []) t f) in
      let after : next_position (some (length ts)) (length s.tabs) ≡ length ts + 1 =
        rw h.tabs (next_position-second ts t) in
      let moved : select_position (length ts + 1) s ≡ some u =
        unfold select_position in ground (arith, h.tabs, get_elem?-append_second ts t) in
      (u, rw (at_first, after) moved, record { tabs = h.tabs; selected = refl })

  next_tabs-IsStuck :
      (n : ℕ) (ts : List (Tab D)) (t : Tab D) (s : TabsState D)
      → IsFresh t.id ts
      → IsStuck ts t s
      → (u : TabsState D) × (next_tabs n s ≡ some u) × IsStuck ts t u
  unfolding next_tabs
  next_tabs-IsStuck zero ts t s f h = (s, refl, h)
  next_tabs-IsStuck (suc n) ts t s f h =
      let (u, moved, stuck) = next_tab-IsStuck ts t s f h in
      let (v, rest, end) = next_tabs-IsStuck n ts t u f stuck in
      (v, rw (moved, next_tabs) rest, end)

-- A message is opened, where no tab has its id. When it is opened again while the tabs are still the
-- same, whatever tab was selected in between, the bar has two tabs of one id; and however often the
-- key for the next tab is pressed then, that id stays selected, with the same tabs.
pub next_tabs-read_message :
    (n : ℕ) (m : Message) (s u : MainState)
    → IsFresh (read_tab m).id s.tabs_state.tabs
    → u.tabs_state.tabs ≡ (read_message m s).tabs_state.tabs
    → (v : TabsState TabData) × (next_tabs n (read_message m u).tabs_state ≡ some v)
      × (v.selected_tab ≡ (read_tab m).id)
      × (v.tabs ≡ s.tabs_state.tabs ++ read_tab m ∷ read_tab m ∷ [])
unfolding push_tab
next_tabs-read_message n m s u f same =
    let t = read_tab m in
    let ts = s.tabs_state.tabs in
    let first : u.tabs_state.tabs ≡ ts ++ t ∷ [] =
      same ∙ ap (λ (w : MainState). w.tabs_state.tabs) (read_message-push_tab m s) in
    let (v, moved, stuck) =
      next_tabs-IsStuck n ts t (push_tab t u.tabs_state) f
        (record { tabs = rw first (append_assoc ts (t ∷ []) (t ∷ [])); selected = refl }) in
    (v, rw (read_message-push_tab m u) moved, stuck.selected, stuck.tabs)
