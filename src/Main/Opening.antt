-- ===== src/Main/Opening.antt =====
-- The tabs that there is one of: Outbox, Sent and Invitations.
use anysphere_messaging.Common.{
  ◌≡◌, ◌≢◌, inl, inr, refl, arith, Bool, true, false, not, ◌&&◌, none, some, List, [], ◌∷◌, ◌++◌,
  JsString, str_eq, str_eq_iff, str_eq_refl, text, All, find, Option-cases, Bool-cases, All-append,
  sym,
}
use anysphere_messaging.Tabs.{Tab, TabsState, push_tab, switch_tab, selected_actual_tab}
use anysphere_messaging.Tabs.Position.{IsFresh, HasDistinctIds}
use anysphere_messaging.Main.{
  TabData, MainState, SideBarButton, inbox_button, outbox_button, sent_button, add_friend_button,
  invitations_button, type_eq, open_or_push, open_outbox, open_sent, side_bar_callback,
  open_friend_modal,
}

find-append :
    (test : Tab TabData → Bool) (ts : List (Tab TabData)) (t : Tab TabData)
    → test t ≡ true
    → (u : Tab TabData) × (find test (ts ++ t ∷ []) ≡ some u)
find-append test [] t h = (t, ground arith)
find-append test (u ∷ ts) t h = elim (Option-cases (find test (u ∷ (ts ++ t ∷ [])))) [
  | inl absent ↦ let (v, e) = find-append test ts t h in absurd (ground (arith))
  | inr found ↦ found
]

module _ (test : Tab TabData → Bool) (tab : Tab TabData) (passes : test tab ≡ true) where
  tabs-open_or_push_twice :
      (s : TabsState TabData)
      → (open_or_push test tab (open_or_push test tab s)).tabs ≡ (open_or_push test tab s).tabs
  unfolding open_or_push switch_tab push_tab
  tabs-open_or_push_twice s = elim (Option-cases (find test s.tabs)) [
    | inl absent ↦ let (v, e) = find-append test s.tabs tab passes in ground arith
    | inr (t, found) ↦ ground arith
  ]

IsFresh-find :
    (id : JsString) (test : Tab TabData → Bool) (ts : List (Tab TabData)) {t : Tab TabData}
    → IsFresh id ts
    → find test ts ≡ some t
    → t.id ≢ id
IsFresh-find id test [] f e = cc
IsFresh-find id test (u ∷ ts) {t} (p, f) e = elim (Bool-cases (test u)) [
  | inl here ↦ λ same. p (ground arith)
  | inr later ↦ IsFresh-find id test ts {t = t} f (ground arith)
]

-- The tab found by the test is the first with its id.
find-id :
    (test : Tab TabData → Bool) (ts : List (Tab TabData)) {t : Tab TabData}
    → HasDistinctIds ts
    → find test ts ≡ some t
    → find (λ u. str_eq u.id t.id) ts ≡ some t
find-id test [] d e = cc
find-id test (u ∷ ts) {t} (f, d) e = elim (Bool-cases (test u)) [
  | inl here ↦ ground (arith, str_eq_refl t.id)
  | inr later ↦
      let found : find test ts ≡ some t = ground arith in
      ground
        (arith, find-id test ts d found, IsFresh-find u.id test ts f found, str_eq_iff u.id t.id)
]

find-passes :
    (test : Tab TabData → Bool) (ts : List (Tab TabData)) {t : Tab TabData}
    → find test ts ≡ some t
    → test t ≡ true
find-passes test [] e = cc
find-passes test (u ∷ ts) {t} e = ground (arith, find-passes test ts {t = t})

module _ (test : Tab TabData → Bool) (tab : Tab TabData) where
  -- A tab with the id of `tab` passes the test.
  abbrev IsTyped : Tab TabData → Type 0
  IsTyped t = (str_eq t.id tab.id && not (test t)) ≡ false

  -- Ids are distinct, and the id of `tab` stands only on a tab that passes the test.
  pub record IsOrderly (s : TabsState TabData) : Type 0 where
    pub distinct : HasDistinctIds s.tabs
    pub typed : All IsTyped s.tabs

  IsFresh-of_none :
      (ts : List (Tab TabData)) → All IsTyped ts → find test ts ≡ none → IsFresh tab.id ts
  IsFresh-of_none [] h e = tt
  IsFresh-of_none (u ∷ ts) (p, h) e =
      (ground (arith, str_eq_iff u.id tab.id), IsFresh-of_none ts h (ground arith))

  find-id-append :
      (ts : List (Tab TabData))
      → IsFresh tab.id ts
      → find (λ u. str_eq u.id tab.id) (ts ++ tab ∷ []) ≡ some tab
  find-id-append [] f = ground (arith, str_eq_refl tab.id)
  find-id-append (u ∷ ts) (p, f) = ground (arith, str_eq_iff u.id tab.id, find-id-append ts f)

  HasDistinctIds-append :
      (ts : List (Tab TabData))
      → HasDistinctIds ts
      → IsFresh tab.id ts
      → HasDistinctIds (ts ++ tab ∷ [])
  HasDistinctIds-append [] d f = (tt, tt)
  HasDistinctIds-append (u ∷ ts) (g, d) (p, f) = (
    All-append (λ t. t.id ≢ u.id) ts (tab ∷ []) g (λ e. p (sym e), tt),
    HasDistinctIds-append ts d f,
  )

pub open_or_push-absent :
    (test : Tab TabData → Bool) (tab : Tab TabData) (s : TabsState TabData)
    → find test s.tabs ≡ none
    → open_or_push test tab s ≡ push_tab tab s
unfolding open_or_push
open_or_push-absent test tab s e = ground arith

pub open_or_push-found :
    (test : Tab TabData → Bool) (tab t : Tab TabData) (s : TabsState TabData)
    → find test s.tabs ≡ some t
    → open_or_push test tab s ≡ switch_tab t.id s
unfolding open_or_push
open_or_push-found test tab t s e = ground arith

-- Where ids are distinct and the id of the tab is used for nothing else, asking for the tab shows
-- one that passes the test, be it open already or not, and keeps the ids in that order.
pub open_or_push-IsOrderly :
    (test : Tab TabData → Bool) (tab : Tab TabData) (s : TabsState TabData)
    → test tab ≡ true
    → IsOrderly test tab s
    → (test (selected_actual_tab (open_or_push test tab s)) ≡ true)
      × IsOrderly test tab (open_or_push test tab s)
unfolding switch_tab push_tab selected_actual_tab
open_or_push-IsOrderly test tab s passes h = elim (Option-cases (find test s.tabs)) [
  | inl absent ↦
      let fresh = IsFresh-of_none test tab s.tabs h.typed absent in
      rw (open_or_push-absent test tab s absent) (
        ground (arith, find-id-append test tab s.tabs fresh),
        record {
          distinct = HasDistinctIds-append test tab s.tabs h.distinct fresh;
          typed = All-append (IsTyped test tab) s.tabs (tab ∷ []) h.typed (ground arith, tt);
        },
      )
  | inr (t, found) ↦ rw (open_or_push-found test tab t s found) (
    ground (arith, find-id test s.tabs h.distinct found, find-passes test s.tabs found),
    record { distinct = h.distinct; typed = h.typed },
  )
]

-- Pressing a button of the sidebar again opens no second tab, and the sidebar is closed.
pub side_bar_callback_twice :
    (b : SideBarButton) (s : MainState)
    → ((side_bar_callback b (side_bar_callback b s)).tabs_state.tabs
        ≡ (side_bar_callback b s).tabs_state.tabs)
      × ((side_bar_callback b s).sidebar_open ≡ false)
unfolding side_bar_callback open_outbox open_sent open_friend_modal switch_tab type_eq
side_bar_callback_twice inbox_button s = (refl, refl)
side_bar_callback_twice outbox_button s = (tabs-open_or_push_twice _ _ refl _, refl)
side_bar_callback_twice sent_button s = (tabs-open_or_push_twice _ _ refl _, refl)
side_bar_callback_twice add_friend_button s = (refl, refl)
side_bar_callback_twice invitations_button s =
    (tabs-open_or_push_twice _ _ (ground (arith, str_eq_refl (text "invitations"))) _, refl)
