-- ===== src/Tabs/Position.antt =====
-- Positions of ids in the tab bar.
use anysphere_messaging.Common.{
  ℕ, zero, suc, ◌≡◌, ◌≢◌, true, some, List, [], ◌∷◌, arith, JsString, str_eq, str_eq_iff,
  str_eq_refl, All, get_elem?,
}
use anysphere_messaging.Tabs.{Tab, find_index, has_tab}

module _ {ℓ} {D : Type ℓ} where
  abbrev pub IsFresh : JsString → List (Tab D) → Type 0
  IsFresh id tabs = All (λ t. t.id ≢ id) tabs

  -- No two tabs share an id.
  abbrev pub HasDistinctIds : List (Tab D) → Type 0
  HasDistinctIds [] = Unit
  HasDistinctIds (t ∷ ts) = IsFresh t.id ts × HasDistinctIds ts

  IsFresh-get_elem? :
      (id : JsString) (ts : List (Tab D)) (i : ℕ) {t : Tab D}
      → IsFresh id ts
      → get_elem? ts i ≡ some t
      → t.id ≢ id
  IsFresh-get_elem? id [] i f e = cc
  IsFresh-get_elem? id (u ∷ ts) zero (p, f) e = λ q. p (cc)
  IsFresh-get_elem? id (u ∷ ts) (suc i) (p, f) e = IsFresh-get_elem? id ts i f e

  pub has_tab-get_elem? :
      (ts : List (Tab D)) (i : ℕ) {t : Tab D} → get_elem? ts i ≡ some t → has_tab t.id ts ≡ true
  has_tab-get_elem? [] i e = cc
  has_tab-get_elem? (u ∷ ts) zero {t} e = ground (arith, str_eq_refl t.id)
  has_tab-get_elem? (u ∷ ts) (suc i) {t} e = ground (arith, has_tab-get_elem? ts i e)

  -- The first tab with the id of the tab at `i` is that tab, where ids are distinct.
  pub find_index-get_elem? :
      (ts : List (Tab D)) (i : ℕ) {t : Tab D}
      → HasDistinctIds ts
      → get_elem? ts i ≡ some t
      → find_index (λ u. str_eq u.id t.id) ts ≡ some i
  unfolding find_index
  find_index-get_elem? [] i d e = cc
  find_index-get_elem? (u ∷ ts) zero {t} d e = ground (arith, str_eq_refl t.id)
  find_index-get_elem? (u ∷ ts) (suc i) {t} (f, d) e =
      ground (
        arith,
        str_eq_iff u.id t.id,
        IsFresh-get_elem? u.id ts i f e,
        find_index-get_elem? ts i d e,
      )
