-- ===== src/SelectableList/Outside.antt =====
-- The active index in front of the first selectable row.
use anysphere_messaging.Common.{ℕ, zero, suc, ◌<◌, ◌≡◌, refl, arith, true, none, List, [], ◌∷◌}
use anysphere_messaging.Common.Int.{pos, negsuc}
use anysphere_messaging.SelectableList.{
  Row, divider, item, ListItem, is_divider_at, start_index, loop_up, previous_index, execute,
}

module _ {ℓ} {A : Type ℓ} where
  is_divider_at_lt :
      (rows : List (Row A)) (n : ℕ) → n < start_index rows → is_divider_at rows n ≡ true
  unfolding is_divider_at start_index
  is_divider_at_lt [] n h = absurd (omega arith)
  is_divider_at_lt (divider _ ∷ rows) zero h = refl
  is_divider_at_lt (divider _ ∷ rows) (suc n) h = is_divider_at_lt rows n (omega arith)
  is_divider_at_lt (item _ ∷ rows) n h = absurd (omega arith)

  loop_up_lt :
      (rows : List (Row A)) (n : ℕ)
      → n < start_index rows
      → loop_up rows (start_index rows) n ≡ negsuc 0
  unfolding loop_up
  loop_up_lt rows zero h = ground (arith, is_divider_at_lt rows 0 h)
  loop_up_lt rows (suc n) h = ground (arith, is_divider_at_lt rows (suc n) h, loop_up_lt rows n)

-- When the rows change under an active index that stands in front of the first selectable row, the
-- arrow up makes the index -1; it stays there however often it is pressed, and Enter runs nothing.
pub previous_index_lt {ℓ κ} :
    {A : Type ℓ} {Act : Type κ} (rows : List (Row (ListItem A Act))) (n : ℕ)
    → n < start_index rows
    → (previous_index rows (pos n) ≡ negsuc 0)
      × (previous_index rows (negsuc 0) ≡ negsuc 0)
      × (execute rows (negsuc 0) ≡ none)
unfolding previous_index execute
previous_index_lt rows n h = (ground (arith, loop_up_lt rows n h), refl, refl)
