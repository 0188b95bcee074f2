-- ===== src/SelectableList.antt =====
-- The list that the keyboard moves through
-- (client/gui/src/renderer/components/SelectableList.tsx). A string among the items is a divider.
-- The active index is an integer: `items[-1]` is undefined in the source, so the index can be -1.
pub mod Moves
pub mod Outside
pub mod Ending
mod Tests
use anysphere_messaging.Common.{
  ℕ, zero, suc, ◌+◌, ◌-◌, Bool, true, false, not, ◌&&◌, ◌||◌, Option, none, some, List, [], ◌∷◌,
  JsString, str_eq, text, length, get_elem?, ltb, ◌==◌, if◌then◌else◌,
}
use anysphere_messaging.Common.Int.{ℤ, pos, negsuc}
use anysphere_messaging.Tabs.{KeyEvent}

-- `ListItem<T>`; `Act` stands for the closures in its field `action`.
pub record ListItem {ℓ κ} (A : Type ℓ) (Act : Type κ) : Type (ℓ ⊔ κ) where
  pub id : JsString
  pub value : A
  pub action : Option Act

pub data Row {ℓ} (A : Type ℓ) : Type ℓ where
  divider : JsString → Row A
  item : A → Row A

module _ {ℓ} {A : Type ℓ} where
  abbrev pub is_divider : Row A → Bool
  is_divider (divider _) = true
  is_divider (item _) = false

  -- `typeof items[i] === "string"`
  unfoldable pub is_divider_at : List (Row A) → ℕ → Bool
  is_divider_at rows i = elim (get_elem? rows i) [ none ↦ false | some r ↦ is_divider r ]

  -- The loop that sets `startIndex`.
  unfoldable pub start_index : List (Row A) → ℕ
  start_index [] = 0
  start_index (divider _ ∷ rows) = suc (start_index rows)
  start_index (item _ ∷ rows) = 0

  -- The loop of `previousIndex`. Below 0 the item is undefined, which ends the loop.
  unfoldable pub loop_up : List (Row A) → ℕ → ℕ → ℤ
  loop_up rows start zero =
      if is_divider_at rows 0 then (if 0 == start then pos 0 else negsuc 0) else pos 0
  loop_up rows start (suc n) =
      let rest = loop_up rows start n in
      if is_divider_at rows (suc n)
      then (if suc n == start then pos (suc n) else rest)
      else pos (suc n)

  unfoldable pub previous_index : List (Row A) → ℤ → ℤ
  previous_index rows (negsuc n) = negsuc n
  previous_index rows (pos n) =
      let start = start_index rows in loop_up rows start (if ltb start n then n - 1 else n)

  -- The loop of `nextIndex`; as much fuel as there are rows is enough.
  unfoldable pub loop_down : List (Row A) → ℕ → ℕ → ℕ
  loop_down rows zero n = n
  loop_down rows (suc fuel) n =
      let rest = loop_down rows fuel (n + 1) in
      if is_divider_at rows n then (if n + 1 == length rows then n else rest) else n

  unfoldable pub next_index : List (Row A) → ℤ → ℤ
  next_index rows (pos n) =
      pos (loop_down rows (length rows) (if ltb (n + 1) (length rows) then n + 1 else n))
  next_index rows (negsuc zero) =
      if length rows == 0 then negsuc 0 else pos (loop_down rows (length rows) 0)
  next_index rows (negsuc (suc n)) = negsuc n

  -- The effect that runs when the number of rows changes.
  unfoldable pub clamp : List (Row A) → ℤ → ℤ
  clamp rows (pos n) =
      if ltb (length rows) (n + 1) && ltb 0 (length rows) then pos (length rows - 1) else pos n
  clamp rows (negsuc n) = negsuc n

-- What the handler of the key does: `moved` for `setActiveIndex`, `clicked` for a click on the
-- active row.
pub data Response : Type 0 where
  moved : ℤ → Response
  clicked : Response
  ignored : Response

unfoldable pub handle_key {ℓ} : {A : Type ℓ} → List (Row A) → Bool → KeyEvent → ℤ → Response
handle_key rows searchable e old =
    if str_eq e.key (text "ArrowUp") || ((e.ctrl_key || not searchable) && str_eq e.key (text "k"))
    then moved (previous_index rows old)
    else if str_eq e.key (text "ArrowDown")
        || ((e.ctrl_key || not searchable) && str_eq e.key (text "j"))
    then moved (next_index rows old)
    else if str_eq e.key (text "Enter")
    then clicked
    else ignored

-- A click on the row at an index: `execute`, with nothing on a divider or without an action.
unfoldable pub execute {ℓ κ} :
    {A : Type ℓ} {Act : Type κ} → List (Row (ListItem A Act)) → ℤ → Option Act
execute rows (negsuc n) = none
execute rows (pos n) = elim (get_elem? rows n) [
  | none ↦ none
  | some (divider _) ↦ none
  | some (item i) ↦ i.action
]
