-- ===== src/SelectableList/Tests.antt =====
-- The keys on a list with dividers.
use anysphere_messaging.Common.{
  ℕ, str_eq, ◌<◌, ◌≡◌, refl, arith, false, none, some, List, [], ◌∷◌, text, length,
}
use anysphere_messaging.Common.Int.{pos, negsuc}
use anysphere_messaging.SelectableList.{
  Row, divider, item, ListItem, is_divider_at, start_index, loop_up, loop_down, previous_index,
  next_index, clamp, handle_key, execute, moved,
}
use anysphere_messaging.SelectableList.Moves.{IsNext, next_index-IsNext}
use anysphere_messaging.SelectableList.Outside.{previous_index_lt}
use anysphere_messaging.SelectableList.Ending.{RunsDown, RunsUp, loops_end}

abbrev entry : ℕ → Row (ListItem ℕ ℕ)
entry n = item (record { id = text "entry"; value = n; action = some n })

abbrev line : Row (ListItem ℕ ℕ)
line = divider (text "divider")

abbrev rows : List (Row (ListItem ℕ ℕ))
rows = line ∷ entry 1 ∷ line ∷ line ∷ entry 2 ∷ line ∷ []

down : next_index rows (pos 1) ≡ pos 4
unfolding next_index loop_down is_divider_at
down = refl

last_divider : next_index rows (pos 4) ≡ pos 5
unfolding next_index loop_down is_divider_at
last_divider = refl

up_key :
    handle_key rows false
      (record { ctrl_key = false; shift_key = false; meta_key = false; key = text "k" })
      (pos 4)
    ≡ moved (pos 1)
unfolding handle_key previous_index loop_up start_index is_divider_at text str_eq
up_key = refl

run_entry : execute rows (pos 4) ≡ some 2
unfolding execute
run_entry = refl

clamp-rows : clamp rows (pos 9) ≡ pos 5
unfolding clamp
clamp-rows = refl

next_index-IsNext_example : (m : ℕ) × (next_index rows (pos 1) ≡ pos m) × IsNext rows 2 m
next_index-IsNext_example = next_index-IsNext rows 1 (omega arith)

at_1 : is_divider_at rows 1 ≡ false
unfolding is_divider_at
at_1 = refl

at_4 : is_divider_at rows 4 ≡ false
unfolding is_divider_at
at_4 = refl

zero-lt-start : 0 < start_index rows
unfolding start_index
zero-lt-start = omega arith

previous_index_lt_example :
    (previous_index rows (pos 0) ≡ negsuc 0)
    × (previous_index rows (negsuc 0) ≡ negsuc 0)
    × (execute rows (negsuc 0) ≡ none)
previous_index_lt_example = previous_index_lt rows 0 zero-lt-start

loops_end_example :
    RunsDown rows 3 (loop_down rows (length rows) 3) × RunsUp rows 1 (pos 3) (loop_up rows 1 3)
loops_end_example = loops_end rows 1 3
