-- ===== src/SelectableList/Ending.antt =====
-- The two loops of `nextIndex` and `previousIndex` as the source runs them
-- (client/gui/src/renderer/components/SelectableList.tsx), round by round, as relations between the
-- index that a loop is entered at and the one that it is left at.
use anysphere_messaging.Common.{
  ℕ, zero, suc, ◌+◌, ◌≤◌, ◌≡◌, inl, inr, arith, true, false, List, length, get_elem?,
  lt-length_of_get_elem?, ◌==◌, Bool-cases, Option-cases,
}
use anysphere_messaging.Common.Int.{ℤ, pos, negsuc}
use anysphere_messaging.SelectableList.{Row, is_divider_at, loop_up, loop_down}

module _ {ℓ} {A : Type ℓ} (rows : List (Row A)) where
  -- The loop of `nextIndex`, entered at the first index, is left at the second.
  pub data RunsDown : ℕ → ℕ → Type ℓ where
    leaves : (n : ℕ) → is_divider_at rows n ≡ false → RunsDown n n
    breaks : (n : ℕ) → is_divider_at rows n ≡ true → (n + 1 == length rows) ≡ true → RunsDown n n
    goes :
        (n m : ℕ)
        → is_divider_at rows n ≡ true
        → (n + 1 == length rows) ≡ false
        → RunsDown (n + 1) m
        → RunsDown n m

  -- The loop of `previousIndex`; at an index below 0 there is no item.
  pub data RunsUp (start : ℕ) : ℤ → ℤ → Type ℓ where
    outside : (n : ℕ) → RunsUp start (negsuc n) (negsuc n)
    leaves_up : (n : ℕ) → is_divider_at rows n ≡ false → RunsUp start (pos n) (pos n)
    breaks_up :
        (n : ℕ) → is_divider_at rows n ≡ true → (n == start) ≡ true → RunsUp start (pos n) (pos n)
    goes_below :
        (m : ℤ)
        → is_divider_at rows 0 ≡ true
        → (0 == start) ≡ false
        → RunsUp start (negsuc 0) m
        → RunsUp start (pos 0) m
    goes_up :
        (n : ℕ) (m : ℤ)
        → is_divider_at rows (suc n) ≡ true
        → (suc n == start) ≡ false
        → RunsUp start (pos n) m
        → RunsUp start (pos (suc n)) m

  beyond : (n : ℕ) → length rows ≤ n → is_divider_at rows n ≡ false
  unfolding is_divider_at
  beyond n h = elim (Option-cases (get_elem? rows n)) [
    | inl absent ↦ ground arith
    | inr (r, found) ↦ absurd (omega (arith, lt-length_of_get_elem? rows n found))
  ]

  loop_down-RunsDown : (fuel n : ℕ) → length rows ≤ n + fuel → RunsDown n (loop_down rows fuel n)
  unfolding loop_down
  loop_down-RunsDown zero n h = leaves n (beyond n (omega arith))
  loop_down-RunsDown (suc fuel) n h = elim (Bool-cases (is_divider_at rows n)) [
    | inl d ↦ elim (Bool-cases (n + 1 == length rows)) [
      | inl last ↦ rw (d, last) (breaks n d last)
      | inr more ↦ rw (d, more) (goes n _ d more (loop_down-RunsDown fuel (n + 1) (omega arith)))
    ]
    | inr plain ↦ rw plain (leaves n plain)
  ]

  loop_up-RunsUp : (start n : ℕ) → RunsUp start (pos n) (loop_up rows start n)
  unfolding loop_up
  loop_up-RunsUp start zero = elim (Bool-cases (is_divider_at rows 0)) [
    | inl d ↦ elim (Bool-cases (0 == start)) [
      | inl first ↦ rw (d, first) (breaks_up 0 d first)
      | inr below ↦ rw (d, below) (goes_below _ d below (outside 0))
    ]
    | inr plain ↦ rw plain (leaves_up 0 plain)
  ]
  loop_up-RunsUp start (suc n) = elim (Bool-cases (is_divider_at rows (suc n))) [
    | inl d ↦ elim (Bool-cases (suc n == start)) [
      | inl first ↦ rw (d, first) (breaks_up (suc n) d first)
      | inr above ↦ rw (d, above) (goes_up n _ d above (loop_up-RunsUp start n))
    ]
    | inr plain ↦ rw plain (leaves_up (suc n) plain)
  ]

-- Both loops end, from every index and whatever the rows are, at the index that the functions with
-- fuel give.
pub loops_end {ℓ} :
    {A : Type ℓ} (rows : List (Row A)) (start n : ℕ)
    → RunsDown rows n (loop_down rows (length rows) n)
      × RunsUp rows start (pos n) (loop_up rows start n)
loops_end rows start n =
    (loop_down-RunsDown rows (length rows) n (omega arith), loop_up-RunsUp rows start n)
