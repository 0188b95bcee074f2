-- ===== src/SelectableList/Moves.antt =====
-- Where the keys move the active row.
use anysphere_messaging.Common.{
  ℕ, zero, suc, ◌+◌, ◌-◌, ◌<◌, ◌≤◌, ◌≡◌, ◌≢◌, ◌⊎◌, inl, inr, refl, arith, Bool, true, false, not,
  ◌&&◌, List, [], ◌∷◌, length, ltb, ◌==◌, if◌then◌else◌, Bool-cases,
}
use anysphere_messaging.Common.Int.{pos}
use anysphere_messaging.SelectableList.{
  Row, divider, item, is_divider_at, start_index, loop_up, loop_down, previous_index, next_index,
}

module _ {ℓ} {A : Type ℓ} where
  -- Every row strictly between two positions is a divider.
  abbrev pub OnlyDividers : List (Row A) → ℕ → ℕ → Type 0
  OnlyDividers rows a b = (k : ℕ) → a < k → k < b → is_divider_at rows k ≡ true

  start_index-item : (rows : List (Row A)) → is_divider_at rows (start_index rows) ≡ false
  unfolding is_divider_at start_index
  start_index-item [] = refl
  start_index-item (divider _ ∷ rows) = start_index-item rows
  start_index-item (item _ ∷ rows) = refl

  -- The position that the loop ends at, from `n` upwards.
  pub record IsPrevious (rows : List (Row A)) (n : ℕ) (m : ℕ) : Type 0 where
    pub low : start_index rows ≤ m
    pub high : m ≤ n
    pub selectable : is_divider_at rows m ≡ false
    pub between : (k : ℕ) → m < k → k ≤ n → is_divider_at rows k ≡ true

  start_index-ne :
      (rows : List (Row A)) (k : ℕ) → is_divider_at rows k ≡ true → start_index rows ≢ k
  start_index-ne rows k d = λ e. cc (start_index-item rows)

  loop_up-IsPrevious :
      (rows : List (Row A)) (n : ℕ)
      → start_index rows ≤ n
      → (m : ℕ) × (loop_up rows (start_index rows) n ≡ pos m) × IsPrevious rows n m
  unfolding loop_up
  loop_up-IsPrevious rows zero h =
      let zeroth : is_divider_at rows 0 ≡ false = ground (arith, start_index-item rows) in
      (
        0,
        ground arith,
        record {
          low = h;
          high = omega arith;
          selectable = zeroth;
          between = λ k a b. absurd (omega arith);
        },
      )
  loop_up-IsPrevious rows (suc n) h = elim (Bool-cases (is_divider_at rows (suc n))) [
    | inl d ↦
        let ne = start_index-ne rows (suc n) d in
        let (m, e, p) = loop_up-IsPrevious rows n (omega arith) in
        (
          m,
          ground arith,
          record {
            low = p.low;
            high = omega (arith, p.high);
            selectable = p.selectable;
            between = λ k a b. ground (arith, p.between k a);
          },
        )
    | inr plain ↦ (
      suc n,
      ground arith,
      record {
        low = h;
        high = omega arith;
        selectable = plain;
        between = λ k a b. absurd (omega arith);
      },
    )
  ]

  -- From an active row at or below the first selectable one, the arrow up leads to the nearest
  -- selectable row above it, or stays at the first one.
  pub previous_index-IsPrevious :
      (rows : List (Row A)) (n : ℕ)
      → start_index rows ≤ n
      → (m : ℕ) × (previous_index rows (pos n) ≡ pos m)
        × IsPrevious rows (if ltb (start_index rows) n then n - 1 else n) m
  unfolding previous_index
  previous_index-IsPrevious rows n h =
      loop_up-IsPrevious rows (if ltb (start_index rows) n then n - 1 else n) (ground arith)

  -- The position that the loop ends at, from `n` downwards.
  pub record IsNext (rows : List (Row A)) (n : ℕ) (m : ℕ) : Type 0 where
    pub low : n ≤ m
    pub high : m < length rows
    pub selectable : (is_divider_at rows m ≡ false) ⊎ (m + 1 ≡ length rows)
    pub between : (k : ℕ) → n ≤ k → k < m → is_divider_at rows k ≡ true

  -- Whether the loop goes on from `n`.
  abbrev goes_on : List (Row A) → ℕ → Bool
  goes_on rows n = is_divider_at rows n && not (n + 1 == length rows)

  loop_down-go :
      (rows : List (Row A)) (fuel n : ℕ)
      → goes_on rows n ≡ true
      → loop_down rows (suc fuel) n ≡ loop_down rows fuel (n + 1)
  unfolding loop_down
  loop_down-go rows fuel n h = ground arith

  loop_down-stop :
      (rows : List (Row A)) (fuel n : ℕ) → goes_on rows n ≡ false → loop_down rows (suc fuel) n ≡ n
  unfolding loop_down
  loop_down-stop rows fuel n h = ground arith

  loop_down-IsNext :
      (rows : List (Row A)) (fuel n : ℕ)
      → n < length rows
      → length rows ≤ n + fuel
      → IsNext rows n (loop_down rows fuel n)
  unfolding loop_down
  loop_down-IsNext rows zero n h f = absurd (omega arith)
  loop_down-IsNext rows (suc fuel) n h f = elim (Bool-cases (goes_on rows n)) [
    | inl on ↦
        let p = loop_down-IsNext rows fuel (n + 1) (ground arith) (omega arith) in
        rw (loop_down-go rows fuel n on) (record {
          low = omega (arith, p.low);
          high = p.high;
          selectable = p.selectable;
          between = λ k a b. ground (arith, p.between k);
        })
    | inr stop ↦ rw (loop_down-stop rows fuel n stop) (record {
      low = omega arith;
      high = h;
      selectable = ground arith;
      between = λ k a b. absurd (omega arith);
    })
  ]

  -- From an active row of the list, the arrow down leads to the nearest selectable row below it,
  -- or to the last row; the fuel is enough for every list.
  pub next_index-IsNext :
      (rows : List (Row A)) (n : ℕ)
      → n < length rows
      → (m : ℕ) × (next_index rows (pos n) ≡ pos m)
        × IsNext rows (if ltb (n + 1) (length rows) then n + 1 else n) m
  unfolding next_index
  next_index-IsNext rows n h =
      let start : ℕ = if ltb (n + 1) (length rows) then n + 1 else n in
      (
        loop_down rows (length rows) start,
        refl,
        loop_down-IsNext rows (length rows) start (ground arith) (ground arith),
      )

  -- Down and up again: where both rows are selectable, the active row is the one it was.
  pub previous-next_index :
      (rows : List (Row A)) (n m : ℕ)
      → n < length rows
      → start_index rows ≤ n
      → is_divider_at rows n ≡ false
      → next_index rows (pos n) ≡ pos m
      → is_divider_at rows m ≡ false
      → n < m
      → previous_index rows (pos m) ≡ pos n
  previous-next_index rows n m h s plain e plain' lt =
      let (m', e', below) = next_index-IsNext rows n h in
      let (k, up, above) = previous_index-IsPrevious rows m (omega arith) in
      let same : m' ≡ m = ground arith in
      let bound = below.high in
      let high = above.high in
      let k_eq : k ≡ n =
        ground (arith, above.between n, below.between k, above.selectable, bound, high) in
      rw (up, k_eq)
