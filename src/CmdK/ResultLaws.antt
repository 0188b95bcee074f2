-- ===== src/CmdK/ResultLaws.antt =====
-- What the palette lists, and what its keys make active.
use anysphere_messaging.Common.{
  ℕ, zero, suc, ◌+◌, ◌-◌, ◌<◌, ◌≡◌, ◌≢◌, refl, arith, Bool, true, false, List, [], ◌∷◌, ◌++◌, map,
  JsString, str_eq, text, length, if◌then◌else◌, All, Bool-cases, inl, inr, any,
}
use anysphere_messaging.SelectableList.{Row, divider, item, is_divider_at}
use anysphere_messaging.CmdK.{Action}
use anysphere_messaging.CmdK.Results.{
  ActionTree, node, Forest, nil, cons, action_of, roots, below, below_all, deep_results, Group,
  section_of, push_to, group_from, lookup_group, rows_of, rows_from, names_of, results, up, down,
  first_index,
}

-- How many actions of a list pass a test.
pub count : (Action → Bool) → List Action → ℕ
count p [] = 0
count p (a ∷ more) = (if p a then 1 else 0) + count p more

count-append :
    (p : Action → Bool) (xs ys : List Action) → count p (xs ++ ys) ≡ count p xs + count p ys
unfolding count
count-append p [] ys = omega arith
count-append p (x ∷ xs) ys = omega (arith, count-append p xs ys)

-- The same over a forest, each action counted where it stands.
unfoldable mutual
  pub count_tree : (Action → Bool) → ActionTree → ℕ
  count_tree p (node a cs) = (if p a then 1 else 0) + count_forest p cs

  pub count_forest : (Action → Bool) → Forest → ℕ
  count_forest p nil = 0
  count_forest p (cons t ts) = count_tree p t + count_forest p ts

mutual
  unfolding count_tree below count roots

  count-below :
      (p : Action → Bool) (t : ActionTree)
      → (if p (action_of t) then 1 else 0) + count p (below t) ≡ count_tree p t
  count-below p (node a cs) =
      omega (arith, count-append p (roots cs) (below_all cs), count-deep p cs)

  count-deep :
      (p : Action → Bool) (ts : Forest)
      → count p (roots ts) + count p (below_all ts) ≡ count_forest p ts
  count-deep p nil = omega arith
  count-deep p (cons t ts) =
      omega (arith, count-append p (below t) (below_all ts), count-below p t, count-deep p ts)

-- A search goes through every action of the forest exactly once: whatever is counted, the flat list
-- holds as many as the trees.
pub count-deep_results :
    (p : Action → Bool) (actions : Forest) → count p (deep_results actions) ≡ count_forest p actions
unfolding deep_results
count-deep_results p actions =
    omega (arith, count-append p (roots actions) (below_all actions), count-deep p actions)

-- Below each section's name stands a result.
abbrev pub IsGrouped : List (Row Action) → Type 0
IsGrouped [] = Unit
IsGrouped (item a ∷ rows) = IsGrouped rows
IsGrouped (divider n ∷ []) = ⊥
IsGrouped (divider n ∷ divider m ∷ rows) = ⊥
IsGrouped (divider n ∷ item a ∷ rows) = IsGrouped rows

IsGrouped-items :
    (actions : List Action) (rows : List (Row Action))
    → IsGrouped rows
    → IsGrouped (map item actions ++ rows)
IsGrouped-items [] rows h = h
IsGrouped-items (a ∷ actions) rows h = IsGrouped-items actions rows h

IsGrouped-rows_of :
    (name : JsString) (actions : List Action) (rows : List (Row Action))
    → actions ≢ []
    → IsGrouped rows
    → IsGrouped (rows_of name actions ++ rows)
unfolding rows_of
IsGrouped-rows_of name [] rows ne h = absurd (ne refl)
IsGrouped-rows_of name (a ∷ actions) rows ne h = elim (Bool-cases (str_eq name (text "none"))) [
  | inl plain ↦ rw plain (IsGrouped-items actions rows h)
  | inr named ↦ rw named (IsGrouped-items actions rows h)
]

abbrev IsFull : Group → Type 0
IsFull g = g.1 ≢ []

abbrev pub is_named : JsString → List JsString → Bool
is_named name names = any (λ n. str_eq n name) names

push_to-IsFull :
    (name : JsString) (a : Action) (groups : List Group)
    → All IsFull groups
    → All IsFull (push_to name a groups)
unfolding push_to
push_to-IsFull name a [] h = (λ e. cc, tt)
push_to-IsFull name a ((n, members) ∷ groups) (p, h) = elim (Bool-cases (str_eq n name)) [
  | inl here ↦ rw here (append-ne members, h)
  | inr later ↦ rw later (p, push_to-IsFull name a groups h)
]
  where
    append-ne : (xs : List Action) → (xs ++ a ∷ []) ≢ []
    append-ne [] e = cc
    append-ne (x ∷ xs) e = cc

group_from-IsFull :
    (groups : List Group) (matches : List Action)
    → All IsFull groups
    → All IsFull (group_from groups matches)
unfolding group_from
group_from-IsFull groups [] h = h
group_from-IsFull groups (a ∷ matches) h =
    group_from-IsFull (push_to (section_of a) a groups) matches
      (push_to-IsFull (section_of a) a groups h)

lookup_group-ne :
    (name : JsString) (groups : List Group)
    → All IsFull groups
    → is_named name (names_of groups) ≡ true
    → lookup_group name groups ≢ []
unfolding lookup_group names_of
lookup_group-ne name [] h e = λ q. cc
lookup_group-ne name ((n, members) ∷ groups) (p, h) e = elim (Bool-cases (str_eq n name)) [
  | inl here ↦ rw here p
  | inr later ↦ rw later (lookup_group-ne name groups h (ground arith))
]

rows_from-IsGrouped :
    (groups : List Group) (names : List JsString)
    → All IsFull groups
    → All (λ n. is_named n (names_of groups) ≡ true) names
    → IsGrouped (rows_from groups names)
unfolding rows_from
rows_from-IsGrouped groups [] h k = tt
rows_from-IsGrouped groups (name ∷ names) h (q, k) =
    IsGrouped-rows_of name (lookup_group name groups) (rows_from groups names)
      (lookup_group-ne name groups h q) (rows_from-IsGrouped groups names h k)

-- Whatever matches the search, each section's name in the list has a result below it, if
-- `Object.keys` lists only names of sections.
pub results-IsGrouped :
    (keys_of : List JsString → List JsString)
    → ((names : List JsString) → All (λ n. is_named n names ≡ true) (keys_of names))
    → (matches : List Action) → IsGrouped (results keys_of matches)
unfolding results
results-IsGrouped keys_of sound matches =
    let groups = group_from [] matches in
    rows_from-IsGrouped groups (keys_of (names_of groups)) (group_from-IsFull [] matches tt)
      (sound (names_of groups))

divider-item :
    (rows : List (Row Action)) (n : ℕ)
    → IsGrouped rows
    → is_divider_at rows n ≡ true
    → (is_divider_at rows (n + 1) ≡ false) × (n + 1 < length rows)
unfolding is_divider_at
divider-item [] n h e = cc
divider-item (item a ∷ rows) zero h e = cc
divider-item (item a ∷ rows) (suc n) h e = ground (arith, divider-item rows n h)
divider-item (divider m ∷ []) n h e = absurd h
divider-item (divider m ∷ divider k ∷ rows) n h e = absurd h
divider-item (divider m ∷ item a ∷ rows) zero h e = ground arith
divider-item (divider m ∷ item a ∷ rows) (suc zero) h e = cc
divider-item (divider m ∷ item a ∷ rows) (suc (suc n)) h e = ground (arith, divider-item rows n h)

abbrev pub IsResultAt : List (Row Action) → ℕ → Type 0
IsResultAt rows n = (is_divider_at rows n ≡ false) × (n < length rows)

-- In such a list the keys lead from a result to a result and never to a section's name, and so
-- does the first index.
pub move-IsResultAt :
    (rows : List (Row Action)) (n : ℕ)
    → IsGrouped rows
    → IsResultAt rows n
    → IsResultAt rows (up rows n)
      × IsResultAt rows (down rows n)
      × IsResultAt rows (first_index rows)
unfolding up down first_index
move-IsResultAt rows n h (plain, lt) = (
  ground (arith, divider-item rows (n - 1) h, divider-item rows (n - 1 - 1) h),
  ground (arith, divider-item rows (n + 1) h),
  ground (arith, divider-item rows 0 h),
)
