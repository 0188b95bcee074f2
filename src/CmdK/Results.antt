-- ===== src/CmdK/Results.antt =====
-- The results of the palette: `getDeepResults` and the grouping by section of CmdKMatches.tsx, and
-- the keys that move through them of CmdKResultHandler.tsx. `keys_of` stands for the order in which
-- `Object.keys` lists the sections of the group map, given in order of insertion.
use anysphere_messaging.Common.{
  ℕ, ◌+◌, ◌-◌, not, List, [], ◌∷◌, ◌++◌, map, JsString, str_eq, text, length, ltb, ◌==◌,
  if◌then◌else◌,
}
use anysphere_messaging.SelectableList.{Row, divider, item, is_divider_at}
use anysphere_messaging.CmdK.{Action}

-- Actions with their children, a list of trees.
mutual
  pub data ActionTree : Type 0 where
    node : Action → Forest → ActionTree

  pub data Forest : Type 0 where
    nil : Forest
    cons : ActionTree → Forest → Forest

unfoldable pub action_of : ActionTree → Action
action_of (node a _) = a

unfoldable pub children_of : ActionTree → Forest
children_of (node _ cs) = cs

unfoldable pub roots : Forest → List Action
unfolding action_of
roots nil = []
roots (cons t ts) = action_of t ∷ roots ts

-- The pushes of `collectChildren`: for each action in turn its children, then what is below them.
unfoldable mutual
  pub below : ActionTree → List Action
  below (node a cs) = roots cs ++ below_all cs

  pub below_all : Forest → List Action
  below_all nil = []
  below_all (cons t ts) = below t ++ below_all ts

unfoldable pub deep_results : Forest → List Action
deep_results actions = roots actions ++ below_all actions

-- The group of a section, where `Group` pairs the name with its actions in order.
abbrev pub Group : Type 0
Group = JsString × List Action

-- `action.section || NO_GROUP`
unfoldable pub section_of : Action → JsString
section_of a = if length a.section == 0 then text "none" else a.section

unfoldable pub push_to : JsString → Action → List Group → List Group
push_to name a [] = (name, a ∷ []) ∷ []
push_to name a ((n, members) ∷ groups) =
    if str_eq n name then (n, members ++ a ∷ []) ∷ groups else (n, members) ∷ push_to name a groups

unfoldable pub group_from : List Group → List Action → List Group
group_from groups [] = groups
group_from groups (a ∷ matches) = group_from (push_to (section_of a) a groups) matches

unfoldable pub lookup_group : JsString → List Group → List Action
lookup_group name [] = []
lookup_group name ((n, members) ∷ groups) =
    if str_eq n name then members else lookup_group name groups

-- The rows of one group: its name, unless it is that of no group, and its actions.
unfoldable pub rows_of : JsString → List Action → List (Row Action)
rows_of name actions =
    (if not (str_eq name (text "none")) then divider name ∷ [] else []) ++ map item actions

unfoldable pub rows_from : List Group → List JsString → List (Row Action)
rows_from groups [] = []
rows_from groups (name ∷ names) = rows_of name (lookup_group name groups) ++ rows_from groups names

unfoldable pub names_of : List Group → List JsString
names_of [] = []
names_of ((n, _) ∷ groups) = n ∷ names_of groups

unfoldable pub results : (List JsString → List JsString) → List Action → List (Row Action)
results keys_of matches =
    let groups = group_from [] matches in rows_from groups (keys_of (names_of groups))

module _ {ℓ} {A : Type ℓ} where
  -- The updater of the arrow up: one divider is skipped.
  unfoldable pub up : List (Row A) → ℕ → ℕ
  up rows index =
      let n : ℕ = if ltb 0 index then index - 1 else index in
      if is_divider_at rows n then (if n == 0 then index else n - 1) else n

  unfoldable pub down : List (Row A) → ℕ → ℕ
  down rows index =
      let n : ℕ = if ltb (index + 1) (length rows) then index + 1 else index in
      if is_divider_at rows n then (if n + 1 == length rows then index else n + 1) else n

  -- The index that is set when the results change.
  unfoldable pub first_index : List (Row A) → ℕ
  first_index rows = if is_divider_at rows 0 then 1 else 0
