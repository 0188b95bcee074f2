-- ===== src/CmdK/Shortcuts.antt =====
-- Shortcuts (`useShortcuts` of InternalEvents.tsx): keys are collected while they come within 400
-- milliseconds of one another, and the first action whose shortcut they spell runs.
use anysphere_messaging.Common.{
  ℕ, ◌-◌, Bool, false, ◌||◌, Option, none, some, List, [], ◌∷◌, ◌++◌, JsString, str_eq, text, join,
  find, ltb, if◌then◌else◌,
}
use anysphere_messaging.CmdK.{Action}

pub record Buffer : Type 0 where
  pub keys : List JsString
  pub last_key_stroke_time : ℕ

-- A key of the keyboard, in lower case; `rejected` is the answer of `shouldRejectKeystrokes`.
pub record Stroke : Type 0 where
  pub key : JsString
  pub meta_key : Bool
  pub rejected : Bool
  pub time : ℕ

-- What a shortcut does: open the palette at an action with children, or run its command.
pub data Effect : Type 0 where
  opened_at : Action → Effect
  performed : Action → Effect

unfoldable pub spells : JsString → Action → Bool
spells typed action = elim action.shortcut [
  | none ↦ false
  | some keys ↦ str_eq (join [] keys) typed
]

unfoldable pub effect_of : Action → Effect
effect_of action = if action.has_children then opened_at action else performed action

-- `shouldRejectKeystrokes() || event.metaKey || key === "shift"`
unfoldable pub is_ignored : Stroke → Bool
is_ignored k = k.rejected || (k.meta_key || str_eq k.key (text "shift"))

-- The keys collected when a stroke is taken.
unfoldable pub collected : Buffer → Stroke → List JsString
collected b k = (if ltb 400 (k.time - b.last_key_stroke_time) then [] else b.keys) ++ k.key ∷ []

unfoldable pub handle_stroke : List Action → Stroke → Buffer → Buffer × Option Effect
unfolding effect_of
handle_stroke actions k b =
    if is_ignored k then (b, none) else elim (find (spells (join [] (collected b k))) actions) [
      | none ↦ (record { keys = collected b k; last_key_stroke_time = k.time }, none)
      | some action ↦ (record { keys = []; last_key_stroke_time = k.time }, some (effect_of action))
    ]

-- A run of strokes, with the effects in order.
unfoldable pub type_strokes : List Action → List Stroke → Buffer → Buffer × List Effect
type_strokes actions [] b = (b, [])
type_strokes actions (k ∷ ks) b =
    let (b', effect) = handle_stroke actions k b in
    let (b'', effects) = type_strokes actions ks b' in
    (b'', elim effect [ none ↦ effects | some e ↦ e ∷ effects ])
