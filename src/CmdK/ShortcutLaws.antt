-- ===== src/CmdK/ShortcutLaws.antt =====
-- When a shortcut runs.
use anysphere_messaging.Common.{
  ℕ, ◌+◌, ◌≤◌, ◌<◌, ◌≡◌, arith, false, none, some, List, [], ◌∷◌, ◌++◌, JsString, join, find,
  if◌then◌else◌, map, append_assoc, ap, ◌∙◌,
}
use anysphere_messaging.CmdK.{Action}
use anysphere_messaging.CmdK.Shortcuts.{
  Buffer, Stroke, spells, effect_of, is_ignored, collected, handle_stroke, type_strokes,
}

-- The strokes are taken, each within 400 milliseconds of the one before, and no action is spelled
-- by the keys up to any of them.
abbrev pub SpellsNothing : List Action → List JsString → ℕ → List Stroke → Type 0
SpellsNothing actions typed time [] = Unit
SpellsNothing actions typed time (k ∷ ks) =
    (is_ignored k ≡ false)
    × (k.time ≤ time + 400)
    × (find (spells (join [] (typed ++ k.key ∷ []))) actions ≡ none)
    × SpellsNothing actions (typed ++ k.key ∷ []) k.time ks

abbrev pub last_time : ℕ → List Stroke → ℕ
last_time time [] = time
last_time time (k ∷ ks) = last_time k.time ks

abbrev pub key : Stroke → JsString
key k = k.key

pub handle_stroke-none :
    (actions : List Action) (k : Stroke) (typed : List JsString) (time : ℕ)
    → is_ignored k ≡ false
    → k.time ≤ time + 400
    → find (spells (join [] (typed ++ k.key ∷ []))) actions ≡ none
    → handle_stroke actions k (record { keys = typed; last_key_stroke_time = time })
      ≡ (record { keys = typed ++ k.key ∷ []; last_key_stroke_time = k.time }, none)
unfolding handle_stroke collected
handle_stroke-none actions k typed time taken soon nothing = ground arith

pub handle_stroke-some :
    (actions : List Action) (k : Stroke) (typed : List JsString) (time : ℕ) {a : Action}
    → is_ignored k ≡ false
    → k.time ≤ time + 400
    → find (spells (join [] (typed ++ k.key ∷ []))) actions ≡ some a
    → handle_stroke actions k (record { keys = typed; last_key_stroke_time = time })
      ≡ (record { keys = []; last_key_stroke_time = k.time }, some (effect_of a))
unfolding handle_stroke collected
handle_stroke-some actions k typed time taken soon found = ground arith

type_strokes-cons :
    (actions : List Action) (k : Stroke) (ks : List Stroke) (b : Buffer) {b' : Buffer}
    → handle_stroke actions k b ≡ (b', none)
    → type_strokes actions (k ∷ ks) b ≡ type_strokes actions ks b'
unfolding type_strokes
type_strokes-cons actions k ks b e = ground arith

spelled :
    (actions : List Action) (ks : List Stroke) (k : Stroke) (typed : List JsString) (time : ℕ)
    {a : Action}
    → SpellsNothing actions typed time ks
    → is_ignored k ≡ false
    → k.time ≤ last_time time ks + 400
    → find (spells (join [] (typed ++ (map key ks ++ k.key ∷ [])))) actions ≡ some a
    → type_strokes actions (ks ++ k ∷ []) (record { keys = typed; last_key_stroke_time = time })
      ≡ (record { keys = []; last_key_stroke_time = k.time }, effect_of a ∷ [])
unfolding type_strokes
spelled actions [] k typed time n taken soon found =
    rw (handle_stroke-some actions k typed time taken soon found)
spelled actions (j ∷ ks) k typed time (taken_j, soon_j, nothing, n) taken soon found =
    let found' =
      ap (λ (keys : List JsString). find (spells (join [] keys)) actions)
        (append_assoc typed (j.key ∷ []) (map key ks ++ k.key ∷ []))
      ∙ found in
    type_strokes-cons actions j (ks ++ k ∷ []) _
      (handle_stroke-none actions j typed time taken_j soon_j nothing)
    ∙ spelled actions ks k (typed ++ j.key ∷ []) j.time n taken soon found'

-- Keys typed in time after one another run the action that they spell, the first one of the list,
-- once and at the last key, if no earlier keys of theirs spell an action; the buffer is then empty.
pub type_strokes-spelled :
    (actions : List Action) (ks : List Stroke) (k : Stroke) (time : ℕ) (a : Action)
    → SpellsNothing actions [] time ks
    → is_ignored k ≡ false
    → k.time ≤ last_time time ks + 400
    → find (spells (join [] (map key ks ++ k.key ∷ []))) actions ≡ some a
    → type_strokes actions (ks ++ k ∷ []) (record { keys = []; last_key_stroke_time = time })
      ≡ (record { keys = []; last_key_stroke_time = k.time }, effect_of a ∷ [])
type_strokes-spelled actions ks k time a n taken soon found =
    spelled actions ks k [] time n taken soon found

-- After a pause of more than 400 milliseconds the keys before it count no more, and an ignored key
-- changes nothing.
pub handle_stroke-pause :
    (actions : List Action) (k : Stroke) (b : Buffer)
    → b.last_key_stroke_time + 400 < k.time
    → handle_stroke actions k b ≡ (
        if is_ignored k
        then (b, none)
        else handle_stroke actions k (record { keys = []; last_key_stroke_time = k.time }))
unfolding handle_stroke collected
handle_stroke-pause actions k b late = ground arith
