-- ===== src/Window/Palette.antt =====
-- What the palette's shortcuts do to the window: the actions of client/gui/src/renderer/Main.tsx as
-- client/gui/src/renderer/components/cmd-k/UseStore.tsx keeps them.
use anysphere_messaging.Common.{
  ℕ, ◌+◌, ◌≤◌, ◌≡◌, inl, inr, Bool-cases, Option-cases, refl, ap, ◌∙◌, arith, Bool, true, false,
  Option, none, some, List, [], ◌∷◌, JsString, String, str_eq, text, find, join, ltb, ◌-◌,
  if◌then◌else◌,
}
use anysphere_messaging.CmdK.{Action}
use anysphere_messaging.CmdK.Shortcuts.{
  Effect, Buffer, Stroke, performed, effect_of, spells, is_ignored, collected, handle_stroke,
  type_strokes,
}
use anysphere_messaging.CmdK.ShortcutLaws.{
  handle_stroke-none, handle_stroke-some, type_strokes-spelled,
}
use anysphere_messaging.Main.{MainState, open_friend_modal, write_message}
use anysphere_messaging.Window.Performing.{
  perform-friend, perform-write, perform-sidebar, perform-search, perform-help, perform-next_tab,
}
use anysphere_messaging.Window.{cmd_k_actions, palette_action, perform, run_effect}

-- The effects in order, while none throws.
unfoldable pub run_effects : (ℕ → ℕ) → List Effect → MainState → Option MainState
run_effects draw [] s = some s
run_effects draw (e ∷ es) s =
    let rest = run_effects draw es in elim (run_effect draw e s) [ none ↦ none | some u ↦ rest u ]

-- What the keys do, typed into an empty buffer at `time`.
unfoldable pub run_keys : (ℕ → ℕ) → List Stroke → ℕ → MainState → Option MainState
unfolding run_effects
run_keys draw ks time s =
    run_effects draw
      (type_strokes cmd_k_actions ks (record { keys = []; last_key_stroke_time = time })).1 s

abbrev next_tab_action : Action
next_tab_action = palette_action "next_tab" "Next Tab" (some (text "g" ∷ text "t" ∷ [])) true

-- The action that a text spells.
spelled_action :
    (typed : JsString)
    → find (spells typed) cmd_k_actions ≡ (
        if str_eq (text "f") typed
        then some (palette_action "friend" "Add and Manage Friends" (some (text "f" ∷ [])) true)
        else if str_eq (text "c") typed
        then some (palette_action "write" "Compose" (some (text "c" ∷ [])) true)
        else if str_eq (text "/") typed
        then some (palette_action "search" "Search" (some (text "/" ∷ [])) false)
        else if str_eq (text "gt") typed
        then some next_tab_action
        else if str_eq (text "m") typed
        then some (palette_action "sidebar" "Toggle Sidebar" (some (text "m" ∷ [])) true)
        else if str_eq (text "h") typed
        then some (palette_action "help" "Help" (some (text "h" ∷ [])) false)
        else none)
unfolding spells cmd_k_actions palette_action join text
spelled_action typed = ground arith

abbrev pub empty_buffer : ℕ → Buffer
empty_buffer time = record { keys = []; last_key_stroke_time = time }

effects_of : Option Action → List Effect
effects_of none = []
effects_of (some a) = effect_of a ∷ []

handle_stroke-empty_buffer :
    (actions : List Action) (k : Stroke) (time : ℕ)
    → is_ignored k ≡ false
    → handle_stroke actions k (empty_buffer time) ≡ handle_stroke actions k (empty_buffer k.time)
unfolding handle_stroke collected
handle_stroke-empty_buffer actions k time taken = elim (Bool-cases (ltb 400 (k.time - time))) [
  | inl late ↦ ground arith
  | inr soon ↦ ground arith
]

typed_one :
    (actions : List Action) (k : Stroke) (time : ℕ)
    → is_ignored k ≡ false
    → (type_strokes actions (k ∷ []) (empty_buffer time)).1
      ≡ effects_of (find (spells k.key) actions)
unfolding type_strokes effects_of join
typed_one actions k time taken = elim (Option-cases (find (spells k.key) actions)) [
  | inl absent ↦ ground (
    arith,
    handle_stroke-empty_buffer actions k time taken,
    handle_stroke-none actions k [] k.time taken (omega arith) absent,
  )
  | inr (a, found) ↦ ground (
    arith,
    handle_stroke-empty_buffer actions k time taken,
    handle_stroke-some actions k [] k.time taken (omega arith) found,
  )
]

run_effects-one :
    (draw : ℕ → ℕ) (e : Effect) (s : MainState) → run_effects draw (e ∷ []) s ≡ run_effect draw e s
unfolding run_effects
run_effects-one draw e s = elim (Option-cases (run_effect draw e s)) [
  | inl fails ↦ ground arith
  | inr (u, runs) ↦ ground arith
]

run_keys-none :
    (draw : ℕ → ℕ) (k : Stroke) (time : ℕ) (s : MainState)
    → is_ignored k ≡ false
    → find (spells k.key) cmd_k_actions ≡ none
    → run_keys draw (k ∷ []) time s ≡ some s
unfolding run_keys run_effects effects_of
run_keys-none draw k time s taken absent = rw (typed_one cmd_k_actions k time taken, absent) refl

run_keys-some :
    (draw : ℕ → ℕ) (k : Stroke) (time : ℕ) (s : MainState) (id name : String)
    (shortcut : Option (List JsString)) (has_command : Bool)
    → is_ignored k ≡ false
    → find (spells k.key) cmd_k_actions ≡ some (palette_action id name shortcut has_command)
    → run_keys draw (k ∷ []) time s ≡ perform draw (text id) s
unfolding run_keys run_effects effects_of run_effect effect_of palette_action
run_keys-some draw k time s id name shortcut has_command taken found =
    rw (typed_one cmd_k_actions k time taken, found)
      (run_effects-one draw (performed (palette_action id name shortcut has_command)) s)

not_both : (t : JsString) → str_eq (text "/") t ≡ true → str_eq (text "m") t ≡ false
unfolding text str_eq
not_both [] h = refl
not_both (x ∷ r) h = ground arith

-- One key that is not ignored, typed after no others, opens the dialog to add contacts, a new draft,
-- or the sidebar, if it is "f", "c" or "m", and any other key does nothing to the window; "m" never
-- closes the sidebar. (A key's name is not "gt".)
pub run_keys-one :
    (draw : ℕ → ℕ) (k : Stroke) (time : ℕ) (s : MainState)
    → is_ignored k ≡ false
    → str_eq (text "gt") k.key ≡ false
    → run_keys draw (k ∷ []) time s
      ≡ some (
          if str_eq (text "f") k.key
          then open_friend_modal s
          else if str_eq (text "c") k.key
          then write_message draw s
          else if str_eq (text "m") k.key
          then record s { sidebar_open = true }
          else s)
run_keys-one draw k time s taken single =
    let run = λ (id name : String) (shortcut : Option (List JsString)) (has : Bool).
      run_keys-some draw k time s id name shortcut has taken in
    ground (
      arith,
      spelled_action k.key,
      run_keys-none draw k time s taken,
      not_both k.key,
      run "friend" "Add and Manage Friends" (some (text "f" ∷ [])) true,
      run "write" "Compose" (some (text "c" ∷ [])) true,
      run "search" "Search" (some (text "/" ∷ [])) false,
      run "sidebar" "Toggle Sidebar" (some (text "m" ∷ [])) true,
      run "help" "Help" (some (text "h" ∷ [])) false,
      perform-friend draw s,
      perform-write draw s,
      perform-search draw s,
      perform-sidebar draw s,
      perform-help draw s,
    )

gt-spelled : find (spells (join [] (text "g" ∷ text "t" ∷ []))) cmd_k_actions ≡ some next_tab_action
unfolding spells cmd_k_actions palette_action join text str_eq
gt-spelled = refl

g-spelled : find (spells (join [] (text "g" ∷ []))) cmd_k_actions ≡ none
unfolding spells cmd_k_actions palette_action join text str_eq
g-spelled = refl

type_strokes-empty_buffer :
    (actions : List Action) (k : Stroke) (ks : List Stroke) (time : ℕ)
    → is_ignored k ≡ false
    → type_strokes actions (k ∷ ks) (empty_buffer time)
      ≡ type_strokes actions (k ∷ ks) (empty_buffer k.time)
unfolding type_strokes
type_strokes-empty_buffer actions k ks time taken =
    ap
      (λ (r : Buffer × Option Effect). (
        (type_strokes actions ks r.0).0,
        elim r.1 [
          | none ↦ (type_strokes actions ks r.0).1
          | some e ↦ e ∷ (type_strokes actions ks r.0).1
        ],
      ))
      (handle_stroke-empty_buffer actions k time taken)

typed_gt :
    (j k : Stroke) (time : ℕ)
    → j.key ≡ text "g"
    → k.key ≡ text "t"
    → is_ignored j ≡ false
    → is_ignored k ≡ false
    → k.time ≤ j.time + 400
    → type_strokes cmd_k_actions (j ∷ k ∷ []) (empty_buffer time)
      ≡ (empty_buffer k.time, effect_of next_tab_action ∷ [])
typed_gt j k time g t taken_j taken_k soon =
    type_strokes-empty_buffer cmd_k_actions j (k ∷ []) time taken_j
    ∙ type_strokes-spelled cmd_k_actions (j ∷ []) k j.time _
        (taken_j, (omega arith), rw g g-spelled, tt) taken_k soon (rw (g, t) gt-spelled)

-- Typing "g" and "t" after no other keys, neither of them ignored and within 400 milliseconds of
-- one another, selects the tab All if New was selected, and New if any other tab was, whatever tabs
-- are open: the palette's Next Tab goes round the two tabs of the start only.
pub run_keys-gt :
    (draw : ℕ → ℕ) (j k : Stroke) (time : ℕ) (s : MainState)
    → j.key ≡ text "g"
    → k.key ≡ text "t"
    → is_ignored j ≡ false
    → is_ignored k ≡ false
    → k.time ≤ j.time + 400
    → run_keys draw (j ∷ k ∷ []) time s
      ≡ some (record s {
        tabs_state = record s.tabs_state {
          previous_selected_tab = s.tabs_state.selected_tab;
          selected_tab =
              if str_eq (text "new") s.tabs_state.selected_tab then text "all" else text "new";
        };
      })
unfolding run_keys run_effects run_effect effect_of palette_action
run_keys-gt draw j k time s g t taken_j taken_k soon =
    rw (typed_gt j k time g t taken_j taken_k soon)
      (run_effects-one draw (effect_of next_tab_action) s ∙ perform-next_tab draw s)
