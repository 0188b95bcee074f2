-- ===== src/Links/Racing.antt =====
-- Which id the dialog goes on with, when texts follow one another and answers come late.
use anysphere_messaging.Common.{
  ℕ, zero, suc, text, ◌≡◌, ◌≢◌, ◌⊎◌, inl, inr, refl, arith, true, JsString, str_eq, str_eq_refl,
  some, List, [], ◌∷◌, ◌++◌, any, All, All-append, All-remove_at, get_elem?, remove_at,
  Option-cases, List-cases,
}
use anysphere_messaging.Main.{remote_part_two}
use anysphere_messaging.Dialog.{DialogState, on_dialog}
use anysphere_messaging.Links.{
  pasted_id, strip_spaces, strip_scheme, strip_host, after_prefix, Validity, valid, invalid,
  check_failed,
}
use anysphere_messaging.Links.Checking.{
  RemoteState, on_text, type_text, on_validity, RemoteEvent, types, answers, redraws, answer,
  redraw, step, run, at_remote,
}

-- The text is one of these.
abbrev pub IsListed : List JsString → JsString → Type 0
IsListed texts t = any (λ u. str_eq u t) texts ≡ true

-- The id has been read in one of these texts.
pub record IsPasted (texts : List JsString) (id : JsString) : Type 0 where
  pub full : id ≢ []
  pub origin : JsString
  pub listed : IsListed texts origin
  pub read : pasted_id origin ≡ id

-- The texts that are typed.
unfoldable pub texts_of : List RemoteEvent → List JsString
texts_of [] = []
texts_of (types value ∷ events) = value ∷ texts_of events
texts_of (answers _ ∷ events) = texts_of events
texts_of (redraws ∷ events) = texts_of events

IsListed-head : (t : JsString) (texts : List JsString) → IsListed (t ∷ texts) t
IsListed-head t texts = ground (arith, str_eq_refl t)

All-IsListed_weaken :
    (t : JsString) (texts us : List JsString)
    → All (IsListed texts) us
    → All (IsListed (t ∷ texts)) us
All-IsListed_weaken t texts [] h = tt
All-IsListed_weaken t texts (u ∷ us) (p, h) = (ground arith, All-IsListed_weaken t texts us h)

All-IsListed_self : (texts : List JsString) → All (IsListed texts) texts
All-IsListed_self [] = tt
All-IsListed_self (t ∷ texts) =
    (IsListed-head t texts, All-IsListed_weaken t texts texts (All-IsListed_self texts))

All-get {ℓ} :
    (P : JsString → Type ℓ) (ids : List JsString) (i : ℕ) {id : JsString}
    → All P ids
    → get_elem? ids i ≡ some id
    → P id
All-get P [] i h e = cc
All-get P (x ∷ ids) zero {id} (p, h) e = let same : x ≡ id = ground arith in rw (← same) p
All-get P (x ∷ ids) (suc i) (p, h) e = All-get P ids i h e

type_text-cases :
    (value : JsString) (s : RemoteState)
    → (type_text value s ≡ s) ⊎ (type_text value s ≡ on_text value s)
unfolding type_text
type_text-cases value s = ground arith

redraw-cases : (s : RemoteState) → (redraw s ≡ s) ⊎ (redraw s ≡ on_text s.their_id s)
unfolding redraw
redraw-cases s = ground arith

module _ (is_valid : JsString → Validity) where
  pub record IsChecked (texts : List JsString) (s : RemoteState) : Type 0 where
    pub pasted : All (IsPasted texts) s.checks
    pub field : (pasted_id s.their_id ≡ []) ⊎ IsPasted texts (pasted_id s.their_id)
    pub checked :
        s.dialog.screen ≡ remote_part_two
        → (is_valid s.dialog.their_id ≡ valid) × IsPasted texts s.dialog.their_id

  on_text-IsChecked :
      (texts : List JsString) (value : JsString) (s : RemoteState)
      → (pasted_id value ≡ []) ⊎ IsPasted texts (pasted_id value)
      → IsChecked texts s
      → IsChecked texts (on_text value s)
  unfolding on_text
  on_text-IsChecked texts value s read h = elim (List-cases (pasted_id value)) [
    | inl empty ↦
        let same : on_text value s ≡ record s { their_id = value } = ground arith in
        rw same (record { pasted = h.pasted; field = inl empty; checked = h.checked })
    | inr (c, cs, full) ↦
        let id = c ∷ cs in
        let same : on_text value s ≡ record s { their_id = value; checks = s.checks ++ id ∷ [] } =
          ground arith in
        elim read [
          | inl empty ↦ absurd (ground arith)
          | inr p ↦
              let q : IsPasted texts id = rw full at p in
              rw same (record {
                pasted = All-append (IsPasted texts) s.checks (id ∷ []) h.pasted (q, tt);
                field = inr p;
                checked = h.checked;
              })
        ]
  ]

  on_validity-IsChecked :
      (texts : List JsString) (id : JsString) (s : RemoteState)
      → IsPasted texts id
      → IsChecked texts s
      → IsChecked texts (on_validity (is_valid id) id s)
  unfolding on_validity on_dialog
  on_validity-IsChecked texts id s p h = on_verdict (is_valid id) refl
    where
      on_verdict : (v : Validity) → is_valid id ≡ v → IsChecked texts (on_validity v id s)
      on_verdict valid e = record { pasted = h.pasted; field = h.field; checked = λ _. (e, p) }
      on_verdict invalid e = h
      on_verdict (check_failed err) e = record {
        pasted = h.pasted;
        field = h.field;
        checked = h.checked;
      }

  answer-IsChecked :
      (texts : List JsString) (i : ℕ) (s : RemoteState)
      → IsChecked texts s
      → IsChecked texts (answer is_valid i s)
  unfolding answer
  answer-IsChecked texts i s h = elim (Option-cases (get_elem? s.checks i)) [
    | inl absent ↦ let same : answer is_valid i s ≡ s = ground arith in rw same h
    | inr (id, found) ↦
        let left = record s { checks = remove_at i s.checks } in
        let same : answer is_valid i s ≡ on_validity (is_valid id) id left = ground arith in
        rw same (
          on_validity-IsChecked texts id left (All-get (IsPasted texts) s.checks i h.pasted found)
            (record {
              pasted = All-remove_at (IsPasted texts) i s.checks h.pasted;
              field = h.field;
              checked = h.checked;
            }))
  ]

  listed_reads :
      (texts : List JsString) (value : JsString)
      → IsListed texts value
      → (pasted_id value ≡ []) ⊎ IsPasted texts (pasted_id value)
  listed_reads texts value l = elim (List-cases (pasted_id value)) [
    | inl empty ↦ inl empty
    | inr (c, cs, full) ↦
        inr (record { full = λ e. ground arith; origin = value; listed = l; read = refl })
  ]

  step-IsChecked :
      (texts : List JsString) (e : RemoteEvent) (s : RemoteState)
      → All (IsListed texts) (texts_of (e ∷ []))
      → IsChecked texts s
      → IsChecked texts (step is_valid e s)
  unfolding step texts_of
  step-IsChecked texts (types value) s (l, _) h = elim (type_text-cases value s) [
    | inl same ↦ rw same h
    | inr runs ↦ rw runs (on_text-IsChecked texts value s (listed_reads texts value l) h)
  ]
  step-IsChecked texts (answers i) s l h = answer-IsChecked texts i s h
  step-IsChecked texts redraws s l h = elim (redraw-cases s) [
    | inl same ↦ rw same h
    | inr runs ↦ rw runs (on_text-IsChecked texts s.their_id s h.field h)
  ]

  run-IsChecked :
      (texts : List JsString) (events : List RemoteEvent) (s : RemoteState)
      → All (IsListed texts) (texts_of events)
      → IsChecked texts s
      → IsChecked texts (run is_valid events s)
  unfolding run texts_of
  run-IsChecked texts [] s l h = h
  run-IsChecked texts (types value ∷ events) s (l, ls) h =
      run-IsChecked texts events (step is_valid (types value) s) ls
        (step-IsChecked texts (types value) s (l, tt) h)
  run-IsChecked texts (answers i ∷ events) s l h =
      run-IsChecked texts events (step is_valid (answers i) s) l
        (step-IsChecked texts (answers i) s tt h)
  run-IsChecked texts (redraws ∷ events) s l h =
      run-IsChecked texts events (step is_valid redraws s) l (step-IsChecked texts redraws s tt h)

  at_remote-IsChecked : (texts : List JsString) (d : DialogState) → IsChecked texts (at_remote d)
  unfolding pasted_id strip_spaces strip_scheme strip_host after_prefix text
  at_remote-IsChecked texts d = record { pasted = tt; field = inl refl; checked = λ e. cc }

  -- Whatever is typed, whenever the dialog is drawn again, and in whatever order the checks are
  -- answered: if the dialog has gone on from the screen for another's link, it is with an id that is
  -- not empty, that stood in a text that was typed, and that the daemon takes for valid.
  pub run-their_id :
      (events : List RemoteEvent) (d : DialogState)
      → let u = run is_valid events (at_remote d) in
        u.dialog.screen ≡ remote_part_two
        → (is_valid u.dialog.their_id ≡ valid) × IsPasted (texts_of events) u.dialog.their_id
  run-their_id events d =
      let texts = texts_of events in
      (run-IsChecked texts events (at_remote d) (All-IsListed_self texts)
        (at_remote-IsChecked texts d)).checked
