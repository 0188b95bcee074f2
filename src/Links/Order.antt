-- ===== src/Links/Order.antt =====
-- The order in which the checks of pasted links are answered.
use anysphere_messaging.Common.{
  ℕ, zero, suc, ◌≡◌, ◌≢◌, refl, ap, ◌∙◌, arith, Bool, true, false, JsString, str_eq_iff, List, [],
  ◌∷◌, ◌++◌, length, if◌then◌else◌,
}
use anysphere_messaging.Main.{remote}
use anysphere_messaging.Dialog.{DialogState, on_dialog}
use anysphere_messaging.Links.{pasted_id, Validity, valid, invalid, check_failed}
use anysphere_messaging.Links.Checking.{
  RemoteState, on_text, type_text, on_validity, types, answers, answer, step, run, at_remote,
}

unfoldable pub is_good : Validity → Bool
is_good valid = true
is_good invalid = false
is_good (check_failed _) = false

on_text-full :
    (value : JsString) (s : RemoteState)
    → pasted_id value ≢ []
    → on_text value s ≡ record s { their_id = value; checks = s.checks ++ pasted_id value ∷ [] }
unfolding on_text
on_text-full value s full = ground arith

type_text-full :
    (value : JsString) (s : RemoteState)
    → s.dialog.screen ≡ remote
    → value ≢ s.their_id
    → pasted_id value ≢ []
    → type_text value s ≡ record s { their_id = value; checks = s.checks ++ pasted_id value ∷ [] }
unfolding type_text
type_text-full value s shown other full =
    ground (arith, on_text-full value s, str_eq_iff value s.their_id)

type_texts :
    (v w : JsString) (d : DialogState)
    → v ≢ []
    → w ≢ v
    → pasted_id v ≢ []
    → pasted_id w ≢ []
    → type_text w (type_text v (at_remote d))
      ≡ record (at_remote d) { their_id = w; checks = pasted_id v ∷ pasted_id w ∷ [] }
type_texts v w d fresh other full full' =
    let first = type_text-full v (at_remote d) refl fresh full in
    let typed = record (at_remote d) { their_id = v; checks = pasted_id v ∷ [] } in
    ap (type_text w) first ∙ type_text-full w typed refl other full'

module _ (is_valid : JsString → Validity) where
  -- The last id that the daemon takes for valid, if there is one.
  unfoldable pub last_valid : List JsString → JsString → JsString
  unfolding is_good
  last_valid [] id = id
  last_valid (next ∷ ids) id = last_valid ids (if is_good (is_valid next) then next else id)

  -- The oldest check is answered, a number of times.
  unfoldable pub answer_first : ℕ → RemoteState → RemoteState
  answer_first zero s = s
  answer_first (suc k) s = answer_first k (answer is_valid zero s)

  on_validity-their_id :
      (v : Validity) (id : JsString) (s : RemoteState)
      → ((on_validity v id s).dialog.their_id ≡ (if is_good v then id else s.dialog.their_id))
        × ((on_validity v id s).checks ≡ s.checks)
  unfolding on_validity on_dialog is_good
  on_validity-their_id valid id s = (refl, refl)
  on_validity-their_id invalid id s = (refl, refl)
  on_validity-their_id (check_failed err) id s = (refl, refl)

  answer-zero :
      (id : JsString) (ids : List JsString) (s : RemoteState)
      → s.checks ≡ id ∷ ids
      → ((answer is_valid zero s).dialog.their_id
          ≡ (if is_good (is_valid id) then id else s.dialog.their_id))
        × ((answer is_valid zero s).checks ≡ ids)
  unfolding answer
  answer-zero id ids s e =
      ground (arith, on_validity-their_id (is_valid id) id (record s { checks = ids }))

  -- If the checks are answered in the order of the texts, the dialog goes on with the last id that
  -- is valid, and keeps the one it has if none is.
  pub answer_first-last_valid :
      (ids : List JsString) (s : RemoteState)
      → s.checks ≡ ids
      → let u = answer_first (length ids) s in
        (u.dialog.their_id ≡ last_valid ids s.dialog.their_id) × (u.checks ≡ [])
  unfolding answer_first last_valid
  answer_first-last_valid [] s e = (refl, e)
  answer_first-last_valid (id ∷ ids) s e =
      let (now, left) = answer-zero id ids s e in
      let (last, none_left) = answer_first-last_valid ids (answer is_valid zero s) left in
      (last ∙ ap (last_valid ids) now, none_left)

  answer_both :
      (a b : JsString) (s : RemoteState)
      → s.checks ≡ a ∷ b ∷ []
      → is_valid a ≡ valid
      → is_valid b ≡ valid
      → let late = answer is_valid 0 (answer is_valid 1 s) in
        let due = answer is_valid 0 (answer is_valid 0 s) in
        (late.their_id ≡ s.their_id)
        × (late.dialog.their_id ≡ a)
        × (due.their_id ≡ s.their_id)
        × (due.dialog.their_id ≡ b)
  unfolding answer on_validity on_dialog
  answer_both a b s e good good' = ground arith

  -- Two links to valid ids are pasted one after the other. If the check of the first is answered
  -- last, the dialog goes on with the first id, although the field shows the second link; in order,
  -- it goes on with the second.
  pub answers-late :
      (v w : JsString) (d : DialogState)
      → v ≢ []
      → w ≢ v
      → pasted_id v ≢ []
      → pasted_id w ≢ []
      → is_valid (pasted_id v) ≡ valid
      → is_valid (pasted_id w) ≡ valid
      → let late = run is_valid (types v ∷ types w ∷ answers 1 ∷ answers 0 ∷ []) (at_remote d) in
        let due = run is_valid (types v ∷ types w ∷ answers 0 ∷ answers 0 ∷ []) (at_remote d) in
        (late.their_id ≡ w)
        × (late.dialog.their_id ≡ pasted_id v)
        × (due.their_id ≡ w)
        × (due.dialog.their_id ≡ pasted_id w)
  unfolding run step
  answers-late v w d fresh other full full' good good' =
      let typed = type_texts v w d fresh other full full' in
      let (field, kept, field', kept') =
        answer_both (pasted_id v) (pasted_id w)
          (record (at_remote d) { their_id = w; checks = pasted_id v ∷ pasted_id w ∷ [] }) refl good
          good' in
      rw (type_text, typed) (field, kept, field', kept')
