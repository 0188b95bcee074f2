-- ===== src/Compose/Contacts.antt =====
-- The contacts that are chosen and those that are offered.
use anysphere_messaging.Common.{
  ◌≡◌, refl, arith, true, false, not, ◌&&◌, some, List, [], ◌∷◌, ◌++◌, JsString, str_eq, str_eq_iff,
  str_eq_refl, text, filter, if◌then◌else◌, Bool-cases, inl, inr, ap,
}
use anysphere_messaging.Compose.{
  WriteFriend, MultiSelectData, is_chosen, choose, type_query, drop_last, input_key, available,
}

-- No two chosen contacts share a unique name.
abbrev pub HasDistinctNames : List WriteFriend → Type 0
HasDistinctNames [] = Unit
HasDistinctNames (f ∷ fs) = (is_chosen f.unique_name fs ≡ false) × HasDistinctNames fs

is_chosen-append :
    (name : JsString) (fs : List WriteFriend) (g : WriteFriend)
    → is_chosen name (fs ++ g ∷ [])
      ≡ (if is_chosen name fs then true else str_eq g.unique_name name)
is_chosen-append name [] g = ground arith
is_chosen-append name (f ∷ fs) g = ground (arith, is_chosen-append name fs g)

HasDistinctNames-append :
    (fs : List WriteFriend) (g : WriteFriend)
    → is_chosen g.unique_name fs ≡ false
    → HasDistinctNames fs
    → HasDistinctNames (fs ++ g ∷ [])
HasDistinctNames-append [] g n d = (refl, tt)
HasDistinctNames-append (f ∷ fs) g n (p, d) = (
  ground (
    arith,
    is_chosen-append f.unique_name fs g,
    str_eq_iff f.unique_name g.unique_name,
    str_eq_iff g.unique_name f.unique_name,
  ),
  HasDistinctNames-append fs g (ground arith) d,
)

is_chosen-drop_last :
    (name : JsString) (fs : List WriteFriend)
    → is_chosen name fs ≡ false
    → is_chosen name (drop_last fs) ≡ false
unfolding drop_last
is_chosen-drop_last name [] h = refl
is_chosen-drop_last name (f ∷ []) h = refl
is_chosen-drop_last name (f ∷ g ∷ fs) h = ground (arith, is_chosen-drop_last name (g ∷ fs))

HasDistinctNames-drop_last :
    (fs : List WriteFriend) → HasDistinctNames fs → HasDistinctNames (drop_last fs)
unfolding drop_last
HasDistinctNames-drop_last [] d = tt
HasDistinctNames-drop_last (f ∷ []) d = tt
HasDistinctNames-drop_last (f ∷ g ∷ fs) (p, d) =
    (is_chosen-drop_last f.unique_name (g ∷ fs) p, HasDistinctNames-drop_last (g ∷ fs) d)

drop_last-append : (fs : List WriteFriend) (g : WriteFriend) → drop_last (fs ++ g ∷ []) ≡ fs
unfolding drop_last
drop_last-append [] g = refl
drop_last-append (f ∷ []) g = refl
drop_last-append (f ∷ h ∷ fs) g = ap (f ∷◌) (drop_last-append (h ∷ fs) g)

-- The edits that the chooser makes.
pub data Edit : MultiSelectData → MultiSelectData → Type 0 where
  chosen : (f : WriteFriend) (s : MultiSelectData) → Edit s (choose f s)
  typed : (value : JsString) (s : MultiSelectData) → Edit s (type_query value s)
  pressed :
      (key : JsString) (s : MultiSelectData) {t : MultiSelectData}
      → input_key key s ≡ some t
      → Edit s t

-- Whatever the user picks, types or deletes, no contact is chosen twice.
pub Edit-HasDistinctNames :
    {s t : MultiSelectData} → Edit s t → HasDistinctNames s.friends → HasDistinctNames t.friends
unfolding choose type_query input_key
Edit-HasDistinctNames (chosen f s) d = elim (Bool-cases (is_chosen f.unique_name s.friends)) [
  | inl already ↦ ground arith
  | inr fresh ↦ rw fresh (HasDistinctNames-append s.friends f fresh d)
]
Edit-HasDistinctNames (typed value s) d = d
Edit-HasDistinctNames (pressed key s {t} e) d =
    ground (arith, HasDistinctNames-drop_last s.friends d)

-- Picking a contact that is not chosen and then pressing Backspace in the emptied input gives back
-- the contacts chosen before.
pub input_key-choose :
    (f : WriteFriend) (s : MultiSelectData)
    → is_chosen f.unique_name s.friends ≡ false
    → input_key (text "Backspace") (choose f s) ≡ some (record s { query = [] })
unfolding choose input_key
input_key-choose f s fresh =
    ground (arith, drop_last-append s.friends f, str_eq_refl (text "Backspace"))

is_chosen-filter :
    (name : JsString) (cs fs : List WriteFriend)
    → is_chosen name (filter (λ f. not (is_chosen f.unique_name cs)) fs)
      ≡ (not (is_chosen name cs) && is_chosen name fs)
is_chosen-filter name cs [] = ground arith
is_chosen-filter name cs (f ∷ fs) =
    ground (arith, is_chosen-filter name cs fs, str_eq_iff f.unique_name name)

-- The contacts offered are, by unique name, exactly the loaded ones that are not chosen; one that
-- has just been picked is chosen.
pub is_chosen-available :
    (name : JsString) (f : WriteFriend) (fs : List WriteFriend) (s : MultiSelectData)
    → (is_chosen name (available fs s) ≡ (not (is_chosen name s.friends) && is_chosen name fs))
      × (is_chosen f.unique_name (choose f s).friends ≡ true)
unfolding choose available
is_chosen-available name f fs s = (
  is_chosen-filter name s.friends fs,
  ground (arith, is_chosen-append f.unique_name s.friends f, str_eq_refl f.unique_name),
)
