-- ===== src/AddFriend/Wizard.antt =====
-- The three parts of adding a contact in person: share stories, verify, finish.
use anysphere_messaging.Common.{
  ℕ, zero, suc, ◌≡◌, ◌<◌, ◌≢◌, refl, arith, true, false, List, [], ◌∷◌, JsString, all, length, All,
}
use anysphere_messaging.AddFriend.{
  InPerson, Action, edit_line, verify, open_in_person, act, is_offered, check_complete, set_line,
  is_complete, storylist,
}

-- A session: each action is one that the screen offers when it is done.
pub data Session (lower : JsString → JsString) (s : InPerson) : InPerson → Type 0 where
  opened : Session lower s s
  done :
      {t u : InPerson} (a : Action)
      → Session lower s t
      → is_offered t a ≡ true
      → act lower t a ≡ u
      → Session lower s u

-- The lines of a story are filled in: none is empty.
abbrev pub IsFilledIn : List JsString → Type 0
IsFilledIn lines = All (λ line. line ≢ []) lines

module _ (lower : JsString → JsString) (story : JsString) where
  -- The session has passed through a state in which a whole story had been filled in.
  pub record HasFilledIn (s : InPerson) : Type 0 where
    pub before : InPerson
    pub reached : Session lower (open_in_person story) before
    pub rest : Session lower before s
    pub first_part : before.progress ≡ 0
    pub lines : length before.theirstory ≡ length (storylist story)
    pub filled_in : IsFilledIn before.theirstory

set_line-incomplete :
    (i : ℕ) (lines : List JsString)
    → i < length lines
    → all is_complete (set_line i [] lines) ≡ false
unfolding set_line
set_line-incomplete i [] h = absurd (omega arith)
set_line-incomplete zero (l ∷ ls) h = refl
set_line-incomplete (suc i) (l ∷ ls) h = ground (arith, set_line-incomplete i ls)

-- Once enabled the button stays so: a line can be emptied again, and the user still goes on to the
-- comparison with an incomplete story.
pub verify-edit_line :
    (lower : JsString → JsString) (i : ℕ) (s : InPerson)
    → s.showverify ≡ true
    → i < length s.theirstory
    → (act lower (act lower s (edit_line i [])) verify).progress ≡ 1
      × (all is_complete (act lower (act lower s (edit_line i [])) verify).theirstory ≡ false)
unfolding act check_complete
verify-edit_line lower i s h lt = ground (arith, set_line-incomplete i s.theirstory lt)
