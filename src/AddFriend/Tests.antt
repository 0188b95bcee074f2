-- ===== src/AddFriend/Tests.antt =====
-- Two short stories, and a session of adding a contact in person.
use anysphere_messaging.Common.{
  none, ◌≢◌, ◌↔◌, some, str_eq, ◌≡◌, ◌≢◌, ◌↔◌, false, refl, arith, true, some, List, [], ◌∷◌, map,
  JsString, text, str_eq, join,
}
use anysphere_messaging.AddFriend.{
  storylist, is_black, empty_form, add_async_friend, on_head, Request, called, InPerson,
}
use anysphere_messaging.AddFriend.Stories.{HasNoDot, full_stop, tell, storylist-tell}
use anysphere_messaging.AddFriend.Invites.{
  InviteAction, names_display, presses_key, writes, goes_back, goes_on, has_action, invite,
  invite_all, open_invite, send_invitation,
}
use anysphere_messaging.AddFriend.Inputs.{
  last_display, last_unique, last_written, is_in_second, unique_or_generated, AreOffered,
  send_invitation-inputs_iff,
}

storylist_test : storylist (text "Cool mark. Faint.") ≡ text "Cool mark." ∷ text "Faint." ∷ []
unfolding storylist text
storylist_test = refl

spell_check_test : is_black (λ s. s) (text "cool" ∷ text "mark" ∷ []) (text "cool mark.") ≡ true
unfolding is_black on_head text str_eq
spell_check_test = refl

mark-HasNoDot : HasNoDot (text "Cool mark")
unfolding text
mark-HasNoDot = omega arith

faint-HasNoDot : HasNoDot (text "Faint")
unfolding text
faint-HasNoDot = omega arith

storylist-tell_example :
    (storylist (tell (text "Cool mark" ∷ text "Faint" ∷ []))
      ≡ map full_stop (text "Cool mark" ∷ text "Faint" ∷ []))
    × (join (32 ∷ []) (storylist (tell (text "Cool mark" ∷ text "Faint" ∷ [])))
        ≡ tell (text "Cool mark" ∷ text "Faint" ∷ []))
storylist-tell_example =
    storylist-tell (text "Cool mark") (text "Faint" ∷ []) mark-HasNoDot (faint-HasNoDot, tt)

abbrev invited : List InviteAction
invited =
    names_display (text "a b")
    ∷ presses_key (text "Enter")
    ∷ writes (text "hello")
    ∷ goes_back
    ∷ goes_on
    ∷ []

abbrev invited_request : Request
invited_request = add_async_friend (text "a-b") (text "a b") (text "85dG") (text "hello")

invited-AreOffered : AreOffered (λ s. s) invited open_invite
unfolding AreOffered has_action invite text str_eq
invited-AreOffered = (refl, (refl, (refl, (refl, (refl, tt)))))

send_invitation-inputs_iff_example :
    let d = last_display [] invited in
    let u = unique_or_generated (λ s. s) (last_unique none invited) d in
    (send_invitation (text "85dG") (invite_all (λ s. s) invited open_invite)
      ≡ some (called invited_request))
    ↔ ((content : JsString) × (is_in_second false invited ≡ true)
        × (d ≢ [])
        × (last_written none invited ≡ some content)
        × (invited_request ≡ add_async_friend u d (text "85dG") content))
send_invitation-inputs_iff_example =
    send_invitation-inputs_iff (λ s. s) invited (text "85dG") invited_request refl
      invited-AreOffered

abbrev filled : InPerson
filled = record {
  progress = 0;
  showverify = true;
  theirstory = text "Cool mark." ∷ [];
  form = empty_form;
}

abbrev verifying : InPerson
verifying = record filled { progress = 1 }
