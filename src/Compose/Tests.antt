-- ===== src/Compose/Tests.antt =====
-- Writing to two contacts.
use anysphere_messaging.Common.{
  ◌≡◌, ◌≢◌, ◌↔◌, arith, refl, false, none, some, [], ◌∷◌, ◌++◌, map, JsString, String, text, str_eq,
  join, All, List,
}
use mathlib.Mathlib.Data.Multiset.Defs.{of_list}
use anysphere_messaging.Types.{Friend, OutgoingSyncInvitation, complete}
use anysphere_messaging.Compose.Loading.{
  mounted, friends_settled, invitations_settled, on_friends, on_invitations, settle_all,
}
use anysphere_messaging.Compose.Offering.{settle_all-available}
use anysphere_messaging.Compose.{
  available, WriteFriend, MultiSelectData, WriteData, on_to, is_chosen, choose, single_newlines,
  send, sent,
}
use anysphere_messaging.Compose.Contacts.{HasDistinctNames, chosen, Edit-HasDistinctNames}
use anysphere_messaging.Compose.Sending.{HasNoNewline, send-paragraphs_iff}

abbrev friend : String → WriteFriend
friend name = record { unique_name = text name; display_name = text name; public_id = none }

abbrev one_chosen : MultiSelectData
one_chosen = record { friends = friend "arvid" ∷ []; query = text "su" }

abbrev draft : WriteData
draft = record {
  content = [];
  multi_select_state = record { friends = friend "arvid" ∷ []; query = [] };
  focus = on_to;
}

send-draft : send draft (some (text "hi")) ≡ sent (text "arvid" ∷ []) (text "hi")
unfolding send single_newlines text
send-draft = refl

Edit-HasDistinctNames_example : HasDistinctNames (choose (friend "sualeh") one_chosen).friends
Edit-HasDistinctNames_example =
    Edit-HasDistinctNames (chosen (friend "sualeh") one_chosen) (refl, tt)

sualeh-fresh : is_chosen (text "sualeh") one_chosen.friends ≡ false
unfolding text str_eq
sualeh-fresh = refl

-- Two paragraphs.
abbrev paragraphs : List JsString
paragraphs = text "hi" ∷ text "bye" ∷ []

paragraphs-HasNoNewline : All HasNoNewline paragraphs
unfolding text
paragraphs-HasNoNewline = omega arith

send-paragraphs_iff_example :
    ((send draft (some (join (10 ∷ 10 ∷ []) paragraphs))
        ≡ sent (text "arvid" ∷ []) (join (10 ∷ []) paragraphs))
      ↔ ((draft.multi_select_state.query ≡ [])
          × (draft.multi_select_state.friends ≢ [])
          × (text "arvid" ∷ []
              ≡ map (λ (f : WriteFriend). f.unique_name) draft.multi_select_state.friends)
          × (join (10 ∷ []) paragraphs ≡ join (10 ∷ []) paragraphs)))
    × (send draft none ≢ sent (text "arvid" ∷ []) (join (10 ∷ []) paragraphs))
send-paragraphs_iff_example =
    send-paragraphs_iff draft paragraphs (text "arvid" ∷ []) (join (10 ∷ []) paragraphs)
      paragraphs-HasNoNewline

abbrev arvid : Friend
arvid = record {
  unique_name = text "arvid";
  display_name = text "arvid";
  public_id = text "zQ";
  invitation_progress = complete;
}

abbrev sualeh : OutgoingSyncInvitation
sualeh = record {
  unique_name = text "sualeh";
  display_name = text "sualeh";
  story = [];
  sent_at = none;
}

-- The invitations come first.
settle_all-available_example :
    let u =
      settle_all
        (some (arvid ∷ []))
        (some (sualeh ∷ []))
        (invitations_settled ∷ friends_settled ∷ [])
        mounted in
    (u.awaits_friends ≡ false)
    × (u.awaits_invitations ≡ false)
    × (of_list (available u.friends one_chosen)
        ≡ of_list (
            available
              (on_friends (some (arvid ∷ [])) [] ++ on_invitations (some (sualeh ∷ [])) [])
              one_chosen))
settle_all-available_example =
    settle_all-available (some (arvid ∷ [])) (some (sualeh ∷ []))
      (invitations_settled ∷ friends_settled ∷ []) one_chosen refl refl
