-- ===== src/AddFriend/Inputs.antt =====
-- What an invitation says, read from the inputs of the user alone: AddFriendRemotePartTwo.tsx of
-- client/gui/src/renderer/components/AddFriend.
use anysphere_messaging.Common.{
  ◌≡◌, ◌≢◌, ◌↔◌, refl, arith, Bool, true, false, JsString, str_eq, text, Option, none, some, List,
  [], ◌∷◌, if◌then◌else◌, ◌∙◌, sym,
}
use anysphere_messaging.AddFriend.{
  generate_unique_name, type_display_name, type_unique_name, called, Request, add_async_friend,
}
use anysphere_messaging.AddFriend.Invites.{
  InviteState, open_invite, InviteAction, names_display, names_unique, presses_key, goes_on,
  goes_back, writes, has_action, invite, invite_all, send_invitation,
}
use anysphere_messaging.AddFriend.Inviting.{finish-some_iff}

-- The display name that was typed last.
unfoldable pub last_display : JsString → List InviteAction → JsString
last_display d [] = d
last_display d (names_display value ∷ actions) = last_display value actions
last_display d (_ ∷ actions) = last_display d actions

-- The unique name that was typed last, if one was.
unfoldable pub last_unique : Option JsString → List InviteAction → Option JsString
last_unique u [] = u
last_unique u (names_unique value ∷ actions) = last_unique (some value) actions
last_unique u (_ ∷ actions) = last_unique u actions

-- The text that was written last, if one was.
unfoldable pub last_written : Option JsString → List InviteAction → Option JsString
last_written w [] = w
last_written w (writes content ∷ actions) = last_written (some content) actions
last_written w (_ ∷ actions) = last_written w actions

-- Whether the last move of the user was to the second part.
unfoldable pub is_in_second : Bool → List InviteAction → Bool
unfolding text
is_in_second b [] = b
is_in_second b (goes_on ∷ actions) = is_in_second true actions
is_in_second b (goes_back ∷ actions) = is_in_second false actions
is_in_second b (presses_key key ∷ actions) =
    is_in_second (if str_eq key (text "Enter") then true else b) actions
is_in_second b (_ ∷ actions) = is_in_second b actions

module _ (lower : JsString → JsString) where
  -- The unique name that was typed, or the display name in small letters with dashes for spaces.
  unfoldable pub unique_or_generated : Option JsString → JsString → JsString
  unique_or_generated none d = generate_unique_name lower d
  unique_or_generated (some u) d = u

  -- Each action is one that the screen has when it is done.
  unfoldable pub AreOffered : List InviteAction → InviteState → Type 0
  AreOffered [] s = Unit
  AreOffered (a ∷ actions) s = (has_action s a ≡ true) × AreOffered actions (invite lower a s)

  abbrev is_some : Option JsString → Bool
  is_some none = false
  is_some (some _) = true

  record Tells (d : JsString) (u w : Option JsString) (b : Bool) (s : InviteState) : Type 0 where
    display : s.form.display_name ≡ d
    unique : s.form.unique_name ≡ unique_or_generated u d
    modified : s.form.has_modified_unique_name ≡ is_some u
    written : s.editor ≡ w
    part : s.progress ≡ (if b then 1 else 0)

  display-Tells :
      (value d : JsString) (u w : Option JsString) (b : Bool) (s : InviteState)
      → Tells d u w b s
      → Tells value u w b (invite lower (names_display value) s)
  unfolding invite type_display_name unique_or_generated
  display-Tells value d none w b s h = record {
    display = ground (arith, h.modified);
    unique = ground (arith, h.modified);
    modified = ground (arith, h.modified);
    written = h.written;
    part = h.part;
  }
  display-Tells value d (some u) w b s h = record {
    display = ground (arith, h.modified);
    unique = ground (arith, h.modified, h.unique);
    modified = ground (arith, h.modified);
    written = h.written;
    part = h.part;
  }

  unique-Tells :
      (value d : JsString) (u w : Option JsString) (b : Bool) (s : InviteState)
      → Tells d u w b s
      → Tells d (some value) w b (invite lower (names_unique value) s)
  unfolding invite type_unique_name unique_or_generated
  unique-Tells value d u w b s h = record {
    display = h.display;
    unique = refl;
    modified = refl;
    written = h.written;
    part = h.part;
  }

  moved-Tells :
      (d : JsString) (u w w' : Option JsString) (b b' : Bool) (s t : InviteState)
      → Tells d u w b s
      → t.form ≡ s.form
      → t.editor ≡ w'
      → t.progress ≡ (if b' then 1 else 0)
      → Tells d u w' b' t
  moved-Tells d u w w' b b' s t h form editor progress = record {
    display = ground (arith, h.display);
    unique = ground (arith, h.unique);
    modified = ground (arith, h.modified);
    written = editor;
    part = progress;
  }

  key-progress :
      (key : JsString) (b : Bool) (s : InviteState)
      → s.progress ≡ (if b then 1 else 0)
      → (invite lower (presses_key key) s).progress
        ≡ (if (if str_eq key (text "Enter") then true else b) then 1 else 0)
  unfolding invite
  key-progress key b s h = ground arith

  key-kept :
      (key : JsString) (s : InviteState)
      → ((invite lower (presses_key key) s).form ≡ s.form)
        × ((invite lower (presses_key key) s).editor ≡ s.editor)
  unfolding invite
  key-kept key s = (ground arith, ground arith)

  invite_all-offered :
      (a : InviteAction) (actions : List InviteAction) (s : InviteState)
      → has_action s a ≡ true
      → invite_all lower (a ∷ actions) s ≡ invite_all lower actions (invite lower a s)
  unfolding invite_all
  invite_all-offered a actions s h = ground arith

  invite_all-Tells :
      (actions : List InviteAction) (d : JsString) (u w : Option JsString) (b : Bool)
      (s : InviteState)
      → AreOffered actions s
      → Tells d u w b s
      → Tells
          (last_display d actions)
          (last_unique u actions)
          (last_written w actions)
          (is_in_second b actions)
          (invite_all lower actions s)
  unfolding AreOffered last_display last_unique last_written is_in_second
  invite_all-Tells [] d u w b s o h = unfold invite_all in h
  invite_all-Tells (names_display value ∷ actions) d u w b s (p, o) h =
      rw (invite_all-offered (names_display value) actions s p)
        (invite_all-Tells actions value u w b _ o (display-Tells value d u w b s h))
  invite_all-Tells (names_unique value ∷ actions) d u w b s (p, o) h =
      rw (invite_all-offered (names_unique value) actions s p)
        (invite_all-Tells actions d (some value) w b _ o (unique-Tells value d u w b s h))
  invite_all-Tells (presses_key key ∷ actions) d u w b s (p, o) h =
      let (form, editor) = key-kept key s in
      rw (invite_all-offered (presses_key key) actions s p) (
        invite_all-Tells actions d u w _ _ o
          (moved-Tells d u w w b _ s _ h form (editor ∙ h.written) (key-progress key b s h.part)))
  invite_all-Tells (goes_on ∷ actions) d u w b s (p, o) h =
      rw (invite_all-offered goes_on actions s p) (
        invite_all-Tells actions d u w true _ o
          (unfold invite in moved-Tells d u w w b true s _ h refl h.written refl))
  invite_all-Tells (goes_back ∷ actions) d u w b s (p, o) h =
      rw (invite_all-offered goes_back actions s p) (
        invite_all-Tells actions d u w false _ o
          (unfold invite in moved-Tells d u w w b false s _ h refl h.written refl))
  invite_all-Tells (writes content ∷ actions) d u w b s (p, o) h =
      rw (invite_all-offered (writes content) actions s p) (
        invite_all-Tells actions d u (some content) b _ o
          (unfold invite in moved-Tells d u w (some content) b b s _ h refl refl h.part))

  open-Tells : lower [] ≡ [] → Tells [] none none false open_invite
  unfolding unique_or_generated generate_unique_name
  open-Tells e = record {
    display = refl;
    unique = ground (arith, e);
    modified = refl;
    written = refl;
    part = refl;
  }

  -- Where each action is one that the screen for sending invitations has when it is done, and
  -- lowering no text gives none: the button Send invitation asks the daemon exactly if the user's
  -- last move was to the second part, the display name typed last is not empty and some text was
  -- written. It asks to invite the contact's id with the text that was written last, under the
  -- display name typed last and the unique name typed last, or, where none was typed, the one
  -- generated from that display name.
  pub send_invitation-inputs_iff :
      (actions : List InviteAction) (their_id : JsString) (r : Request)
      → lower [] ≡ []
      → AreOffered actions open_invite
      → let d = last_display [] actions in
        let u = unique_or_generated (last_unique none actions) d in
        (send_invitation their_id (invite_all lower actions open_invite) ≡ some (called r)) ↔ (
          (content : JsString) × (is_in_second false actions ≡ true)
          × (d ≢ [])
          × (last_written none actions ≡ some content)
          × (r ≡ add_async_friend u d their_id content))
  send_invitation-inputs_iff actions their_id r e o =
      let s = invite_all lower actions open_invite in
      let h = invite_all-Tells actions [] none none false open_invite o (open-Tells e) in
      let (there, back) = finish-some_iff lower their_id s r in
      (
        λ sent.
            let (content, part, named, written, asked) = there sent in
            (
              content,
              ground (arith, part, h.part),
              rw h.display at named,
              sym h.written ∙ written,
              ground (arith, asked, h.unique, h.display),
            ),
        λ said.
            let (content, second, named, written, asked) = said in
            back (
              content,
              ground (arith, second, h.part),
              rw h.display named,
              h.written ∙ written,
              rw (h.unique, h.display) asked,
            ),
      )
