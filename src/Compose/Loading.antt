-- ===== src/Compose/Loading.antt =====
-- The loading of the contacts that `Write` offers (client/gui/src/renderer/components/Compose/Write.tsx):
-- two requests that are made when the tab is drawn first, `getFriendList` and
-- `getOutgoingSyncInvitations`, and whose promises settle in any order, each once. A rejected one
-- changes nothing.
use anysphere_messaging.Common.{Bool, true, false, Option, none, some, List, [], ◌∷◌, if◌then◌else◌}
use anysphere_messaging.Types.{Friend, OutgoingSyncInvitation}
use anysphere_messaging.Compose.{WriteFriend, with_friends, with_invitations}

pub record Loads : Type 0 where
  pub friends : List WriteFriend
  pub awaits_friends : Bool
  pub awaits_invitations : Bool

-- The state of a tab that has just been drawn.
abbrev pub mounted : Loads
mounted = record { friends = []; awaits_friends = true; awaits_invitations = true }

pub data Settled : Type 0 where
  friends_settled invitations_settled : Settled

unfoldable pub on_friends : Option (List Friend) → List WriteFriend → List WriteFriend
unfolding with_friends
on_friends none f = f
on_friends (some friends) f = with_friends friends f

unfoldable pub on_invitations :
    Option (List OutgoingSyncInvitation) → List WriteFriend → List WriteFriend
unfolding with_invitations
on_invitations none f = f
on_invitations (some invitations) f = with_invitations invitations f

-- What the two promises give is `friends` and `invitations`, or `none` where they are rejected.
module _ (friends : Option (List Friend)) (invitations : Option (List OutgoingSyncInvitation)) where
  unfoldable pub settle : Settled → Loads → Loads
  unfolding on_friends on_invitations
  settle friends_settled s =
      if s.awaits_friends
      then record s { friends = on_friends friends s.friends; awaits_friends = false }
      else s
  settle invitations_settled s =
      if s.awaits_invitations
      then record s { friends = on_invitations invitations s.friends; awaits_invitations = false }
      else s

  unfoldable pub settle_all : List Settled → Loads → Loads
  unfolding settle
  settle_all [] s = s
  settle_all (e ∷ events) s = settle_all events (settle e s)
