-- ===== src/Compose/Offering.antt =====
-- The contacts that are offered do not depend on the order in which they were loaded.
use mathlib.Core.List.{perm_append_comm}
use mathlib.Core.Quot.{sound}
use mathlib.Mathlib.Data.Multiset.Defs.{of_list}
use anysphere_messaging.Common.{
  ◌≡◌, ◌⊎◌, inl, inr, refl, sym, ◌∙◌, ap, arith, Bool, true, false, not, ◌&&◌, Option, none, some,
  List, [], ◌∷◌, ◌++◌, any, filter, append-nil,
}
use anysphere_messaging.Types.{Friend, OutgoingSyncInvitation}
use anysphere_messaging.Compose.{
  WriteFriend, MultiSelectData, is_chosen, available, with_friends, with_invitations,
}
use anysphere_messaging.Compose.Loading.{
  Loads, mounted, Settled, friends_settled, invitations_settled, on_friends, on_invitations, settle,
  settle_all,
}

module _ {ℓ} {A : Type ℓ} (p : A → Bool) where
  filter-append : (xs ys : List A) → filter p (xs ++ ys) ≡ filter p xs ++ filter p ys
  filter-append [] ys = refl
  filter-append (x ∷ xs) ys = ground (arith, filter-append xs ys)

on_friends-append :
    (friends : Option (List Friend)) (fs : List WriteFriend)
    → on_friends friends fs ≡ fs ++ on_friends friends []
unfolding on_friends with_friends
on_friends-append none fs = sym (append-nil fs)
on_friends-append (some friends) fs = refl

on_invitations-append :
    (invitations : Option (List OutgoingSyncInvitation)) (fs : List WriteFriend)
    → on_invitations invitations fs ≡ fs ++ on_invitations invitations []
unfolding on_invitations with_invitations
on_invitations-append none fs = sym (append-nil fs)
on_invitations-append (some invitations) fs = refl

abbrev pub same_request : Settled → Settled → Bool
same_request friends_settled friends_settled = true
same_request invitations_settled invitations_settled = true
same_request _ _ = false

module _ (friends : Option (List Friend)) (invitations : Option (List OutgoingSyncInvitation)) where
  -- What is loaded, by the answers that are still awaited.
  Fits : Bool → Bool → List WriteFriend → Type 0
  Fits true true fs = fs ≡ []
  Fits true false fs = fs ≡ on_invitations invitations []
  Fits false true fs = fs ≡ on_friends friends []
  Fits false false fs =
      (fs ≡ on_friends friends [] ++ on_invitations invitations [])
      ⊎ (fs ≡ on_invitations invitations [] ++ on_friends friends [])

  settle-Fits :
      (e : Settled) (a b : Bool) (fs : List WriteFriend)
      → Fits a b fs
      → let s : Loads =
          settle friends invitations e
            (record { friends = fs; awaits_friends = a; awaits_invitations = b }) in
        Fits s.awaits_friends s.awaits_invitations s.friends
  unfolding Fits settle
  settle-Fits friends_settled true true fs h = rw h refl
  settle-Fits friends_settled true false fs h = inr (rw h (on_friends-append friends _))
  settle-Fits friends_settled false b fs h = h
  settle-Fits invitations_settled true true fs h = rw h refl
  settle-Fits invitations_settled false true fs h = inl (rw h (on_invitations-append invitations _))
  settle-Fits invitations_settled a false fs h = h

  settle_all-Fits :
      (events : List Settled) (s : Loads)
      → Fits s.awaits_friends s.awaits_invitations s.friends
      → let u = settle_all friends invitations events s in
        Fits u.awaits_friends u.awaits_invitations u.friends
  unfolding settle_all
  settle_all-Fits [] s h = h
  settle_all-Fits (e ∷ events) s h =
      settle_all-Fits events (settle friends invitations e s)
        (settle-Fits e s.awaits_friends s.awaits_invitations s.friends h)

  settle-awaits :
      (e : Settled) (s : Loads)
      → let u = settle friends invitations e s in
        (u.awaits_friends ≡ (s.awaits_friends && not (same_request friends_settled e)))
        × (u.awaits_invitations
            ≡ (s.awaits_invitations && not (same_request invitations_settled e)))
  unfolding settle
  settle-awaits friends_settled s = (ground arith, ground arith)
  settle-awaits invitations_settled s = (ground arith, ground arith)

  settle_all-awaits :
      (events : List Settled) (s : Loads)
      → let u = settle_all friends invitations events s in
        (u.awaits_friends ≡ (s.awaits_friends && not (any (same_request friends_settled) events)))
        × (u.awaits_invitations
            ≡ (s.awaits_invitations && not (any (same_request invitations_settled) events)))
  unfolding settle_all
  settle_all-awaits [] s = (ground arith, ground arith)
  settle_all-awaits (e ∷ events) s =
      let (f, i) = settle-awaits e s in
      let (fs, is) = settle_all-awaits events (settle friends invitations e s) in
      (ground (arith, f, fs), ground (arith, i, is))

  Fits-none :
      (a b : Bool) (fs : List WriteFriend)
      → a ≡ false
      → b ≡ false
      → Fits a b fs
      → Fits false false fs
  Fits-none false false fs e d h = h
  Fits-none true b fs e d h = cc
  Fits-none false true fs e d h = cc

  Fits-available :
      (fs : List WriteFriend) (chosen : MultiSelectData)
      → Fits false false fs
      → of_list (available fs chosen)
        ≡ of_list (available (on_friends friends [] ++ on_invitations invitations []) chosen)
  unfolding Fits available
  Fits-available fs chosen (inl e) = rw e refl
  Fits-available fs chosen (inr e) =
      let shown : WriteFriend → Bool = λ w. not (is_chosen w.unique_name chosen.friends) in
      let f : List WriteFriend = on_friends friends [] in
      let i : List WriteFriend = on_invitations invitations [] in
      rw e (
        ap of_list (filter-append shown i f)
        ∙ sound (perm_append_comm (filter shown i) (filter shown f))
        ∙ sym (ap of_list (filter-append shown f i)))

  -- In whatever order the two requests settle, and however each of them ends: if both have settled,
  -- nothing is awaited any more, and `Write` offers, as a multiset, the contacts that the answers
  -- bring and that are not chosen.
  pub settle_all-available :
      (events : List Settled) (chosen : MultiSelectData)
      → any (same_request friends_settled) events ≡ true
      → any (same_request invitations_settled) events ≡ true
      → let u = settle_all friends invitations events mounted in
        (u.awaits_friends ≡ false)
        × (u.awaits_invitations ≡ false)
        × (of_list (available u.friends chosen)
            ≡ of_list (available (on_friends friends [] ++ on_invitations invitations []) chosen))
  settle_all-available events chosen hf hi =
      let (f, i) = settle_all-awaits events mounted in
      let u : Loads = settle_all friends invitations events mounted in
      let no_friends : u.awaits_friends ≡ false = ground (arith, f) in
      let no_invitations : u.awaits_invitations ≡ false = ground (arith, i) in
      let fits = settle_all-Fits events mounted (unfold Fits in refl) in
      (
        no_friends,
        no_invitations,
        Fits-available u.friends chosen (
            Fits-none u.awaits_friends u.awaits_invitations u.friends no_friends no_invitations
              fits),
      )
