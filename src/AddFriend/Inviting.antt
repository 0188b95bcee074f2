-- ===== src/AddFriend/Inviting.antt =====
-- What comes of an invitation that is sent or answered.
use anysphere_messaging.Common.{
  ◌≡◌, ◌≢◌, ◌≤◌, ◌↔◌, inl, inr, arith, true, false, JsString, some, List, [], ◌∷◌, ◌==◌,
  if◌then◌else◌, Bool-cases,
}
use anysphere_messaging.AddFriend.{
  empty_form, generate_unique_name, called, Request, add_async_friend, accept_async_invitation,
  reject_async_invitation, accept, reject, enter_a_name,
}
use anysphere_messaging.AddFriend.Forms.{IsSynced, type-IsSynced, finish-eq-called_iff}
use anysphere_messaging.AddFriend.Invites.{
  InviteState, send_invitation, IncomingState, open_incoming, IncomingAction, has_incoming,
  incoming, incoming_all, end_incoming, names_display_of, names_unique_of, accepts, returns,
}

module _ (lower : JsString → JsString) where
  empty_form-IsSynced : lower [] ≡ [] → IsSynced lower empty_form
  unfolding generate_unique_name
  empty_form-IsSynced e = inr (ground (arith, e))

  pub finish-some_iff :
      (their_id : JsString) (s : InviteState) (r : Request)
      → (send_invitation their_id s ≡ some (called r)) ↔ (
          (content : JsString) × (s.progress ≡ 1)
          × (s.form.display_name ≢ [])
          × (s.editor ≡ some content)
          × (r ≡ add_async_friend s.form.unique_name s.form.display_name their_id content))
  unfolding send_invitation
  finish-some_iff their_id s r =
      let (_, remote, _) = finish-eq-called_iff s.form [] their_id s.editor r in
      elim (Bool-cases (s.progress == 1)) [
        | inl second ↦ (
          λ h.
              let (content, named, there, asked) = remote.0 (ground arith) in
              (content, ground arith, named, there, asked),
          λ h.
              let (content, _, named, there, asked) = h in
              let e = remote.1 (content, named, there, asked) in ground arith,
        )
        | inr other ↦ (λ h. absurd (ground arith), λ h. absurd (ground arith))
      ]

  record IsWaiting (s : IncomingState) : Type 0 where
    part : s.progress ≤ 1
    synced : IsSynced lower s.form

  incoming-IsWaiting :
      (a : IncomingAction) (s : IncomingState) → IsWaiting s → IsWaiting (incoming lower a s)
  unfolding incoming
  incoming-IsWaiting (names_display_of value) s h = record {
    part = h.part;
    synced = (type-IsSynced lower value s.form h.synced).0;
  }
  incoming-IsWaiting (names_unique_of value) s h = record {
    part = h.part;
    synced = (type-IsSynced lower value s.form h.synced).1;
  }
  incoming-IsWaiting accepts s h = record { part = omega arith; synced = h.synced }
  incoming-IsWaiting returns s h = record { part = omega arith; synced = h.synced }

  incoming_all-IsWaiting :
      (actions : List IncomingAction) (s : IncomingState)
      → IsWaiting s
      → IsWaiting (incoming_all lower actions s)
  unfolding incoming_all
  incoming_all-IsWaiting [] s h = h
  incoming_all-IsWaiting (a ∷ actions) s h =
      incoming_all-IsWaiting actions (if has_incoming s a then incoming lower a s else s)
        (elim (has_incoming s a) as (λ b. IsWaiting (if b then incoming lower a s else s)) [
          | true ↦ incoming-IsWaiting a s h
          | false ↦ h
        ])

  end_incoming_iff :
      (id : JsString) (s : IncomingState) (r : Request)
      → s.progress ≤ 1
      → ((end_incoming id false s ≡ some (called r)) ↔ (
          (s.progress ≡ 1)
          × (s.form.display_name ≢ [])
          × (r ≡ accept_async_invitation s.form.unique_name s.form.display_name id)))
        × ((end_incoming id true s ≡ some (called r))
            ↔ ((s.progress ≡ 0) × (r ≡ reject_async_invitation id)))
  unfolding end_incoming reject accept enter_a_name
  end_incoming_iff id s r h = (
    (λ e. (ground arith, ground arith, ground arith), λ e. ground arith),
    (λ e. (ground arith, ground arith), λ e. ground arith),
  )

  -- After any use of the screen that answers an invitation, it is accepted exactly from the second
  -- part, with a display name and under the names of the form, and removed exactly from the first.
  -- Where lowering no text gives none, the unique name is the one generated from the display name
  -- until the user has edited it.
  pub end_incoming-called_iff :
      (actions : List IncomingAction) (id : JsString) (r : Request)
      → lower [] ≡ []
      → let s = incoming_all lower actions open_incoming in
        ((end_incoming id false s ≡ some (called r)) ↔ (
          (s.progress ≡ 1)
          × (s.form.display_name ≢ [])
          × (r ≡ accept_async_invitation s.form.unique_name s.form.display_name id)))
        × ((end_incoming id true s ≡ some (called r))
            ↔ ((s.progress ≡ 0) × (r ≡ reject_async_invitation id)))
        × IsSynced lower s.form
  end_incoming-called_iff actions id r e =
      let s = incoming_all lower actions open_incoming in
      let h =
        incoming_all-IsWaiting actions open_incoming
          (record { part = omega arith; synced = empty_form-IsSynced e }) in
      let (accepted, removed) = end_incoming_iff id s r h.part in (accepted, removed, h.synced)
