-- ===== src/AddFriend/Forms.antt =====
-- The names of a new contact, and the calls that the screens end in.
use anysphere_messaging.Common.{
  ◌≡◌, ◌≢◌, ◌↔◌, ◌⊎◌, inl, refl, arith, true, Option, none, some, List, [], ◌∷◌, map, JsString,
  join, All, ◌==◌, if◌then◌else◌,
}
use anysphere_messaging.AddFriend.{
  NameForm, generate_unique_name, type_display_name, type_unique_name, Request, add_sync_friend,
  add_async_friend, accept_async_invitation, called, finish_in_person, finish_remote, accept,
  enter_a_name,
}

-- Each screen calls the daemon exactly when a display name is given (and, for an invitation, the
-- editor is there), with the names of the form and what the screen is about.
pub finish-eq-called_iff :
    (f : NameForm) (theirs : List JsString) (public_id : JsString) (editor : Option JsString)
    (r : Request)
    → ((finish_in_person f theirs ≡ called r) ↔ (
        (f.display_name ≢ [])
        × (r ≡ add_sync_friend f.unique_name f.display_name (join (32 ∷ []) theirs))))
      × ((finish_remote f public_id editor ≡ called r) ↔ (
          (content : JsString) × (f.display_name ≢ [])
          × (editor ≡ some content)
          × (r ≡ add_async_friend f.unique_name f.display_name public_id content)))
      × ((accept f public_id ≡ called r) ↔ (
          (f.display_name ≢ [])
          × (r ≡ accept_async_invitation f.unique_name f.display_name public_id)))
unfolding finish_in_person finish_remote accept enter_a_name
finish-eq-called_iff f theirs public_id editor r = (
  (λ h. ground arith, λ h. ground arith),
  on_editor editor,
  (λ h. ground arith, λ h. ground arith),
)
  where
    on_editor :
        (editor : Option JsString)
        → ((finish_remote f public_id editor ≡ called r) ↔ (
            (content : JsString) × (f.display_name ≢ [])
            × (editor ≡ some content)
            × (r ≡ add_async_friend f.unique_name f.display_name public_id content)))
    on_editor none = (λ h. ground arith, λ h. ground arith)
    on_editor (some c) = (λ h. (c, ground arith, refl, ground arith), λ h. ground arith)

-- Until the user edits it, the unique name is the one generated from the display name.
abbrev pub IsSynced : (JsString → JsString) → NameForm → Type 0
IsSynced lower f =
    (f.has_modified_unique_name ≡ true)
    ⊎ (f.unique_name ≡ generate_unique_name lower f.display_name)

abbrev pub HasNoSpace : JsString → Type 0
HasNoSpace s = All (λ c. c ≢ 32) s

dashes-HasNoSpace : (s : JsString) → HasNoSpace (map (λ c. if c == 32 then 45 else c) s)
dashes-HasNoSpace [] = tt
dashes-HasNoSpace (c ∷ s) = (ground arith, dashes-HasNoSpace s)

-- Both inputs keep the form in step, and a unique name that is generated holds no space.
pub type-IsSynced :
    (lower : JsString → JsString) (value : JsString) (f : NameForm)
    → IsSynced lower f
    → IsSynced lower (type_display_name lower value f)
      × IsSynced lower (type_unique_name value f)
      × HasNoSpace (generate_unique_name lower value)
unfolding type_display_name type_unique_name generate_unique_name
type-IsSynced lower value f h = (ground arith, inl refl, dashes-HasNoSpace (lower value))
