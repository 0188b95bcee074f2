-- ===== src/AddFriend.antt =====
-- Adding a contact: the screens of client/gui/src/renderer/components/AddFriend/ (AddFriendInPerson,
-- AddFriendRemotePartTwo, AddFriendIncoming), their helpers in utils.ts, and the function of
-- SpellCheck.tsx. `lower` stands for `toLowerCase`, and `word_list` for the 4,331 words of
-- SpellCheck.tsx. The animations that are drawn from the seed are in Animation.
pub mod Stories
pub mod Seeds
pub mod Forms
pub mod Invites
pub mod Inviting
pub mod Inputs
pub mod Wizard
pub mod Hex
mod Tests
use anysphere_messaging.Common.{
  ℕ, zero, suc, ◌+◌, ◌/◌, ◌%◌, Bool, true, false, not, ◌&&◌, ◌||◌, Option, none, some, List, [],
  ◌∷◌, ◌++◌, map, JsString, str_eq, text, join, length, any, all, ltb, ◌==◌, if◌then◌else◌,
}

-- `story.split(". ")`: code units 46 and 32.
unfoldable pub on_head : ℕ → List JsString → List JsString
on_head c [] = (c ∷ []) ∷ []
on_head c (s ∷ ss) = (c ∷ s) ∷ ss

unfoldable pub split_sentences : JsString → List JsString
unfolding on_head
split_sentences [] = [] ∷ []
split_sentences (c ∷ []) = (c ∷ []) ∷ []
split_sentences (c ∷ d ∷ s) =
    let closed = [] ∷ split_sentences s in
    let longer = on_head c (split_sentences (d ∷ s)) in
    elim (c == 46 && d == 32) [ true ↦ closed | false ↦ longer ]

-- `line[line.length - 1] == "."`
unfoldable pub ends_with_dot : JsString → Bool
ends_with_dot [] = false
ends_with_dot (c ∷ []) = c == 46
ends_with_dot (c ∷ d ∷ s) = ends_with_dot (d ∷ s)

unfoldable pub close_sentence : JsString → JsString
unfolding ends_with_dot
close_sentence line = if ends_with_dot line then line else line ++ 46 ∷ []

unfoldable pub storylist : JsString → List JsString
unfolding split_sentences close_sentence
storylist story = map close_sentence (split_sentences story)

-- `<` on strings, by code units.
unfoldable pub str_lt : JsString → JsString → Bool
str_lt s [] = false
str_lt [] (_ ∷ _) = true
str_lt (a ∷ s) (b ∷ t) = ltb a b || (a == b && str_lt s t)

-- `[a, b].sort()`
unfoldable pub sort_two : JsString → JsString → List JsString
sort_two a b = if str_lt b a then b ∷ a ∷ [] else a ∷ b ∷ []

unfoldable pub compute_seed_from_stories : JsString → List JsString → JsString
unfolding sort_two
compute_seed_from_stories mystory theirstorylist =
    join (32 ∷ []) (sort_two mystory (join (32 ∷ []) theirstorylist))

-- `sentence.split(" ")`
unfoldable pub split_words : JsString → List JsString
split_words [] = [] ∷ []
split_words (c ∷ s) = let rest = split_words s in if c == 32 then [] ∷ rest else on_head c rest

-- `word.slice(0, -1)`
unfoldable pub drop_last : JsString → JsString
drop_last [] = []
drop_last (c ∷ []) = []
drop_last (c ∷ d ∷ s) = c ∷ drop_last (d ∷ s)

module _ (lower : JsString → JsString) (word_list : List JsString) where
  unfoldable pub spell_check : JsString → Bool
  unfolding ends_with_dot drop_last
  spell_check word =
      let word_low = lower word in
      let word_san = if ends_with_dot word_low then drop_last word_low else word_low in
      if length word == 0 then true else any (λ w. str_eq w word_san) word_list

  -- The colour of the input in `StoryForm`: whether it is black and not red.
  unfoldable pub is_black : JsString → Bool
  unfolding split_words spell_check
  is_black sentence =
      if ltb 0 (length sentence)
      then ltb (length (split_words sentence)) 5 && all spell_check (split_words sentence)
      else true

-- `theirstory.map((line, j) => …)` with the line at `i` replaced.
unfoldable pub set_line : ℕ → JsString → List JsString → List JsString
set_line i value [] = []
set_line zero value (line ∷ lines) = value ∷ lines
set_line (suc i) value (line ∷ lines) = line ∷ set_line i value lines

-- The names that every screen asks for.
pub record NameForm : Type 0 where
  pub display_name : JsString
  pub unique_name : JsString
  pub has_modified_unique_name : Bool

abbrev pub empty_form : NameForm
empty_form = record { display_name = []; unique_name = []; has_modified_unique_name = false }

-- `displayName.toLowerCase().replace(/ /g, "-")`
unfoldable pub generate_unique_name : (JsString → JsString) → JsString → JsString
generate_unique_name lower name = map (λ c. if c == 32 then 45 else c) (lower name)

unfoldable pub type_display_name : (JsString → JsString) → JsString → NameForm → NameForm
type_display_name lower value f =
    if not f.has_modified_unique_name
    then record f { display_name = value; unique_name = generate_unique_name lower value }
    else record f { display_name = value }

unfoldable pub type_unique_name : JsString → NameForm → NameForm
type_unique_name value f = record f { unique_name = value; has_modified_unique_name = true }

-- The calls of the daemon that the screens make.
pub data Request : Type 0 where
  add_sync_friend : JsString → JsString → JsString → Request
  add_async_friend : JsString → JsString → JsString → JsString → Request
  accept_async_invitation : JsString → JsString → JsString → Request
  reject_async_invitation : JsString → Request

pub data Outcome : Type 0 where
  refused : JsString → Outcome
  called : Request → Outcome

unfoldable pub enter_a_name : Outcome
enter_a_name = refused (text "Please enter a name.")

-- `finish` of AddFriendInPerson.
unfoldable pub finish_in_person : NameForm → List JsString → Outcome
finish_in_person f theirs =
    if length f.display_name == 0
    then enter_a_name
    else called (add_sync_friend f.unique_name f.display_name (join (32 ∷ []) theirs))

-- `finish` of AddFriendRemotePartTwo; `editor` is the text of the editor, if its reference is set.
unfoldable pub finish_remote : NameForm → JsString → Option JsString → Outcome
finish_remote f their_id editor = if length f.display_name == 0 then enter_a_name else elim editor [
  | none ↦ refused (text "Internal error. Please try again.")
  | some content ↦ called (add_async_friend f.unique_name f.display_name their_id content)
]

-- `accept` and `reject` of AddFriendIncoming.
unfoldable pub accept : NameForm → JsString → Outcome
accept f public_id =
    if length f.display_name == 0
    then enter_a_name
    else called (accept_async_invitation f.unique_name f.display_name public_id)

unfoldable pub reject : JsString → Outcome
reject public_id = called (reject_async_invitation public_id)

-- The state of AddFriendInPerson.
pub record InPerson : Type 0 where
  pub progress : ℕ
  pub showverify : Bool
  pub theirstory : List JsString
  pub form : NameForm

abbrev pub is_complete : JsString → Bool
is_complete line = not (length line == 0)

-- The effect that runs after a change of the other's story.
unfoldable pub check_complete : InPerson → InPerson
check_complete s =
    if length s.theirstory == 0
    then s
    else if all is_complete s.theirstory
    then record s { showverify = true }
    else s

-- What the user does on the screen.
pub data Action : Type 0 where
  edit_line : ℕ → JsString → Action
  verify identical take_back go_back : Action
  display_name unique_name : JsString → Action

blank_lines : List JsString → List JsString
blank_lines lines = map (λ _. []) lines

-- The state in which the screen for one's own story opens: as many empty lines as it has sentences.
unfoldable pub open_in_person : JsString → InPerson
unfolding blank_lines
open_in_person story = record {
  progress = 0;
  showverify = false;
  theirstory = blank_lines (storylist story);
  form = empty_form;
}

unfoldable pub act : (JsString → JsString) → InPerson → Action → InPerson
act lower s (edit_line i value) =
    check_complete (record s { theirstory = set_line i value s.theirstory })
act lower s verify = if s.showverify then record s { progress = 1 } else s
act lower s identical = record s { progress = 2 }
act lower s take_back = record s { progress = 0 }
act lower s go_back = record s { progress = 1 }
act lower s (display_name value) = record s { form = type_display_name lower value s.form }
act lower s (unique_name value) = record s { form = type_unique_name value s.form }

-- Which actions the screen shows: a part of the wizard has its own buttons.
unfoldable pub is_offered : InPerson → Action → Bool
is_offered s (edit_line i value) = s.progress == 0
is_offered s verify = s.progress == 0
is_offered s identical = s.progress == 1
is_offered s take_back = s.progress == 1
is_offered s go_back = s.progress == 2
is_offered s (display_name value) = s.progress == 2
is_offered s (unique_name value) = s.progress == 2

-- `b.toString(16).padStart(2, "0")` of a byte.
unfoldable pub hex_digit : ℕ → ℕ
hex_digit d = if ltb d 10 then 48 + d else 87 + d

unfoldable pub to_hex : ℕ → JsString
unfolding hex_digit
to_hex b = if ltb b 16 then hex_digit b ∷ [] else hex_digit (b / 16) ∷ hex_digit (b % 16) ∷ []

unfoldable pub pad_start : JsString → JsString
pad_start s = if ltb (length s) 2 then (if length s == 0 then 48 ∷ 48 ∷ [] else 48 ∷ s) else s

-- The hexadecimal form of a digest, as `sha256string` gives it.
unfoldable pub hash_hex : List ℕ → JsString
unfolding to_hex pad_start
hash_hex [] = []
hash_hex (b ∷ bytes) = pad_start (to_hex b) ++ hash_hex bytes
