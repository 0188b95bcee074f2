-- ===== src/Delivery/Tests.antt =====
-- A window with one draft, and a daemon that keeps the number of its calls: it answers `ok` or not.
use mathlib.Core.Option
use anysphere_messaging.Common.{
  ℕ, suc, ◌≡◌, refl, true, false, not, ◌&&◌, any, JsString, text, none, some, [], ◌∷◌, length,
  str_eq,
}
use anysphere_messaging.Common.Int.{pos}
use anysphere_messaging.Types.{Timestamp}
use anysphere_messaging.Daemon.Schema.{
  Client, Method, Response, Reply, service_error, replied, send_message_call, empty_message,
}
use anysphere_messaging.Compose.{WriteData, on_to, send, sent, single_newlines, after_send}
use anysphere_messaging.Tabs.{Tab, write, has_tab, update_tab, switch_tab, selected_actual_tab}
use anysphere_messaging.Status.{initial, show}
use anysphere_messaging.Main.{TabData, write_data, edit_write, empty_write, type_eq}
use anysphere_messaging.Window.{
  opened, selected_component, new_messages, all_messages, write_view, edit, select_tab,
}
use anysphere_messaging.Delivery.Settling.{pending_of, is_delivered}
use anysphere_messaging.Delivery.Sessions.{IsSound, run-IsSound}
use anysphere_messaging.Delivery.Ending.{settle_first-has_tab}
use anysphere_messaging.Delivery.Editors.{
  WritingState, shown_draft, type_text, do_action, send_shown,
}
use anysphere_messaging.Delivery.Mixing.{IsComplete, names, send_shown-other_tab}
use anysphere_messaging.Window.Drafts.{select}
use anysphere_messaging.Delivery.Failing.{window_only, run-window_only}
use anysphere_messaging.Delivery.Repeats.{
  press_times, repeat, settle_first, called_all, press_times-called_all,
}
use anysphere_messaging.Daemon.Methods.{send_message, unary}
use anysphere_messaging.Daemon.Calls.{method_of, perform, is_resolved, is_response}
use anysphere_messaging.Delivery.{
  Pending, draft_of, submit, happen, on_sent, DeliveryState, press_send, settle, run, presses,
  settles,
}

abbrev started : Timestamp
started = record { seconds = pos 1650000000; nanos = pos 0 }

abbrev hash : JsString
hash = text "1b244038"

abbrev unavailable : Client ℕ
unavailable = record { call = λ m request calls. (service_error 14, suc calls) }

abbrev draft : WriteData
draft = record {
  content = [];
  multi_select_state = record {
    friends =
        record { unique_name = text "arvid"; display_name = text "Arvid"; public_id = none } ∷ [];
    query = [];
  };
  focus = on_to;
}

abbrev draft_tab : Tab TabData
draft_tab = record {
  type = write;
  name = text "Compose";
  payload = write_data draft;
  unclosable = false;
  id = text "write-1";
}

abbrev writing : DeliveryState ℕ
writing = record {
  main = record opened {
    tabs_state = record {
      default_tab = opened.tabs_state.default_tab;
      tabs = draft_tab ∷ opened.tabs_state.tabs;
      previous_selected_tab = text "new";
      selected_tab = text "write-1";
    };
  };
  status = initial;
  daemon = 0;
  pending = [];
}

writing-shown :
    selected_component (selected_actual_tab writing.main.tabs_state) ≡ some (write_view draft)
unfolding selected_actual_tab selected_component text str_eq
writing-shown = refl

send-draft : send draft (some (text "hi")) ≡ sent (text "arvid" ∷ []) (text "hi")
unfolding send single_newlines text
send-draft = refl

abbrev reply : (m : Method) → Reply (Response m)
unfolding Response
reply send_message_call = replied (some empty_message)
reply _ = service_error 14

abbrev answering : Client ℕ
answering = record { call = λ m request calls. (reply m, suc calls) }

writing-IsSound : IsSound writing
unfolding selected_component
writing-IsSound = record {
  drawn = record {
    default_drawn = (new_messages, refl);
    tabs_drawn = ((write_view draft, refl), ((new_messages, refl), ((all_messages, refl), tt)));
  };
  addressed = tt;
}

abbrev failed : DeliveryState ℕ
failed = record writing { daemon = 1; status = show 9 (text "Message failed to send.") initial }

sent_and_failed :
    run false started hash unavailable (presses (some (text "hi")) 5 ∷ settles 0 9 ∷ []) writing
    ≡ some failed
unfolding run happen press_send draft_of selected_component selected_actual_tab text str_eq submit
    send single_newlines settle perform send_message unary is_resolved on_sent after_send
sent_and_failed = refl

run-IsSound_example : IsSound failed
run-IsSound_example =
    run-IsSound false started hash unavailable (presses (some (text "hi")) 5 ∷ settles 0 9 ∷ [])
      writing failed writing-IsSound sent_and_failed

unanswered : (p : Pending) (v : ℕ) → is_delivered started hash unavailable p v ≡ false
unfolding is_response
unanswered p v = refl

run-window_only_example :
    Option.map
      (λ (u : DeliveryState ℕ). u.main)
      (run false started hash unavailable (presses (some (text "hi")) 5 ∷ settles 0 9 ∷ []) writing)
    ≡ window_only (presses (some (text "hi")) 5 ∷ settles 0 9 ∷ []) writing.main
run-window_only_example =
    run-window_only started hash unavailable unanswered
      (presses (some (text "hi")) 5 ∷ settles 0 9 ∷ []) writing

press_times-called_all_example :
    let copies = repeat 2 (pending_of draft (text "arvid" ∷ []) (text "hi") writing) in
    let u =
      settle_first started hash answering
        (length copies)
        9
        (press_times 2 (some (text "hi")) 5 writing) in
    (u.daemon ≡ called_all started hash answering copies writing.daemon) × (u.pending ≡ [])
press_times-called_all_example =
    press_times-called_all started hash answering 2 (some (text "hi")) 5 9 writing draft
      (text "arvid" ∷ []) (text "hi") refl writing-shown send-draft

-- Two drafts: the one that is shown is without contacts, the other is for Arvid.
abbrev blank_tab : Tab TabData
blank_tab = record draft_tab { payload = write_data empty_write; id = text "write-2" }

abbrev two_drafts : WritingState
two_drafts = record {
  main = record opened {
    tabs_state = record {
      default_tab = opened.tabs_state.default_tab;
      tabs = blank_tab ∷ draft_tab ∷ opened.tabs_state.tabs;
      previous_selected_tab = text "new";
      selected_tab = text "write-2";
    };
  };
  editor = none;
}

draft-IsComplete : IsComplete draft
draft-IsComplete = record { someone = λ e. cc; no_query = refl }

blank-shown : shown_draft two_drafts.main ≡ some empty_write
unfolding shown_draft draft_of selected_component selected_actual_tab text str_eq
blank-shown = refl

edited-shown : shown_draft (edit_write draft two_drafts.main) ≡ some draft
unfolding shown_draft draft_of selected_component selected_actual_tab text str_eq edit_write
    update_tab type_eq
edited-shown = refl

other-shown : shown_draft (select (text "write-1") two_drafts.main) ≡ some draft
unfolding shown_draft draft_of selected_component selected_actual_tab text str_eq switch_tab
other-shown = refl

send_shown-other_tab_example :
    ((u : WritingState) × (do_action (edit draft) (type_text (text "hi") two_drafts) ≡ some u)
      × (send_shown u ≡ some (sent (names draft) (single_newlines (text "hi")))))
    × ((u : WritingState) × (do_action
            (select_tab (text "write-1"))
            (type_text (text "hi") two_drafts)
          ≡ some u)
        × (send_shown u ≡ some (sent (names draft) (single_newlines (text "hi")))))
send_shown-other_tab_example =
    send_shown-other_tab two_drafts (text "write-1") (text "hi") empty_write draft draft blank-shown
      edited-shown other-shown draft-IsComplete draft-IsComplete

answered : (p : Pending) (v : ℕ) → is_delivered started hash answering p v ≡ true
unfolding is_response reply method_of
answered p v = refl

pressed-pending :
    (press_send (some (text "hi")) 5 writing).pending
    ≡ pending_of draft (text "arvid" ∷ []) (text "hi") writing ∷ []
unfolding press_send draft_of selected_component selected_actual_tab text str_eq submit send
    single_newlines
pressed-pending = refl

settle_first-has_tab_example :
    let s = press_send (some (text "hi")) 5 writing in
    let ps = pending_of draft (text "arvid" ∷ []) (text "hi") writing ∷ [] in
    let u = settle_first started hash answering (length ps) 9 s in
    has_tab (text "write-1") u.main.tabs_state.tabs
    ≡ has_tab (text "write-1") s.main.tabs_state.tabs
      && not (any (λ (p : Pending). str_eq p.tab_id (text "write-1")) ps)
settle_first-has_tab_example =
    settle_first-has_tab started hash answering answered
      (pending_of draft (text "arvid" ∷ []) (text "hi") writing ∷ []) 9
      (press_send (some (text "hi")) 5 writing) (text "write-1") pressed-pending
