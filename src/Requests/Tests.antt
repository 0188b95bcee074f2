-- ===== src/Requests/Tests.antt =====
-- A daemon that keeps the number of its calls and answers them, and a dialog that is open.
use anysphere_messaging.Common.{ℕ, suc, ◌≡◌, false, JsString, text, some, false}
use anysphere_messaging.Common.Int.{pos}
use anysphere_messaging.Types.{Timestamp}
use anysphere_messaging.Daemon.Schema.{Client, Outcome, service_error}
use anysphere_messaging.Daemon.Calls.{Operation, Answer}
use anysphere_messaging.AddFriend.{Request, NameForm}
use anysphere_messaging.Status.{initial}
use anysphere_messaging.Main.{open_friend_modal}
use anysphere_messaging.Window.{opened}
use anysphere_messaging.Requests.{ClientState, press, settle}
use anysphere_messaging.Requests.Buttons.{Button, sends_invitation, decision_of, IsNamed, deal_of}
use anysphere_messaging.Requests.Settling.{IsSettled, press-settle}

abbrev started : Timestamp
started = record { seconds = pos 1650000000; nanos = pos 0 }

abbrev hash : JsString
hash = text "1b244038"

abbrev client : Client ℕ
client = record { call = λ m request calls. (service_error 14, suc calls) }

abbrev describe : (o : Operation) → Outcome (Answer o) → JsString
describe o outcome = text "error"

abbrev dialog : ClientState ℕ
dialog = record { main = open_friend_modal opened; status = initial; daemon = 0 }

abbrev names : NameForm
names = record {
  display_name = text "A B";
  unique_name = text "a-b";
  has_modified_unique_name = false;
}

abbrev inviting : Button
inviting = sends_invitation names (text "85dG") (text "hello")

-- The dialog is closed before the promise settles.
abbrev closed : ClientState ℕ
closed = record dialog { main = opened }

inviting-IsNamed : IsNamed inviting
unfolding text
inviting-IsNamed = λ e. cc

press-settle_example :
    (r : Request) × (press 5 (decision_of inviting) dialog ≡ (dialog, some r))
    × IsSettled started hash client describe
        (deal_of inviting)
        closed
        (settle false started hash client describe 9 r closed)
press-settle_example =
    press-settle started hash client describe 5 9 inviting dialog closed inviting-IsNamed
