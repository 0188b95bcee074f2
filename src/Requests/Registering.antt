-- ===== src/Requests/Registering.antt =====
-- Registering, from the answer of `hasRegistered` to the end of `registerUser`.
use anysphere_messaging.Common.{
  ℕ, ◌≡◌, ◌≢◌, refl, ap, ◌∙◌, Bool, true, false, JsString, text, none, some, List, [], ◌∷◌,
  if◌then◌else◌,
}
use anysphere_messaging.Types.{Timestamp}
use anysphere_messaging.Daemon.Schema.{Client, Outcome}
use anysphere_messaging.Daemon.Calls.{Operation, op_register_user, Answer}
use anysphere_messaging.Main.{
  MainState, register, close_modal, Registered, registered, unregistered, failed, on_registered,
}
use anysphere_messaging.Requests.{ClientState, settle_register}
use anysphere_messaging.Requests.Settling.{called_daemon, is_answered, settle_register-called}
use anysphere_messaging.Requests.Register.{
  form, open_register, RegisterAction, gets_started, types_key, act, act_all,
  register as register_by,
}

-- The last key that is typed after the first click on Get started, if there is one.
unfoldable pub last_key : JsString → List RegisterAction → JsString
last_key key [] = key
last_key key (gets_started ∷ actions) = last_key key actions
last_key key (types_key value ∷ actions) = last_key value actions

act_all-form :
    (actions : List RegisterAction) (key : JsString)
    → act_all actions (record { screen = form; access_key = key })
      ≡ record { screen = form; access_key = last_key key actions }
unfolding act_all act last_key
act_all-form [] key = refl
act_all-form (gets_started ∷ actions) key = act_all-form actions key
act_all-form (types_key value ∷ actions) key = act_all-form actions value

if-close :
    (b : Bool) (s : MainState)
    → s.modal ≡ some register
    → (if b then close_modal s else s).modal ≡ (if b then none else some register)
unfolding close_modal
if-close true s e = refl
if-close false s e = e

on_registered-modal :
    (answer : Registered) (s : MainState)
    → answer ≢ registered
    → (on_registered answer s).modal ≡ some register
unfolding on_registered
on_registered-modal registered s h = absurd (h refl)
on_registered-modal unregistered s h = refl
on_registered-modal failed s h = refl

form_after :
    (actions : List RegisterAction)
    → act_all (gets_started ∷ actions) open_register
      ≡ record { screen = form; access_key = last_key [] actions }
unfolding act_all act
form_after actions = act_all-form actions []

module _ {W : Type 0} (started : Timestamp) (hash : JsString) (client : Client W)
    (describe : (o : Operation) → Outcome (Answer o) → JsString) where
  -- Where the daemon does not say that the user is registered, the dialog for registering is shown.
  -- After Get started, Register makes a promise with the last key that was typed. When it settles,
  -- without fake data, it is one call of the daemon, with that key. If the call brings a response,
  -- the dialog closes, if it is still open; if not, it stays.
  pub register-called :
      (now : ℕ) (actions : List RegisterAction) (answer : Registered) (s t : ClientState W)
      → answer ≢ registered
      → t.main.modal ≡ some register
      → let key = last_key [] actions in
        let o = op_register_user (record { name = text "No Name"; beta_key = key }) in
        let u = settle_register false started hash client now key t in
        ((on_registered answer s.main).modal ≡ some register)
        × (register_by (act_all (gets_started ∷ actions) open_register) ≡ some key)
        × (u.daemon ≡ called_daemon started hash client describe o t.daemon)
        × (u.main.modal
            ≡ (if is_answered started hash client describe o t.daemon then none else some register))
        × (u.status.display ≡ true)
  unfolding register_by
  register-called now actions answer s t unknown still =
      let (daemon, main, status) =
        settle_register-called started hash client describe now (last_key [] actions) t in
      (
        on_registered-modal answer s.main unknown,
        rw (form_after actions) refl,
        daemon,
        ap (λ (m : MainState). m.modal) main ∙ if-close _ t.main still,
        status,
      )
