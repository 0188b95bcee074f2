-- ===== src/Requests/Settling.antt =====
-- How the requests of the dialogs end.
use anysphere_messaging.Common.{
  ℕ, ◌≡◌, none, some, refl, ◌∙◌, ap, arith, Bool, true, false, JsString, text, List, [], Option,
  if◌then◌else◌, inl, inr, Bool-cases,
}
use anysphere_messaging.Types.{Timestamp}
use anysphere_messaging.Daemon.Schema.{Client, Outcome}
use anysphere_messaging.Daemon.Calls.{
  Operation, op_register_user, Answer, perform, method_of, sent_by, is_resolved, is_response,
}
use anysphere_messaging.Daemon.CallLaws.{perform-call}
use anysphere_messaging.AddFriend.{
  Request, NameForm, finish_in_person, finish_remote, accept, enter_a_name,
}
use anysphere_messaging.Status.{StatusState, show, set_status, set_visible}
use anysphere_messaging.Main.{MainState, close_modal, on_register}
use anysphere_messaging.Requests.{
  operation_of, success_message, failure_message, ClientState, on_settled, press, settle,
  settle_register,
}
use anysphere_messaging.Requests.Buttons.{
  Button, decision_of, IsNamed, Deal, deal_of, request_of, decision_of-called, request_of-deal,
}

on_register-main :
    (ok : Bool) (s : MainState) → (on_register ok s).0 ≡ (if ok then close_modal s else s)
unfolding on_register
on_register-main true s = refl
on_register-main false s = refl

module _ {W : Type 0} (started : Timestamp) (hash : JsString) (client : Client W)
    (describe : (o : Operation) → Outcome (Answer o) → JsString) where
  -- What is left of a request: the daemon after the one call it makes.
  abbrev pub called_daemon : Operation → W → W
  called_daemon o w = (client.call (method_of o) (sent_by o) w).1

  -- Whether that call brought a response.
  abbrev pub is_answered : Operation → W → Bool
  is_answered o w = is_response (client.call (method_of o) (sent_by o) w).0

  on_settled-cases :
      {A : Type 0} (d : Outcome A → JsString) (now : ℕ) (r : Request) (p : Outcome A × W)
      (s : ClientState W)
      → ((on_settled d now r p s).daemon ≡ p.1)
        × ((on_settled d now r p s).main ≡ (if is_resolved p.0 then close_modal s.main else s.main))
        × ((on_settled d now r p s).status
            ≡ show now
                (if is_resolved p.0 then success_message r else failure_message r (d p.0))
                s.status)
  unfolding on_settled
  on_settled-cases d now r p s = elim (Bool-cases (is_resolved p.0)) [
    | inl yes_ ↦ (ground arith, ground arith, ground arith)
    | inr no_ ↦ (ground arith, ground arith, ground arith)
  ]

  settle-called :
      (now : ℕ) (r : Request) (s : ClientState W)
      → let o = operation_of r in
        let answered = is_answered o s.daemon in
        let u = settle false started hash client describe now r s in
        (u.daemon ≡ called_daemon o s.daemon)
        × (u.main ≡ (if answered then close_modal s.main else s.main))
        × (u.status.message ≡ (
            if answered
            then success_message r
            else failure_message r (describe o (perform false started hash client o s.daemon).0)))
        × (u.status.display ≡ true)
  unfolding settle show set_status set_visible
  settle-called now r s =
      let o = operation_of r in
      let (called_once, answers, left) = perform-call started hash client o s.daemon in
      let (daemon, main, status) =
        on_settled-cases (describe o) now r (perform false started hash client o s.daemon) s in
      (
        daemon ∙ left,
        rw answers at main,
        rw answers at (ap (λ (t : StatusState). t.message) status),
        ap (λ (t : StatusState). t.display) status,
      )

  -- What it means that a promise ends in a state, in terms of what its button is for.
  pub record IsSettled (d : Deal) (s u : ClientState W) : Type 0 where
    pub called_once : u.daemon ≡ called_daemon d.operation s.daemon
    pub main : u.main ≡ (if is_answered d.operation s.daemon then close_modal s.main else s.main)
    pub message : u.status.message ≡ (
        if is_answered d.operation s.daemon
        then d.said
        else d.complaint
            (describe d.operation (perform false started hash client d.operation s.daemon).0))
    pub display : u.status.display ≡ true

  -- Without fake data, with a display name where the screen asks for one: pressing the button changes
  -- nothing but that it makes a promise. When that settles, in whatever state the window is by then,
  -- it is the one call of the daemon's client that the button is for, with the fields that the
  -- screen had collected. If the call brings a response, the dialog that is open then closes and the
  -- status says what the button has done; if not, the window stays and the status says the error.
  -- The status is shown in both cases.
  pub press-settle :
      (now later : ℕ) (b : Button) (s t : ClientState W)
      → IsNamed b
      → (r : Request) × (press now (decision_of b) s ≡ (s, some r))
        × IsSettled (deal_of b) t (settle false started hash client describe later r t)
  unfolding press
  press-settle now later b s t named =
      let r = request_of b in
      let (op, said, _) = request_of-deal b [] in
      let error : Operation → JsString =
        λ o. describe o (perform false started hash client o t.daemon).0 in
      let complaint = (request_of-deal b (error (deal_of b).operation)).2 in
      let (daemon, main, message, display) = settle-called later r t in
      (
        r,
        rw (decision_of-called b named) refl,
        record {
          called_once = rw op at daemon;
          main = rw op at main;
          message = rw (op, said, complaint) at message;
          display = display;
        },
      )

  -- Registering is one call, too, with the key that was typed; without a response the dialog stays.
  pub settle_register-called :
      (now : ℕ) (key : JsString) (s : ClientState W)
      → let o = op_register_user (record { name = text "No Name"; beta_key = key }) in
        let answered = is_answered o s.daemon in
        let u = settle_register false started hash client now key s in
        (u.daemon ≡ called_daemon o s.daemon)
        × (u.main ≡ (if answered then close_modal s.main else s.main))
        × (u.status.display ≡ true)
  unfolding settle_register on_register show set_status set_visible
  settle_register-called now key s =
      let o = op_register_user (record { name = text "No Name"; beta_key = key }) in
      let (called_once, answers, left) = perform-call started hash client o s.daemon in
      (
        left,
        on_register-main (is_resolved (perform false started hash client o s.daemon).0) s.main
            ∙ ap (λ (b : Bool). if b then close_modal s.main else s.main) answers,
        refl,
      )

-- Without a name nothing is asked of the daemon, and the dialog stays.
pub press-unnamed :
    {W : Type 0} (now : ℕ) (f : NameForm) (theirs : List JsString) (public_id : JsString)
    (editor : Option JsString) (s : ClientState W)
    → f.display_name ≡ []
    → let asked = record s { status = show now (text "Please enter a name.") s.status } in
      (press now (finish_in_person f theirs) s ≡ (asked, none))
      × (press now (finish_remote f public_id editor) s ≡ (asked, none))
      × (press now (accept f public_id) s ≡ (asked, none))
unfolding press finish_in_person finish_remote accept enter_a_name
press-unnamed now f theirs public_id editor s e = (ground arith, ground arith, ground arith)
