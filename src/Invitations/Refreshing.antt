-- ===== src/Invitations/Refreshing.antt =====
-- When the list of outgoing invitations shows what the daemon has.
use anysphere_messaging.Common.{
  ◌≡◌, refl, sym, ◌∙◌, inl, inr, arith, Bool, true, false, ◌||◌, Option, none, some, List, [], ◌∷◌,
  ◌++◌, JsString, All, Bool-cases,
}
use anysphere_messaging.Types.{OutgoingAsyncInvitation}
use anysphere_messaging.Invitations.{
  ListState, mounted, Settled, resolved, rejected, run_effect, on_list, on_cancel, World, Event,
  effect, answer, press_cancel, cancel_settles, step, steps,
}

-- The list that will be shown when the answers have come.
newest :
    List OutgoingAsyncInvitation
    → List (Settled (List OutgoingAsyncInvitation))
    → List OutgoingAsyncInvitation
newest shown [] = shown
newest shown (resolved invitations ∷ rest) = newest invitations rest
newest shown (rejected err ∷ rest) = newest shown rest

newest-append :
    (shown invs : List OutgoingAsyncInvitation)
    (answers : List (Settled (List OutgoingAsyncInvitation)))
    → newest shown (answers ++ resolved invs ∷ []) ≡ invs
unfolding newest
newest-append shown invs [] = refl
newest-append shown invs (resolved l ∷ rest) = newest-append l invs rest
newest-append shown invs (rejected err ∷ rest) = newest-append shown invs rest

-- Whether a cancellation is pending that the daemon has done.
due : List (OutgoingAsyncInvitation × Option JsString) → Bool
due [] = false
due ((inv, none) ∷ rest) = true
due ((inv, some err) ∷ rest) = due rest

due-append :
    (cs : List (OutgoingAsyncInvitation × Option JsString)) (inv : OutgoingAsyncInvitation)
    (fails : Option JsString)
    → due (cs ++ (inv, fails) ∷ []) ≡ (due cs || elim fails [ none ↦ true | some err ↦ false ])
unfolding due
due-append [] inv none = refl
due-append [] inv (some err) = refl
due-append ((i, none) ∷ cs) inv fails = refl
due-append ((i, some e) ∷ cs) inv fails = due-append cs inv fails

-- No request for the list fails.
abbrev pub Loads : Event → Type 0
Loads (effect (some err)) = ⊥
Loads _ = Unit

-- The tab is opened.
abbrev pub opening {ℓ} : {Store : Type ℓ} → Store → World Store
opening store = record { ui = mounted; store = store; answers = []; cancels = [] }

module _ {ℓ} {Store : Type ℓ} (listed : Store → List OutgoingAsyncInvitation)
    (cancel : JsString → Store → Store) where
  -- Unless another request is to come, the newest answer is what the daemon has.
  IsCurrent : World Store → Type 0
  IsCurrent w =
      (w.ui.refresh || due w.cancels) ≡ false
      → newest w.ui.async_invitations w.answers ≡ listed w.store

  answer-IsCurrent :
      (ui : ListState OutgoingAsyncInvitation) (store : Store)
      (answers : List (Settled (List OutgoingAsyncInvitation)))
      (cancels : List (OutgoingAsyncInvitation × Option JsString))
      → IsCurrent (record { ui = ui; store = store; answers = answers; cancels = cancels })
      → IsCurrent (
          step listed cancel answer
            (record { ui = ui; store = store; answers = answers; cancels = cancels }))
  unfolding step IsCurrent on_list newest
  answer-IsCurrent ui store [] cancels h = h
  answer-IsCurrent ui store (resolved l ∷ rest) cancels h = h
  answer-IsCurrent ui store (rejected err ∷ rest) cancels h = h

  cancel-IsCurrent :
      (ui : ListState OutgoingAsyncInvitation) (store : Store)
      (answers : List (Settled (List OutgoingAsyncInvitation)))
      (cancels : List (OutgoingAsyncInvitation × Option JsString))
      → IsCurrent (record { ui = ui; store = store; answers = answers; cancels = cancels })
      → IsCurrent (
          step listed cancel cancel_settles
            (record { ui = ui; store = store; answers = answers; cancels = cancels }))
  unfolding step IsCurrent on_cancel due
  cancel-IsCurrent ui store answers [] h = h
  cancel-IsCurrent ui store answers ((inv, none) ∷ rest) h = λ q. ground arith
  cancel-IsCurrent ui store answers ((inv, some err) ∷ rest) h = h

  step-IsCurrent :
      (e : Event) (w : World Store) → Loads e → IsCurrent w → IsCurrent (step listed cancel e w)
  unfolding step IsCurrent run_effect
  step-IsCurrent (effect none) w l h = elim (Bool-cases w.ui.refresh) [
    | inl asks ↦
        λ q. ground (arith, newest-append w.ui.async_invitations (listed w.store) w.answers)
    | inr asked ↦ ground arith
  ]
  step-IsCurrent (effect (some err)) w l h = absurd l
  step-IsCurrent answer w l h = answer-IsCurrent w.ui w.store w.answers w.cancels h
  step-IsCurrent (press_cancel inv none) w l h = ground (arith, due-append w.cancels inv none)
  step-IsCurrent (press_cancel inv (some err)) w l h =
      ground (arith, due-append w.cancels inv (some err))
  step-IsCurrent cancel_settles w l h = cancel-IsCurrent w.ui w.store w.answers w.cancels h

  steps-IsCurrent :
      (es : List Event) (w : World Store)
      → All Loads es
      → IsCurrent w
      → IsCurrent (steps listed cancel es w)
  unfolding steps
  steps-IsCurrent [] w l h = h
  steps-IsCurrent (e ∷ es) w (l, ls) h =
      steps-IsCurrent es (step listed cancel e w) ls (step-IsCurrent e w l h)

  opening-IsCurrent : (store : Store) → IsCurrent (opening store)
  unfolding IsCurrent
  opening-IsCurrent store q = ground arith

  -- After any clicks, answers and effects from the opening of the tab, if no request for the list
  -- failed, when no request and no cancellation is pending and none is due, the list shows what the
  -- daemon has.
  pub steps-async_invitations :
      (es : List Event) (store : Store) (w : World Store)
      → All Loads es
      → steps listed cancel es (opening store) ≡ w
      → w.ui.refresh ≡ false
      → w.answers ≡ []
      → w.cancels ≡ []
      → w.ui.async_invitations ≡ listed w.store
  unfolding IsCurrent newest due
  steps-async_invitations es store w l e asked no_answers no_cancels =
      let current : IsCurrent w =
        rw e at (steps-IsCurrent es (opening store) l (opening-IsCurrent store)) in
      let shown : newest w.ui.async_invitations w.answers ≡ w.ui.async_invitations =
        rw no_answers refl in
      let none_due : (w.ui.refresh || due w.cancels) ≡ false = rw (asked, no_cancels) refl in
      sym shown ∙ current none_due
