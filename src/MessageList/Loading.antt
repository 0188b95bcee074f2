-- ===== src/MessageList/Loading.antt =====
-- Whether the tabs Outbox and Sent show their own messages.
use anysphere_messaging.Common.{
  ℕ, ◌≡◌, ◌≢◌, ◌⊎◌, inl, inr, refl, sym, ap, ◌∙◌, arith, true, Option, none, some, List, [], ◌∷◌,
  ◌++◌, Option-cases, List-cases, Bool-cases,
}
use anysphere_messaging.Types.{OutgoingMessage}
use anysphere_messaging.MessageList.{on_loaded}
use anysphere_messaging.MessageList.Outgoing.{
  OutgoingType, outbox, sent, Asked, OutgoingView, nothing_shown, same_type, show, answer, shows,
  answers, run,
}

-- If Sent is opened straight after Outbox and the answer for Outbox comes last, or the one for Sent
-- is an error, the tab Sent shows the messages of Outbox.
pub answers-outbox_last :
    (queued delivered : List OutgoingMessage)
    → let opened = shows (some outbox) ∷ shows (some sent) ∷ [] in
      let late =
        run (opened ++ answers 1 (some delivered) ∷ answers 0 (some queued) ∷ []) nothing_shown in
      let refused = run (opened ++ answers 0 (some queued) ∷ answers 0 none ∷ []) nothing_shown in
      (late.shown ≡ some sent)
      × (late.messages ≡ queued)
      × (late.asked ≡ [])
      × (refused.shown ≡ some sent)
      × (refused.messages ≡ queued)
unfolding run show answer on_loaded
answers-outbox_last queued delivered = (refl, refl, refl, refl, refl)

-- What happens when the answers come in the order of the requests, and none is an error.
pub data Orderly : Type 0 where
  draws_list : Option OutgoingType → Orderly
  oldest_answered : Orderly

snoc-ne-nil : (front : List Asked) (q : Asked) → front ++ q ∷ [] ≢ []
snoc-ne-nil [] q e = cc
snoc-ne-nil (r ∷ front) q e = cc

module _ (lists : OutgoingType → List OutgoingMessage) where
  unfoldable pub answer_oldest : OutgoingView → OutgoingView
  answer_oldest s = elim s.asked [ [] ↦ s | q ∷ qs ↦ answer 0 (some (lists q.type)) s ]

  unfoldable pub run_orderly : List Orderly → OutgoingView → OutgoingView
  unfolding answer_oldest
  run_orderly [] s = s
  run_orderly (draws_list t ∷ events) s = run_orderly events (show t s)
  run_orderly (oldest_answered ∷ events) s = run_orderly events (answer_oldest s)

  -- The last request is for what is shown, or everything is answered and the list is the right one.
  record IsAwaited (s : OutgoingView) (t : OutgoingType) : Type 0 where
    front : List Asked
    last : s.asked ≡ front ++ record { instance_of = s.current; type = t } ∷ []

  record IsLoaded (s : OutgoingView) (t : OutgoingType) : Type 0 where
    answered : s.asked ≡ []
    right : s.messages ≡ lists t

  IsCurrent : OutgoingView → Type 0
  IsCurrent s = (t : OutgoingType) → s.shown ≡ some t → IsAwaited s t ⊎ IsLoaded s t

  same_type-eq : (t u : OutgoingType) → same_type t u ≡ true → t ≡ u
  same_type-eq outbox outbox e = refl
  same_type-eq sent sent e = refl
  same_type-eq outbox sent e = cc
  same_type-eq sent outbox e = cc

  show-some :
      (t : OutgoingType) (s : OutgoingView)
      → let u = show (some t) s in
        (u ≡ s)
        ⊎ ((u.shown ≡ some t)
            × (u.asked ≡ s.asked ++ record { instance_of = u.current; type = t } ∷ []))
  unfolding show
  show-some t s = elim (Option-cases s.shown) [
    | inl absent ↦ inr (ground (arith, absent), ground (arith, absent))
    | inr (v, there) ↦ elim (Bool-cases (same_type t v)) [
      | inl again ↦ inl (ground arith)
      | inr other ↦ inr (ground arith, ground arith)
    ]
  ]

  show-IsCurrent : (t : Option OutgoingType) (s : OutgoingView) → IsCurrent s → IsCurrent (show t s)
  unfolding IsCurrent
  show-IsCurrent none s h = λ u e. absurd (unfold show in ground arith)
  show-IsCurrent (some t) s h = elim (show-some t s) [
    | inl same ↦ rw same h
    | inr (shown, asked) ↦ λ u e.
        let type : t ≡ u = ground arith in
        inl (record { front = s.asked; last = rw (← type) asked })
  ]

  answer_oldest-cons :
      (q : Asked) (qs : List Asked) (s : OutgoingView) (t : OutgoingType)
      → s.asked ≡ q ∷ qs
      → let u = answer_oldest s in
        (u.shown ≡ s.shown)
        × (u.current ≡ s.current)
        × (u.asked ≡ qs)
        × (s.shown ≡ some t → q.instance_of ≡ s.current → u.messages ≡ lists q.type)
  unfolding answer_oldest answer on_loaded
  answer_oldest-cons q qs s t full =
      (ground arith, ground arith, ground arith, λ shown here. ground arith)

  answer_oldest-awaited :
      (q : Asked) (qs : List Asked) (s : OutgoingView) (t : OutgoingType)
      → s.asked ≡ q ∷ qs
      → s.shown ≡ some t
      → IsAwaited s t ⊎ IsLoaded s t
      → IsAwaited (answer_oldest s) t ⊎ IsLoaded (answer_oldest s) t
  answer_oldest-awaited q qs s t full shown (inr loaded) = absurd (ground (arith, loaded.answered))
  answer_oldest-awaited q qs s t full shown (inl awaited) =
      let (_, current, asked, right) = answer_oldest-cons q qs s t full in
      let awaited_by : ℕ → Asked = λ c. record { instance_of = c; type = t } in
      let ending : List Asked → List Asked = λ front. front ++ awaited_by s.current ∷ [] in
      let last : q ∷ qs ≡ ending awaited.front = sym full ∙ awaited.last in
      elim (List-cases awaited.front) [
        | inl empty ↦
            let only : q ∷ qs ≡ awaited_by s.current ∷ [] = last ∙ ap ending empty in
            inr (record {
              answered = asked ∙ ground (arith, only);
              right = right shown (ground (arith, only)) ∙ ap lists (ground (arith, only));
            })
        | inr (r, front, more) ↦
            let longer : q ∷ qs ≡ r ∷ ending front = last ∙ ap ending more in
            let later : qs ≡ ending front = ground (arith, longer) in
            inl (record {
              front = front;
              last = asked ∙ (later ∙ ap (λ (c : ℕ). front ++ awaited_by c ∷ []) (sym current));
            })
      ]

  answer_oldest-IsCurrent : (s : OutgoingView) → IsCurrent s → IsCurrent (answer_oldest s)
  unfolding IsCurrent
  answer_oldest-IsCurrent s h = elim (List-cases s.asked) [
    | inl empty ↦ let same : answer_oldest s ≡ s = unfold answer_oldest in ground arith in rw same h
    | inr (q, qs, full) ↦ λ t e.
        let (shown, _, _, _) = answer_oldest-cons q qs s t full in
        let before : s.shown ≡ some t = sym shown ∙ e in
        answer_oldest-awaited q qs s t full before (h t before)
  ]

  run_orderly-IsCurrent :
      (events : List Orderly) (s : OutgoingView) → IsCurrent s → IsCurrent (run_orderly events s)
  unfolding run_orderly
  run_orderly-IsCurrent [] s h = h
  run_orderly-IsCurrent (draws_list t ∷ events) s h =
      run_orderly-IsCurrent events (show t s) (show-IsCurrent t s h)
  run_orderly-IsCurrent (oldest_answered ∷ events) s h =
      run_orderly-IsCurrent events (answer_oldest s) (answer_oldest-IsCurrent s h)

  -- If the daemon answers in the order of the requests, without errors, and always has the same
  -- messages: once everything is answered, the list shows those of the tab that is shown, whichever
  -- tabs were shown before.
  pub run_orderly-messages :
      (events : List Orderly) (t : OutgoingType)
      → let u = run_orderly events nothing_shown in
        u.shown ≡ some t → u.asked ≡ [] → u.messages ≡ lists t
  unfolding IsCurrent
  run_orderly-messages events t shown answered =
      elim (run_orderly-IsCurrent events nothing_shown (λ u e. absurd (ground arith)) t shown) [
        | inl awaited ↦ absurd (snoc-ne-nil awaited.front _ (sym awaited.last ∙ answered))
        | inr loaded ↦ loaded.right
      ]
