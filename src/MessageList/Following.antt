-- ===== src/MessageList/Following.antt =====
-- What the tabs New and All show of what the streams deliver.
use anysphere_messaging.Common.{
  ℕ, ◌≡◌, ◌≢◌, sym, ap, inl, inr, refl, ◌∙◌, arith, Bool, true, false, Option, none, some, List, [],
  ◌∷◌, map, all, ◌==◌, if◌then◌else◌,
}
use anysphere_messaging.Types.{IncomingMessage}
use anysphere_messaging.Daemon.Schema.{Filter}
use anysphere_messaging.MessageList.{on_batch, receive_from, receive}
use anysphere_messaging.MessageList.Incoming.{
  Stream, IncomingView, nothing_shown, same_filter, show, deliver,
}
use anysphere_messaging.MessageList.Streams.{
  fed_by, IsTidy, IsFed, clean_up-IsTidy, IsFed-IsTidy, show-IsFed, show-same, show-IsTidy,
}

pub data ListEvent : Type 0 where
  draws : Option Filter → ListEvent
  delivers : ℕ → List IncomingMessage → ListEvent

-- The batches of one stream, the first one first.
unfoldable pub batches_of : ℕ → List ListEvent → List (List IncomingMessage)
batches_of k [] = []
batches_of k (draws t ∷ events) = batches_of k events
batches_of k (delivers n batch ∷ events) =
    let rest = batches_of k events in if n == k then batch ∷ rest else rest

-- Whether an event leaves this tab on the screen.
abbrev pub stays : Filter → ListEvent → Bool
stays t (draws none) = false
stays t (draws (some u)) = same_filter u t
stays t (delivers n batch) = true

module _ (clock : IncomingMessage → IncomingMessage → ℕ × ℕ) where
  unfoldable pub run : List ListEvent → IncomingView → IncomingView
  run [] s = s
  run (draws t ∷ events) s = run events (show t s)
  run (delivers n batch ∷ events) s = run events (deliver clock n batch s)

  deliver-kept :
      (n : ℕ) (batch : List IncomingMessage) (s : IncomingView)
      → let u = deliver clock n batch s in
        (u.shown ≡ s.shown)
        × (u.streams ≡ s.streams)
        × (u.cleanup ≡ s.cleanup)
        × (u.component ≡ s.component)
  unfolding deliver
  deliver-kept n batch s = (ground arith, ground arith, ground arith, ground arith)

  deliver-IsTidy :
      (n : ℕ) (batch : List IncomingMessage) (s : IncomingView)
      → IsTidy s
      → IsTidy (deliver clock n batch s)
  unfolding IsTidy
  deliver-IsTidy n batch s h =
      let (shown, streams, cleanup, component) = deliver-kept n batch s in
      elim h [
        | inl (a, b, c) ↦ inl (shown ∙ a, streams ∙ b, cleanup ∙ c)
        | inr (t, k, a, b, c) ↦
            inr (t, k, shown ∙ a, streams ∙ (b ∙ ap (fed_by k) (sym component)), cleanup ∙ c)
      ]

  run-IsTidy : (events : List ListEvent) (s : IncomingView) → IsTidy s → IsTidy (run events s)
  unfolding run
  run-IsTidy [] s h = h
  run-IsTidy (draws t ∷ events) s h = run-IsTidy events (show t s) (show-IsTidy t s h)
  run-IsTidy (delivers n batch ∷ events) s h =
      run-IsTidy events (deliver clock n batch s) (deliver-IsTidy n batch s h)

  deliver-IsFed :
      (t : Filter) (k n : ℕ) (batch : List IncomingMessage) (s : IncomingView)
      → IsFed t k s
      → IsFed t k (deliver clock n batch s)
        × ((deliver clock n batch s).messages
            ≡ (if n == k then on_batch clock batch s.messages else s.messages))
  deliver-IsFed t k n batch s f =
      let (shown, streams, cleanup, component) = deliver-kept n batch s in
      (
        record {
          shown = shown ∙ f.shown;
          streams = streams ∙ (f.streams ∙ ap (fed_by k) (sym component));
          cleanup = cleanup ∙ f.cleanup;
        },
        unfold deliver in ground (arith, f.shown, f.streams),
      )

  taken :
      (own : Bool) (batch : List IncomingMessage) (rest : List (List IncomingMessage))
      (s : IncomingView) {messages : List IncomingMessage}
      → messages ≡ (if own then on_batch clock batch s.messages else s.messages)
      → receive_from clock messages rest
        ≡ receive_from clock s.messages (if own then batch ∷ rest else rest)
  unfolding receive_from
  taken true batch rest s e = rw e refl
  taken false batch rest s e = rw e refl

  run-IsFed :
      (events : List ListEvent) (t : Filter) (k : ℕ) (s : IncomingView)
      → IsFed t k s
      → all (stays t) events ≡ true
      → IsFed t k (run events s)
        × ((run events s).messages ≡ receive_from clock s.messages (batches_of k events))
  unfolding run batches_of receive_from
  run-IsFed [] t k s f h = (f, refl)
  run-IsFed (draws none ∷ events) t k s f h = absurd (ground arith)
  run-IsFed (draws (some u) ∷ events) t k s f h =
      let same : show (some u) s ≡ s = show-same u t s f.shown (ground arith) in
      let (end, merged) = run-IsFed events t k (show (some u) s) (rw same f) (ground arith) in
      (
        end,
        merged
            ∙ ap (λ (v : IncomingView). receive_from clock v.messages (batches_of k events)) same,
      )
  run-IsFed (delivers n batch ∷ events) t k s f h =
      let (fed, messages) = deliver-IsFed t k n batch s f in
      let (end, merged) = run-IsFed events t k (deliver clock n batch s) fed h in
      (end, merged ∙ taken (n == k) batch (batches_of k events) s messages)

  -- Whatever has been drawn and delivered before: when one of the tabs New and All is selected that
  -- is not on the screen, and then stays there, the list shows what the batches give, merged one
  -- after the other, of the stream that is opened for it, and nothing of the streams that were
  -- opened before: this stream alone is open. When another kind of tab
  -- is selected, none is.
  pub run-batches_of :
      (before after : List ListEvent) (t : Filter)
      → (run before nothing_shown).shown ≢ some t
      → all (stays t) after ≡ true
      → let s = run before nothing_shown in
        let u = run after (show (some t) s) in
        (u.shown ≡ some t)
        × (u.messages ≡ receive clock (batches_of s.opened after))
        × (map (λ (x : Stream). x.number) u.streams ≡ s.opened ∷ [])
        × ((show none u).streams ≡ [])
  unfolding receive
  run-batches_of before after t other h =
      let s = run before nothing_shown in
      let tidy : IsTidy s =
        run-IsTidy before nothing_shown (unfold IsTidy in inl (refl, refl, refl)) in
      let (fed, fresh) = show-IsFed t s tidy other in
      let (f, merged) = run-IsFed after t s.opened (show (some t) s) fed h in
      let u = run after (show (some t) s) in
      (
        f.shown,
        merged
            ∙ ap (λ (m : List IncomingMessage). receive_from clock m (batches_of s.opened after))
                fresh,
        ground (arith, f.streams),
        unfold show in (clean_up-IsTidy u (IsFed-IsTidy t s.opened u f)).0,
      )
