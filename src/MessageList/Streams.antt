-- ===== src/MessageList/Streams.antt =====
-- The streams that the list of the tabs New and All has open.
use anysphere_messaging.Common.{
  ℕ, ◌+◌, ◌≡◌, ◌≢◌, ◌⊎◌, inl, inr, refl, arith, true, false, Option, none, some, List, [], ◌∷◌,
  Option-cases, Bool-cases,
}
use anysphere_messaging.Daemon.Schema.{Filter, new, all as all_messages}
use anysphere_messaging.MessageList.Incoming.{
  Stream, IncomingView, same_filter, cancel, clean_up, run_effect, show,
}

same_filter-eq : (t u : Filter) → same_filter t u ≡ true → t ≡ u
same_filter-eq new new e = refl
same_filter-eq all_messages all_messages e = refl
same_filter-eq new all_messages e = cc
same_filter-eq all_messages new e = cc

same_filter_refl : (t : Filter) → same_filter t t ≡ true
same_filter_refl new = refl
same_filter_refl all_messages = refl

abbrev pub fed_by : ℕ → ℕ → List Stream
fed_by k component = record { number = k; component = component } ∷ []

-- A stream is open exactly while one of the tabs is shown, and it is the one that is cancelled next.
unfoldable pub IsTidy : IncomingView → Type 0
IsTidy s =
    ((s.shown ≡ none) × (s.streams ≡ []) × (s.cleanup ≡ none))
    ⊎ ((t : Filter) × (k : ℕ) × (s.shown ≡ some t)
        × (s.streams ≡ record { number = k; component = s.component } ∷ [])
        × (s.cleanup ≡ some k))

pub clean_up-IsTidy :
    (s : IncomingView) → IsTidy s → ((clean_up s).streams ≡ []) × ((clean_up s).cleanup ≡ none)
unfolding IsTidy clean_up cancel
clean_up-IsTidy s (inl (shown, streams, cleanup)) = (ground arith, ground arith)
clean_up-IsTidy s (inr (t, k, shown, streams, cleanup)) = (ground arith, ground arith)

clean_up-kept :
    (s : IncomingView) → ((clean_up s).component ≡ s.component) × ((clean_up s).opened ≡ s.opened)
unfolding clean_up
clean_up-kept s = elim (Option-cases s.cleanup) [
  | inl absent ↦ (ground arith, ground arith)
  | inr (k, there) ↦ (ground arith, ground arith)
]

-- The view shows this tab, with this stream and no other.
pub record IsFed (t : Filter) (k : ℕ) (u : IncomingView) : Type 0 where
  pub shown : u.shown ≡ some t
  pub streams : u.streams ≡ record { number = k; component = u.component } ∷ []
  pub cleanup : u.cleanup ≡ some k

run_effect-IsFed :
    (t : Filter) (n : ℕ) (v : IncomingView)
    → v.shown ≡ some t
    → v.streams ≡ []
    → v.opened ≡ n
    → IsFed t n (run_effect v) × ((run_effect v).messages ≡ [])
unfolding run_effect
run_effect-IsFed t n v shown streams opened =
    (record { shown = shown; streams = ground arith; cleanup = ground arith }, refl)

IsTidy-nil : (s : IncomingView) → IsTidy s → s.shown ≡ none → s.streams ≡ []
unfolding IsTidy
IsTidy-nil s (inl (shown, streams, cleanup)) e = streams
IsTidy-nil s (inr (t, k, shown, streams, cleanup)) e = absurd (ground arith)

pub show-IsFed :
    (t : Filter) (s : IncomingView)
    → IsTidy s
    → s.shown ≢ some t
    → IsFed t s.opened (show (some t) s) × ((show (some t) s).messages ≡ [])
show-IsFed t s h other = elim (Option-cases s.shown) [
  | inl absent ↦
      let fresh = record s { component = s.component + 1; shown = some t } in
      let e : show (some t) s ≡ run_effect fresh = unfold show in ground (arith, absent) in
      rw e (run_effect-IsFed t s.opened fresh refl (IsTidy-nil s h absent) refl)
  | inr (u, there) ↦
      let next = record (clean_up s) { shown = some t } in
      let changed : same_filter t u ≡ false = elim (Bool-cases (same_filter t u)) [
        | inl again ↦ absurd (ground (arith, same_filter-eq t u again))
        | inr no_ ↦ no_
      ] in
      let e : show (some t) s ≡ run_effect next = unfold show in ground (arith, there, changed) in
      rw e (run_effect-IsFed t s.opened next refl (clean_up-IsTidy s h).0 (clean_up-kept s).1)
]

pub IsFed-IsTidy : (t : Filter) (k : ℕ) (s : IncomingView) → IsFed t k s → IsTidy s
unfolding IsTidy
IsFed-IsTidy t k s f = inr (t, k, f.shown, f.streams, f.cleanup)

pub show-same :
    (t u : Filter) (s : IncomingView)
    → s.shown ≡ some u
    → same_filter t u ≡ true
    → show (some t) s ≡ s
unfolding show
show-same t u s e same = ground arith

pub show-IsTidy : (t : Option Filter) (s : IncomingView) → IsTidy s → IsTidy (show t s)
show-IsTidy none s h =
    let (streams, cleanup) = clean_up-IsTidy s h in
    unfold IsTidy show in inl (refl, streams, cleanup)
show-IsTidy (some t) s h = elim (Option-cases s.shown) [
  | inl absent ↦ IsFed-IsTidy t s.opened _ (show-IsFed t s h (λ e. ground arith)).0
  | inr (u, there) ↦ elim (Bool-cases (same_filter t u)) [
    | inl again ↦ rw (show-same t u s there again) h
    | inr other ↦
        IsFed-IsTidy t s.opened _
          (show-IsFed t s h (λ e. ground (arith, other, same_filter_refl t))).0
  ]
]
