-- ===== src/AddFriend/Stories.antt =====
-- A story and the lines that it is shown as.
use anysphere_messaging.Common.{
  ℕ, ◌≡◌, ◌≢◌, refl, arith, true, false, List, [], ◌∷◌, ◌++◌, map, JsString, join, All, ap, ◌∙◌,
  append_assoc,
}
use mathlib.Core.Path.{ap₂}
use anysphere_messaging.AddFriend.{
  on_head, split_sentences, ends_with_dot, close_sentence, storylist,
}

abbrev pub HasNoDot : JsString → Type 0
HasNoDot s = All (λ c. c ≢ 46) s

-- A story as the daemon writes it: sentences with a dot behind each and spaces between them.
abbrev pub full_stop : JsString → JsString
full_stop s = s ++ 46 ∷ []

abbrev pub tell : List JsString → JsString
tell sentences = join (32 ∷ []) (map full_stop sentences)

ends_with_dot-append : (s : JsString) → ends_with_dot (s ++ 46 ∷ []) ≡ true
unfolding ends_with_dot
ends_with_dot-append [] = ground arith
ends_with_dot-append (c ∷ []) = ground arith
ends_with_dot-append (c ∷ d ∷ s) = ends_with_dot-append (d ∷ s)

ends_with_dot-plain : (s : JsString) → HasNoDot s → ends_with_dot s ≡ false
unfolding ends_with_dot
ends_with_dot-plain [] h = refl
ends_with_dot-plain (c ∷ []) h = ground arith
ends_with_dot-plain (c ∷ d ∷ s) (p, h) = ends_with_dot-plain (d ∷ s) h

split_sentences-other :
    (c d : ℕ) (s : JsString)
    → c ≢ 46
    → split_sentences (c ∷ d ∷ s) ≡ on_head c (split_sentences (d ∷ s))
unfolding split_sentences
split_sentences-other c d s p = ground arith

-- The last sentence keeps its dot.
split_sentences-last :
    (s : JsString) → HasNoDot s → split_sentences (full_stop s) ≡ full_stop s ∷ []
unfolding split_sentences
split_sentences-last [] h = refl
split_sentences-last (c ∷ []) (p, h) = ground arith
split_sentences-last (c ∷ d ∷ s) (p, h) = ground (arith, split_sentences-last (d ∷ s) h)

split_sentences-append :
    (s t : JsString) → HasNoDot s → split_sentences (s ++ (46 ∷ 32 ∷ t)) ≡ s ∷ split_sentences t
unfolding split_sentences
split_sentences-append [] t h = refl
split_sentences-append (c ∷ []) t (p, h) = split_sentences-other c 46 (32 ∷ t) p
split_sentences-append (c ∷ d ∷ s) t (p, h) =
    split_sentences-other c d (s ++ (46 ∷ 32 ∷ t)) p
    ∙ ap (on_head c) (split_sentences-append (d ∷ s) t h)

close_sentence-plain : (s : JsString) → HasNoDot s → close_sentence s ≡ full_stop s
unfolding close_sentence
close_sentence-plain s h = ground (arith, ends_with_dot-plain s h)

close_sentence-full_stop : (s : JsString) → close_sentence (full_stop s) ≡ full_stop s
unfolding close_sentence
close_sentence-full_stop s = ground (arith, ends_with_dot-append s)

lines :
    (s : JsString) (ss : List JsString)
    → HasNoDot s
    → All HasNoDot ss
    → storylist (tell (s ∷ ss)) ≡ map full_stop (s ∷ ss)
unfolding storylist join
lines s [] h hs =
    ap (map close_sentence) (split_sentences-last s h)
    ∙ ap (λ (t : JsString). t ∷ []) (close_sentence-full_stop s)
lines s (t ∷ ss) h (k, hs) =
    let rest : JsString = tell (t ∷ ss) in
    ap (λ (u : JsString). map close_sentence (split_sentences u))
      (append_assoc s (46 ∷ []) (32 ∷ rest))
    ∙ ap (map close_sentence) (split_sentences-append s rest h)
    ∙ ap₂ ◌∷◌ (close_sentence-plain s h) (lines t ss k hs)

-- A story is shown as its sentences, each with its dot, and joining the lines by spaces, as is done
-- before they are sent, gives the story back.
pub storylist-tell :
    (s : JsString) (ss : List JsString)
    → HasNoDot s
    → All HasNoDot ss
    → (storylist (tell (s ∷ ss)) ≡ map full_stop (s ∷ ss))
      × (join (32 ∷ []) (storylist (tell (s ∷ ss))) ≡ tell (s ∷ ss))
storylist-tell s ss h hs = (lines s ss h hs, ap (join (32 ∷ [])) (lines s ss h hs))
