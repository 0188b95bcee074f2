-- ===== src/Startup/Running.antt =====
-- How a list of steps runs to its end.
use anysphere_messaging.Common.{
  ◌≡◌, ◌≢◌, ◌↔◌, refl, sym, ap, ◌∙◌, arith, true, false, List, [], ◌∷◌,
}
use mathlib.Core.Path.{subst}
use anysphere_messaging.Startup.{
  Step, lenient, strict, attempt, write_file, Answer, rejected, stderr, Machine, Ending, finished,
  exited, threw, and_then, after_exec, run_step, run_steps,
}

-- Whether the function goes on after a step, from the machine alone.
unfoldable pub GoesOn : {W : Type 0} → Machine W → Step → W → Type 0
GoesOn m (lenient c) w = (m.exec c w).0 ≢ rejected
GoesOn m (strict c) w = (m.exec c w).0 ≡ stderr []
GoesOn m (attempt c) w = Unit {0}
GoesOn m (write_file path contents) w = (m.write path contents w).0 ≡ false

-- The state after a step, whatever is answered.
unfoldable pub state_after : {W : Type 0} → Machine W → Step → W → W
state_after m (lenient c) w = (m.exec c w).1
state_after m (strict c) w = (m.exec c w).1
state_after m (attempt c) w = (m.exec c w).1
state_after m (write_file path contents) w = (m.write path contents w).1

unfoldable pub Completes : {W : Type 0} → Machine W → List Step → W → Type 0
unfolding GoesOn state_after
Completes m [] w = Unit {0}
Completes m (s ∷ steps) w = GoesOn m s w × Completes m steps (state_after m s w)

unfoldable pub state_after_all : {W : Type 0} → Machine W → List Step → W → W
unfolding state_after
state_after_all m [] w = w
state_after_all m (s ∷ steps) w = state_after_all m steps (state_after m s w)

after_exec_lenient : (a : Answer) → (after_exec false a ≡ finished) ↔ (a ≢ rejected)
unfolding after_exec
after_exec_lenient rejected = (λ e. cc, λ h. absurd (h refl))
after_exec_lenient (stderr s) = (λ e q. cc, λ h. ground arith)

after_exec_strict : (a : Answer) → (after_exec true a ≡ finished) ↔ (a ≡ stderr [])
unfolding after_exec
after_exec_strict rejected = (λ e. cc, λ h. cc)
after_exec_strict (stderr []) = (λ e. refl, λ h. refl)
after_exec_strict (stderr (x ∷ s)) = (λ e. ground arith, λ h. cc)

run_step-GoesOn :
    {W : Type 0} (m : Machine W) (s : Step) (w : W) → ((run_step m s w).0 ≡ finished) ↔ GoesOn m s w
unfolding run_step GoesOn
run_step-GoesOn m (lenient c) w = after_exec_lenient (m.exec c w).0
run_step-GoesOn m (strict c) w = after_exec_strict (m.exec c w).0
run_step-GoesOn m (attempt c) w = (λ e. tt, λ h. refl)
run_step-GoesOn m (write_file path contents) w = ground arith

run_step-state_after :
    {W : Type 0} (m : Machine W) (s : Step) (w : W) → (run_step m s w).1 ≡ state_after m s w
unfolding run_step state_after
run_step-state_after m (lenient c) w = refl
run_step-state_after m (strict c) w = refl
run_step-state_after m (attempt c) w = refl
run_step-state_after m (write_file path contents) w = refl

and_then-eq-finished_iff :
    {W : Type 0} (e : Ending) (rest : Ending × W) (w : W)
    → ((and_then e rest w).0 ≡ finished) ↔ ((e ≡ finished) × (rest.0 ≡ finished))
unfolding and_then
and_then-eq-finished_iff finished rest w = (λ h. (refl, h), λ h. h.1)
and_then-eq-finished_iff exited rest w = (λ h. cc, λ h. cc)
and_then-eq-finished_iff threw rest w = (λ h. cc, λ h. cc)

and_then-state :
    {W : Type 0} (e : Ending) (rest : Ending × W) (w : W)
    → e ≡ finished
    → (and_then e rest w).1 ≡ rest.1
unfolding and_then
and_then-state finished rest w h = refl
and_then-state exited rest w h = cc
and_then-state threw rest w h = cc

-- The steps run to the end exactly if every command and every file does what its step asks of it,
-- each in the state that the steps before it leave; the state is then the one after all of them.
pub run_steps-eq-finished_iff :
    {W : Type 0} (m : Machine W) (steps : List Step) (w : W)
    → (((run_steps m steps w).0 ≡ finished) ↔ Completes m steps w)
      × (Completes m steps w → (run_steps m steps w).1 ≡ state_after_all m steps w)
unfolding Completes state_after_all run_steps
run_steps-eq-finished_iff m [] w = ((λ e. tt, λ h. refl), λ h. refl)
run_steps-eq-finished_iff m (s ∷ steps) w =
    let later = (run_step m s w).1 in
    let ih = run_steps-eq-finished_iff m steps later in
    let same = run_step-state_after m s w in
    let both = and_then-eq-finished_iff (run_step m s w).0 (run_steps m steps later) later in
    let here = run_step-GoesOn m s w in
    (
      (
        λ e. (here.0 (both.0 e).0, subst (Completes m steps) same (ih.0.0 (both.0 e).1)),
        λ h. both.1 (here.1 h.0, ih.0.1 (subst (Completes m steps) (sym same) h.1)),
      ),
      λ h.
          and_then-state (run_step m s w).0 (run_steps m steps later) later (here.1 h.0)
          ∙ (ih.1 (subst (Completes m steps) (sym same) h.1) ∙ ap (state_after_all m steps) same),
    )
