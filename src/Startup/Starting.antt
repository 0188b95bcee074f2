-- ===== src/Startup/Starting.antt =====
-- When the client leaves the daemon alone, and when it has started it.
use anysphere_messaging.Common.{
  ◌≡◌, ◌⊎◌, inl, inr, refl, sym, ap, ◌∙◌, arith, Bool, true, false, JsString, text, List, [], ◌∷◌,
  Option, some,
}
use mathlib.Core.Path.{subst}
use anysphere_messaging.Daemon.Schema.{GetStatusResponse, Outcome}
use anysphere_messaging.Daemon.Paths.{Env, get_config_dir}
use anysphere_messaging.Startup.{
  Step, strict, stderr, Machine, Ending, finished, exited, threw, run_steps, Platform, linux, other,
  linux_steps, steps_on, is_current, start_daemon_if_needed,
}
use anysphere_messaging.Startup.Running.{
  GoesOn, Completes, state_after, state_after_all, run_steps-eq-finished_iff,
}

abbrev EndsIn : JsString → List Step → Type 0
EndsIn c [] = ⊥
EndsIn c (s ∷ []) = s ≡ strict c
EndsIn c (s ∷ t ∷ steps) = EndsIn c (t ∷ steps)

state_after_all-last :
    {W : Type 0} (m : Machine W) (steps : List Step) (c : JsString) (w : W)
    → EndsIn c steps
    → Completes m steps w
    → (v : W) × (m.exec c v ≡ (stderr [], state_after_all m steps w))
unfolding Completes GoesOn state_after_all state_after
state_after_all-last m [] c w q h = absurd q
state_after_all-last m (s ∷ []) c w q h =
    (w, last (subst (λ t. GoesOn m t w) q h.0) ∙ ap (λ t. (stderr [], state_after m t w)) (sym q))
  where
    last : (m.exec c w).0 ≡ stderr [] → m.exec c w ≡ (stderr [], (m.exec c w).1)
    last e = ap (λ a. (a, (m.exec c w).1)) e
state_after_all-last m (s ∷ t ∷ steps) c w q h =
    state_after_all-last m (t ∷ steps) c (state_after m s w) q h.1

run_steps-last :
    {W : Type 0} (m : Machine W) (steps : List Step) (c : JsString) (w : W)
    → EndsIn c steps
    → (run_steps m steps w).0 ≡ finished
    → (v : W) × (m.exec c v ≡ (stderr [], (run_steps m steps w).1))
run_steps-last m steps c w q e =
    let laws = run_steps-eq-finished_iff m steps w in
    let (v, p) = state_after_all-last m steps c w q (laws.0.0 e) in
    (v, p ∙ ap (λ t. (stderr [], t)) (sym (laws.1 (laws.0.0 e))))

-- If a daemon of this release answers, in development, and on a platform other than macOS and
-- Linux, the machine is left as it is and the function returns.
pub start_daemon_if_needed-idle :
    {W : Type 0} (path_join : List JsString → JsString) (dirname : JsString → JsString)
    (m : Machine W) (hash : JsString) (is_development : Bool) (platform : Platform) (env : Env)
    (appdir : Option JsString) (pkg_path log_path : JsString) (status : Outcome GetStatusResponse)
    (w : W)
    → ((is_current hash status ≡ true) ⊎ (is_development ≡ true)) ⊎ (platform ≡ other)
    → start_daemon_if_needed path_join dirname m hash is_development platform env appdir pkg_path
        log_path status w
      ≡ (finished, w)
unfolding start_daemon_if_needed steps_on run_steps
start_daemon_if_needed-idle path_join dirname m hash d p env appdir pkg_path log_path status w
      (inl (inl h)) =
    ground arith
start_daemon_if_needed-idle path_join dirname m hash d p env appdir pkg_path log_path status w
      (inl (inr h)) =
    ground arith
start_daemon_if_needed-idle path_join dirname m hash d p env appdir pkg_path log_path status w
      (inr h) =
    rw h (ground arith)

steps_on-linux :
    (path_join : List JsString → JsString) (dirname : JsString → JsString) (env : Env)
    (dir config_dir pkg_path log_path : JsString)
    → get_config_dir path_join env ≡ some config_dir
    → steps_on path_join dirname linux env (some dir) pkg_path log_path
      ≡ (finished, linux_steps path_join dirname dir config_dir log_path)
unfolding steps_on
steps_on-linux path_join dirname env dir config_dir pkg_path log_path k = ground arith

runs :
    {W : Type 0} (path_join : List JsString → JsString) (dirname : JsString → JsString)
    (m : Machine W) (hash : JsString) (env : Env) (dir config_dir : JsString)
    (pkg_path log_path : JsString) (status : Outcome GetStatusResponse) (w : W)
    → is_current hash status ≡ false
    → get_config_dir path_join env ≡ some config_dir
    → start_daemon_if_needed path_join dirname m hash false linux env
        (some dir)
        pkg_path
        log_path
        status
        w
      ≡ run_steps m (linux_steps path_join dirname dir config_dir log_path) w
unfolding start_daemon_if_needed
runs path_join dirname m hash env dir config_dir pkg_path log_path status w h k =
    let found = steps_on-linux path_join dirname env dir config_dir pkg_path log_path k in
    rw h (
      ap
        (λ (p : Ending × List Step). elim p.0 [
          | finished ↦ run_steps m p.1 w
          | exited ↦ (exited, w)
          | threw ↦ (threw, w)
        ])
        found)

-- In a release on Linux, with `APPDIR` and a configuration directory and no daemon of this release
-- that answers: if the function returns, every step was taken in order as it asks, and the last one
-- was `systemctl start`, which wrote nothing to stderr.
pub start_daemon_if_needed-linux :
    {W : Type 0} (path_join : List JsString → JsString) (dirname : JsString → JsString)
    (m : Machine W) (hash : JsString) (env : Env) (dir config_dir : JsString)
    (pkg_path log_path : JsString) (status : Outcome GetStatusResponse) (w : W)
    → is_current hash status ≡ false
    → get_config_dir path_join env ≡ some config_dir
    → (start_daemon_if_needed path_join dirname m hash false linux env
        (some dir)
        pkg_path
        log_path
        status
        w).0
      ≡ finished
    → Completes m (linux_steps path_join dirname dir config_dir log_path) w
      × ((v : W) × (m.exec (text "systemctl start --user co.anysphere.anysphered.service") v ≡ (
        stderr [],
        (start_daemon_if_needed path_join dirname m hash false linux env
            (some dir)
            pkg_path
            log_path
            status
            w).1,
      )))
unfolding linux_steps
start_daemon_if_needed-linux path_join dirname m hash env dir config_dir pkg_path log_path status w
      h k e =
    let same = runs path_join dirname m hash env dir config_dir pkg_path log_path status w h k in
    let steps = linux_steps path_join dirname dir config_dir log_path in
    let e' : (run_steps m steps w).0 ≡ finished = subst (λ r. r.0 ≡ finished) same e in
    (
      (run_steps-eq-finished_iff m steps w).0.0 e',
      subst
          (λ r.
            (v : _) × (m.exec (text "systemctl start --user co.anysphere.anysphered.service") v
              ≡ (stderr [], r.1)))
          (sym same) (run_steps-last m steps _ w refl e'),
    )
