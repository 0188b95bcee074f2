-- ===== src/Startup/Tests.antt =====
-- A machine that counts what is done to it and on which everything succeeds.
use anysphere_messaging.Common.{
  ℕ, suc, ◌≡◌, refl, true, false, JsString, text, List, [], ◌∷◌, none, some, join, str_eq,
}
use anysphere_messaging.Daemon.Schema.{Outcome, GetStatusResponse, call_error, resolved}
use anysphere_messaging.Daemon.Paths.{Env, get_config_dir}
use anysphere_messaging.Startup.{
  Machine, stderr, finished, linux, after_exec, and_then, run_step, run_steps, is_current,
  linux_steps, steps_on, start_daemon_if_needed,
}
use anysphere_messaging.Startup.Running.{Completes}
use anysphere_messaging.Startup.Starting.{start_daemon_if_needed-linux}

abbrev quiet : Machine ℕ
quiet = record { exec = λ c n. (stderr [], suc n); write = λ path contents n. (false, suc n) }

abbrev env : Env
env = record {
  xdg_runtime_dir = none;
  xdg_config_home = none;
  xdg_cache_home = none;
  home = some (text "/home/a");
}

abbrev slash : List JsString → JsString
slash parts = join (text "/") parts

abbrev no_daemon : Outcome GetStatusResponse
no_daemon = call_error 14

abbrev old_daemon : Outcome GetStatusResponse
old_daemon = resolved (record {
  registered = true;
  release_hash = text "0000";
  latency_seconds = 60;
  server_address = text "server1";
})

is_current_test : is_current (text "1b24") old_daemon ≡ false
unfolding is_current text str_eq
is_current_test = refl

no_daemon-old : is_current (text "1b24") no_daemon ≡ false
unfolding is_current
no_daemon-old = refl

env-config : get_config_dir slash env ≡ some (slash (text "/home/a" ∷ text ".anysphere" ∷ []))
unfolding get_config_dir
env-config = refl

quiet-finished :
    (start_daemon_if_needed slash
      (λ d. d)
      quiet
      (text "1b24")
      false
      linux
      env
      (some (text "/app"))
      []
      (text "/logs")
      no_daemon
      0).0
    ≡ finished
unfolding start_daemon_if_needed is_current steps_on get_config_dir linux_steps run_steps run_step
    and_then after_exec
quiet-finished = refl

start_daemon_if_needed-linux_example :
    Completes quiet
      (linux_steps slash
        (λ d. d)
        (text "/app")
        (slash (text "/home/a" ∷ text ".anysphere" ∷ []))
        (text "/logs"))
      0
    × ((v : ℕ) × (quiet.exec (text "systemctl start --user co.anysphere.anysphered.service") v ≡ (
      stderr [],
      (start_daemon_if_needed slash
          (λ d. d)
          quiet
          (text "1b24")
          false
          linux
          env
          (some (text "/app"))
          []
          (text "/logs")
          no_daemon
          0).1,
    )))
start_daemon_if_needed-linux_example =
    start_daemon_if_needed-linux slash (λ d. d) quiet (text "1b24") env (text "/app")
      (slash (text "/home/a" ∷ text ".anysphere" ∷ [])) [] (text "/logs") no_daemon 0 no_daemon-old
      env-config quiet-finished
