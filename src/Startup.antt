-- ===== src/Startup.antt =====
-- How the client starts the daemon: `startDaemonIfNeeded` of client/gui/src/main/main.ts with the
-- files of client/gui/src/main/constants.ts. A shell command (`exec`) and the writing of a file are
-- a parameter, any function on the state of the machine; so are `path.join` and `path.dirname`. The
-- console is not modelled.
pub mod Files
pub mod Running
pub mod Starting
mod Tests
use anysphere_messaging.Common.{
  Bool, true, false, JsString, text, List, [], ◌∷◌, ◌++◌, Option, none, some, str_eq, length, ◌==◌,
  if◌then◌else◌,
}
use anysphere_messaging.Daemon.Schema.{
  GetStatusResponse, Outcome, call_error, returned_undefined, resolved,
}
use anysphere_messaging.Daemon.Paths.{Env, get_config_dir}
use anysphere_messaging.Startup.Files.{plist_path, plist_contents, systemd_unit_contents}

-- What the function does on the machine, and how it takes an answer on stderr: `lenient` logs it,
-- `strict` exits. `attempt` is a command within `try`, whose failure is ignored.
pub data Step : Type 0 where
  lenient strict attempt : JsString → Step
  write_file : JsString → JsString → Step

-- A rejected promise, or what the command wrote to stderr.
pub data Answer : Type 0 where
  rejected : Answer
  stderr : JsString → Answer

pub record Machine (W : Type 0) : Type 0 where
  pub exec : JsString → W → Answer × W
  -- Whether the promise is rejected.
  pub write : JsString → JsString → W → Bool × W

pub data Ending : Type 0 where
  finished exited threw : Ending

-- Whether the function goes on after a command, by the step and the answer.
unfoldable pub after_exec : Bool → Answer → Ending
after_exec is_strict rejected = threw
after_exec is_strict (stderr s) =
    if length s == 0 then finished else if is_strict then exited else finished

unfoldable pub run_step : {W : Type 0} → Machine W → Step → W → Ending × W
unfolding after_exec
run_step m (lenient c) w = let (answer, later) = m.exec c w in (after_exec false answer, later)
run_step m (strict c) w = let (answer, later) = m.exec c w in (after_exec true answer, later)
run_step m (attempt c) w = (finished, (m.exec c w).1)
run_step m (write_file path contents) w =
    let (failed, later) = m.write path contents w in (if failed then threw else finished, later)

-- What follows a step, if the step does not end the function.
unfoldable pub and_then : {W : Type 0} → Ending → Ending × W → W → Ending × W
and_then finished rest w = rest
and_then exited rest w = (exited, w)
and_then threw rest w = (threw, w)

-- The steps in order, up to the first that ends the function.
unfoldable pub run_steps : {W : Type 0} → Machine W → List Step → W → Ending × W
unfolding run_step and_then
run_steps m [] w = (finished, w)
run_steps m (s ∷ steps) w =
    let rest = run_steps m steps (run_step m s w).1 in
    and_then (run_step m s w).0 rest (run_step m s w).1

pub data Platform : Type 0 where
  darwin linux other : Platform

-- Whether the daemon answers with the hash of this release.
unfoldable pub is_current : JsString → Outcome GetStatusResponse → Bool
is_current release_commit_hash (resolved r) = str_eq r.release_hash release_commit_hash
is_current release_commit_hash (call_error _) = false
is_current release_commit_hash (returned_undefined _) = false

module _ (path_join : List JsString → JsString) (dirname : JsString → JsString) where
  -- The branch for macOS, for the path of the property list.
  unfoldable pub darwin_steps : JsString → JsString → JsString → List Step
  unfolding text plist_contents
  darwin_steps plist pkg_path log_path =
      lenient (text "mkdir -p " ++ dirname plist)
      ∷ attempt (text "launchctl unload " ++ plist)
      ∷ write_file plist (plist_contents pkg_path log_path)
      ∷ strict (text "launchctl load " ++ plist)
      ∷ []

  -- The branch for Linux, for `APPDIR` and the configuration directory.
  unfoldable pub linux_steps : JsString → JsString → JsString → List Step
  unfolding text systemd_unit_contents
  linux_steps appdir config_dir log_path =
      let daemon_path =
        path_join (appdir ∷ text "resources" ∷ text "x64" ∷ text "anysphered" ∷ []) in
      let new_daemon_path = path_join (config_dir ∷ text "anysphered" ∷ []) in
      let cli_path = path_join (appdir ∷ text "resources" ∷ text "x64" ∷ text "anysphere" ∷ []) in
      let new_cli_path = path_join (config_dir ∷ text "anysphere" ∷ []) in
      let service_path = path_join (config_dir ∷ text "co.anysphere.anysphered.service" ∷ []) in
      lenient (text "mkdir -p " ++ config_dir)
      ∷ lenient (text "cp " ++ (daemon_path ++ (text " " ++ new_daemon_path)))
      ∷ lenient (text "cp " ++ (cli_path ++ (text " " ++ new_cli_path)))
      ∷ lenient (text "chmod u+w " ++ new_daemon_path)
      ∷ lenient (text "chmod u+w " ++ new_cli_path)
      ∷ lenient (text "mkdir -p " ++ dirname service_path)
      ∷ attempt (text "systemctl stop --user co.anysphere.anysphered.service")
      ∷ write_file service_path (systemd_unit_contents config_dir log_path)
      ∷ lenient (text "systemctl --user daemon-reload")
      ∷ strict (text "systemctl enable --now --user " ++ service_path)
      ∷ strict (text "systemctl start --user co.anysphere.anysphered.service")
      ∷ []

  -- The steps on a platform, or the way the function ends before the first of them: without
  -- `APPDIR` or `HOME` it exits, and without a configuration directory it throws.
  unfoldable pub steps_on :
      Platform → Env → Option JsString → JsString → JsString → Ending × List Step
  unfolding plist_path get_config_dir darwin_steps linux_steps
  steps_on darwin env appdir pkg_path log_path = elim (plist_path path_join true env) [
    | none ↦ (exited, [])
    | some plist ↦ (finished, darwin_steps plist pkg_path log_path)
  ]
  steps_on linux env none pkg_path log_path = (exited, [])
  steps_on linux env (some dir) pkg_path log_path = elim (get_config_dir path_join env) [
    | none ↦ (threw, [])
    | some config_dir ↦ (finished, linux_steps dir config_dir log_path)
  ]
  steps_on other env appdir pkg_path log_path = (finished, [])

  -- `startDaemonIfNeeded`, once `getStatus` has settled.
  unfoldable pub start_daemon_if_needed :
      {W : Type 0}
      → Machine W
      → JsString
      → Bool
      → Platform
      → Env
      → Option JsString
      → JsString
      → JsString
      → Outcome GetStatusResponse
      → W
      → Ending × W
  unfolding is_current steps_on run_steps
  start_daemon_if_needed m release_commit_hash is_development platform env appdir pkg_path log_path
        status w =
      if is_current release_commit_hash status
      then (finished, w)
      else if is_development
      then (finished, w)
      else let (before, steps) = steps_on platform env appdir pkg_path log_path in
        elim before [ finished ↦ run_steps m steps w | exited ↦ (exited, w) | threw ↦ (threw, w) ]
