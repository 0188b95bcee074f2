-- ===== src/Daemon/Paths.antt =====
-- The directories of the client, `getConfigDir`, `getRuntimeDir`, `getSocketAddress` of
-- client/gui/src/main/daemon.ts and `setupLogger` of client/gui/src/main/main.ts. An environment
-- variable is an option; `path.join` is a parameter. `none` stands for an error thrown, or for
-- `exit(1)`.
use anysphere_messaging.Common.{
  JsString, text, ◌++◌, List, [], ◌∷◌, Option, none, some, ◌≡◌, ◌↔◌, arith,
}

pub record Env : Type 0 where
  pub xdg_runtime_dir : Option JsString
  pub xdg_config_home : Option JsString
  pub xdg_cache_home : Option JsString
  pub home : Option JsString

module _ (path_join : List JsString → JsString) where
  unfoldable pub get_config_dir : Env → Option JsString
  unfolding text
  get_config_dir env = elim env.xdg_config_home [
    | some dir ↦ some (path_join (dir ∷ text "anysphere" ∷ []))
    | none ↦ elim env.home [
      | some dir ↦ some (path_join (dir ∷ text ".anysphere" ∷ []))
      | none ↦ none
    ]
  ]

  unfoldable pub get_runtime_dir : Env → Option JsString
  unfolding text get_config_dir
  get_runtime_dir env = elim env.xdg_runtime_dir [
    | some dir ↦ some (path_join (dir ∷ text "anysphere" ∷ []))
    | none ↦ elim (get_config_dir env) [
      | some dir ↦ some (path_join (dir ∷ text "run" ∷ []))
      | none ↦ none
    ]
  ]

  unfoldable pub get_socket_path : Env → Option JsString
  unfolding text get_runtime_dir
  get_socket_path env = elim (get_runtime_dir env) [
    | some dir ↦ some (path_join (dir ∷ text "anysphere.sock" ∷ []))
    | none ↦ none
  ]

  unfoldable pub get_socket_address : Env → Option JsString
  unfolding text get_socket_path
  get_socket_address env = elim (get_socket_path env) [
    | some path ↦ some (text "unix://" ++ path)
    | none ↦ none
  ]

  -- `setupLogger`, up to the directory of the logs.
  unfoldable pub log_path : Env → Option JsString
  unfolding text
  log_path env = elim env.xdg_cache_home [
    | some dir ↦ some (path_join (dir ∷ text "anysphere" ∷ text "logs" ∷ []))
    | none ↦ elim env.home [
      | some dir ↦ some (path_join (dir ∷ text ".anysphere" ∷ text "cache" ∷ text "logs" ∷ []))
      | none ↦ none
    ]
  ]

  -- The client finds the daemon's socket unless all three of `XDG_RUNTIME_DIR`,
  -- `XDG_CONFIG_HOME` and `HOME` are missing.
  pub get_socket_address-eq-none_iff :
      (env : Env)
      → (get_socket_address env ≡ none)
        ↔ ((env.xdg_runtime_dir ≡ none) × (env.xdg_config_home ≡ none) × (env.home ≡ none))
  unfolding get_socket_address get_socket_path get_runtime_dir get_config_dir
  get_socket_address-eq-none_iff env = ground arith
