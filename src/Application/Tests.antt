-- ===== src/Application/Tests.antt =====
-- The application on macOS.
use anysphere_messaging.Common.{◌≡◌, refl, List, [], ◌∷◌, ◌++◌, JsString, text, none, some}
use anysphere_messaging.Daemon.Paths.{log_path}
use anysphere_messaging.Startup.{darwin}
use anysphere_messaging.Links.{load_url, last_segment}
use anysphere_messaging.Application.Lifetime.{IsSound, run-launched-IsSound}
use anysphere_messaging.Application.Links.{opens_url-becomes_ready}
use anysphere_messaging.Application.{
  Machine, launched, becomes_ready, quits, opens_url, navigates, run,
}

abbrev join_all : List JsString → JsString
join_all [] = []
join_all (p ∷ ps) = p ++ (47 ∷ join_all ps)

abbrev mac : Machine
mac = record {
  pages = record {
    node_env = none;
    port = none;
    dirname = text "/app/main";
    path_resolve = join_all;
    with_pathname = λ origin name. origin ++ name;
    get_public_id = λ href. none;
  };
  makes_window = λ is_ready. is_ready;
  path_join = join_all;
  read_dir = λ dir. none;
  platform = darwin;
  env = record {
    xdg_runtime_dir = none;
    xdg_config_home = none;
    xdg_cache_home = none;
    home = some (text "/home");
  };
  appdir = none;
}

abbrev logs : JsString
logs = join_all (text "/home" ∷ text ".anysphere" ∷ text "cache" ∷ text "logs" ∷ [])

logs-known : log_path mac.path_join mac.env ≡ some logs
unfolding log_path
logs-known = refl

run-launched-IsSound_example : IsSound mac (
    run mac
      (becomes_ready
        ∷ opens_url (text "anysphere://85dG")
        ∷ navigates (text "https://a.b")
        ∷ quits
        ∷ [])
      launched)
run-launched-IsSound_example = run-launched-IsSound mac refl (
    becomes_ready
    ∷ opens_url (text "anysphere://85dG")
    ∷ navigates (text "https://a.b")
    ∷ quits
    ∷ [])

opens_url-becomes_ready_example :
    let url = text "anysphere://85dG" in
    ((run mac (opens_url url ∷ becomes_ready ∷ []) launched).windows ≡ load_url mac.pages none ∷ [])
    × ((run mac (becomes_ready ∷ opens_url url ∷ []) launched).windows
        ≡ load_url mac.pages (some (last_segment url)) ∷ [])
opens_url-becomes_ready_example =
    opens_url-becomes_ready mac (text "anysphere://85dG") logs refl refl refl logs-known
