-- ===== src/Startup/Files.antt =====
-- The files that start the daemon with the user's session: `PLIST_PATH`, `PLIST_CONTENTS` and
-- `SYSTEMD_UNIT_CONTENTS` of client/gui/src/main/constants.ts. `none` stands for `exit(1)`.
use anysphere_messaging.Common.{
  Bool, JsString, text, List, [], ◌∷◌, ◌++◌, Option, none, some, if◌then◌else◌,
}
use anysphere_messaging.Daemon.Paths.{Env}

unfoldable pub plist_path : (List JsString → JsString) → Bool → Env → Option JsString
unfolding text
plist_path path_join is_darwin env =
    if is_darwin
    then elim env.home [
      | none ↦ none
      | some home ↦ some (
          path_join (
            home
            ∷ text "Library"
            ∷ text "LaunchAgents"
            ∷ text "co.anysphere.anysphered.plist"
            ∷ []))
    ]
    else none

unfoldable pub plist_contents : JsString → JsString → JsString
unfolding text
plist_contents pkg_path log_path =
    text
      "<?xml version=\"1.0\" encoding=\"UTF-8\"?>\n<!DOCTYPE plist PUBLIC \"-//Apple//DTD PLIST 1.0//EN\" \"http://www.apple.com/DTDs/PropertyList-1.0.dtd\">\n<plist version=\"1.0\">\n<dict>\n    <key>Label</key>\n    <string>co.anysphere.anysphered</string>\n    <key>Program</key>\n    <string>"
    ++ (pkg_path
        ++ (text
              "/bin/anysphered</string>\n    <key>RunAtLoad</key>\n    <true/>\n    <key>KeepAlive</key>\n    <true/>\n    <key>StandardOutPath</key>\n    <string>"
            ++ (log_path
                ++ (text "/anysphered.log</string>\n    <key>StandardErrorPath</key>\n    <string>"
                    ++ (log_path ++ text "/anysphered.err</string>\n</dict>\n</plist>")))))

unfoldable pub systemd_unit_contents : JsString → JsString → JsString
unfolding text
systemd_unit_contents pkg_path log_path =
    text
      "[Unit]\nDescription=Anysphere daemon.\nAfter=network.target\n\n[Service]\nType=simple\nWorkingDirectory=~\nExecStart="
    ++ (pkg_path
        ++ (text "/anysphered\nStandardOutput=append:"
            ++ (log_path
                ++ (text "/anysphered.log\nStandardError=append:"
                    ++ (log_path
                        ++ text
                            "/anysphered.err\nRestart=always\nRestartSec=10\n\n[Install]\nWantedBy=multi-user.target")))))
