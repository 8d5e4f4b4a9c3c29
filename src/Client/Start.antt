-- ===== src/Client/Start.antt =====
-- client/main.c: main, with what its calls return.
use tcpremote_device_control.Base.{
  Bool, true, false, not, if◌then◌else◌, List, [], ◌∷◌, Option, none, some, Bytes, ℤ,
}
use tcpremote_device_control.Config.{AppConfig}
use tcpremote_device_control.Config.File.{load_app_config_file}
use tcpremote_device_control.Client.{
  connecting, connected, Polled, Ended, exited, after, run_console,
}

-- Whether socket, inet_pton and connect succeed.
pub record ConnectCalls : Type 0 where
  pub socket : Bool
  pub inet_pton : Bool
  pub connect : Bool

abbrev pub connect_to_server : ConnectCalls → AppConfig → List Polled → Ended
connect_to_server calls app ps =
    if not calls.socket
    then exited []
    else if not calls.inet_pton
    then exited []
    else if not calls.connect
    then exited (connecting app.addr app.port ∷ [])
    else after (connecting app.addr app.port ∷ connected ∷ []) (run_console ps)

-- `none` is a fault in load_app_config.
abbrev pub configured : ConnectCalls → Option (Bool × AppConfig) → List Polled → Option Ended
configured calls none ps = none
configured calls (some (false, app)) ps = some (exited [])
configured calls (some (true, app)) ps = some (connect_to_server calls app ps)

-- The file is the contents of "config.ini", where it can be opened.
unfoldable pub client_main :
    (Bytes → ℤ) → Option Bytes → AppConfig → ConnectCalls → List Polled → Option Ended
unfolding load_app_config_file run_console
client_main atoi file app calls ps = configured calls (load_app_config_file atoi file app) ps
