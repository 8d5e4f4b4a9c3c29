-- ===== src/Tests/Consoles.antt =====
-- Lines typed at the console.
use tcpremote_device_control.Base.{
  ◌≡◌, refl, true, false, [], ◌∷◌, ◌++◌, some, pos, Bytes, codes, arith, equal_nocase, to_lower,
}
use tcpremote_device_control.Command.{command_parse}
use tcpremote_device_control.Client.{
  echo, sends, trim_newline, is_blank, handle_local_command, command_of, typed, goes_on,
  console_round,
}
use tcpremote_device_control.Config.{load_app_config, read_trimmed, trim, skip_space, cut_end}
use tcpremote_device_control.Config.File.{app, load_app_config_file}
use tcpremote_device_control.Client.{exited, connecting}
use tcpremote_device_control.Client.Start.{client_main}
use tcpremote_device_control.Client.Lines.{typed-parses}
use tcpremote_device_control.Client.{print_server_response}
use tcpremote_device_control.Client.Colors.{IsPainted, exec_command-IsPainted}
use tcpremote_device_control.Execute.{exec_command}
use tcpremote_device_control.Tests.Requests.{lamp}

abbrev keyed : Bytes
keyed = codes "led on" ++ 13 ∷ 10 ∷ []

typed-parses_example :
    (console_round (typed keyed true)
      ≡ goes_on (echo (codes "led on") ∷ sends (codes "led on" ++ 10 ∷ []) ∷ []))
    × (command_parse (some (codes "led on" ++ 10 ∷ [])) ≡ command_parse (some keyed))
unfolding trim_newline is_blank handle_local_command command_of equal_nocase to_lower
typed-parses_example = typed-parses keyed keyed refl (omega arith) refl refl

exec_command-IsPainted_example :
    (let reply = (exec_command lamp (codes "led on") (pos 0)).reply in
      IsPainted reply (print_server_response reply))
exec_command-IsPainted_example = exec_command-IsPainted lamp (codes "led on") (pos 0)

-- The settings are read, the server refuses the connection, and the client gives up.
refused_test :
    client_main
      (λ s. pos 0)
      (some (codes "# nothing"))
      app
      (record { socket = true; inet_pton = true; connect = false })
      []
    ≡ some (exited (connecting (codes "127.0.0.1") (pos 60000) ∷ []))
unfolding client_main load_app_config_file load_app_config read_trimmed trim skip_space cut_end
refused_test = refl
