-- ===== src/Tests/Requests.antt =====
-- Requests against devices that record the calls.
use tcpremote_device_control.Base.{
  ◌≡◌, ◌≤ℤ◌, refl, true, false, [], ◌∷◌, ◌++◌, Bytes, codes, ℤ, pos, negsuc, arith, equal_nocase,
  to_lower,
}
use tcpremote_device_control.Command.{command_parse, parse_copy, match_specs, command_specs}
use tcpremote_device_control.Command.Number.{parse_int_arg, strtol}
use tcpremote_device_control.Execute.{Devices, exec_command}
use tcpremote_device_control.Execute.Pieces.{IsAnswer}
use tcpremote_device_control.Execute.Answers.{exec_command-IsAnswer}
use tcpremote_device_control.Execute.Keeps.{Preserves, exec_command_keeps}

-- The state is the brightness; a dark room.
abbrev pub lamp : Devices ℤ
lamp = record {
  device_led_on = λ s. (pos 0, pos 255);
  device_led_on_bright = λ v s. (pos 0, v);
  device_led_off = λ s. (pos 0, pos 0);
  device_buzzer_music = λ path s. (negsuc 6, s);
  device_buzzer_on = λ s. (pos 0, s);
  device_buzzer_off = λ s. (pos 0, s);
  device_buzzer_beep = λ v s. (pos 0, s);
  device_light_read = λ s. (pos 0, pos 0, s);
  device_segment_display = λ v s. (pos 0, s);
  device_segment_clear = λ s. (pos 0, s);
  device_get_status = λ s. record {
    initialized = true;
    led_on = true;
    buzzer_on = false;
    light_value = negsuc 0;
    segment_enabled = false;
    segment_value = pos 0;
  };
  plugin_get_status = λ s. record {
    led_loaded = true;
    buzzer_loaded = true;
    light_loaded = true;
    segment_loaded = false;
  };
}

abbrev request : Bytes
request = codes "led bright 70" ++ 10 ∷ []

bright_test :
    exec_command lamp request (pos 0)
    ≡ record { reply = codes "OK LED BRIGHT 70" ++ 10 ∷ []; raised = false; devices = pos 70 }
unfolding exec_command command_parse parse_copy match_specs command_specs equal_nocase to_lower
    parse_int_arg strtol
bright_test = refl

exec_command-IsAnswer_example : IsAnswer (exec_command lamp request (pos 0)).reply
exec_command-IsAnswer_example = exec_command-IsAnswer lamp request (pos 0)

abbrev Dimmed : ℤ → Type 0
Dimmed v = (pos 0 ≤ℤ v) × (v ≤ℤ pos 255)

lamp-Preserves : Preserves lamp Dimmed
lamp-Preserves = record {
  led_on_keeps = λ s p. (omega arith, omega arith);
  led_on_bright_keeps = λ v s r p. r;
  led_off_keeps = λ s p. (omega arith, omega arith);
  buzzer_music_keeps = λ path s p. p;
  buzzer_on_keeps = λ s p. p;
  buzzer_off_keeps = λ s p. p;
  buzzer_beep_keeps = λ v s r p. p;
  light_read_keeps = λ s p. p;
  segment_display_keeps = λ v s r p. p;
  segment_clear_keeps = λ s p. p;
}

exec_command_keeps_example : Dimmed (exec_command lamp request (pos 0)).devices
exec_command_keeps_example =
    exec_command_keeps lamp Dimmed lamp-Preserves request (pos 0) (omega arith, omega arith)
