-- ===== src/Execute.antt =====
-- server/parsing.c: the answer to a request line, over an interface of the device manager.
pub mod Ranges
pub mod Pieces
pub mod Answers
pub mod Keeps
use tcpremote_device_control.Base.{
  ℕ, ◌-◌, Bool, true, false, if◌then◌else◌, List, [], ◌∷◌, ◌++◌, some, take, Bytes, codes, ℤ, pos,
  negsuc, eqb_ℤ, show_ℤ,
}
use tcpremote_device_control.DeviceResult.{device_result_message}
use tcpremote_device_control.Command.{
  Command, empty, invalid, invalid_value, help, status, plugin_list, quit, led_on, led_on_bright,
  led_off, buzzer_music, buzzer_on, buzzer_off, buzzer_beep, light_read, seg_display, seg_clear,
  ParsedCommand, command_parse,
}
use tcpremote_device_control.Manager.Commands.{DeviceStatus, PluginStatus}

-- The device manager as this file sees it: each function with its result and what it does to the
-- devices. A result is the number of a DeviceResult, and 0 is OK.
pub record Devices (S : Type 0) : Type 0 where
  pub device_led_on : S → ℤ × S
  pub device_led_on_bright : ℤ → S → ℤ × S
  pub device_led_off : S → ℤ × S
  pub device_buzzer_music : Bytes → S → ℤ × S
  pub device_buzzer_on : S → ℤ × S
  pub device_buzzer_off : S → ℤ × S
  pub device_buzzer_beep : ℤ → S → ℤ × S
  pub device_light_read : S → ℤ × ℤ × S
  pub device_segment_display : ℤ → S → ℤ × S
  pub device_segment_clear : S → ℤ × S
  pub device_get_status : S → DeviceStatus
  pub plugin_get_status : S → PluginStatus

-- The text left in the buffer, whether SIGTERM was raised, and the devices behind it.
pub record Executed (S : Type 0) : Type 0 where
  pub reply : Bytes
  pub raised : Bool
  pub devices : S

abbrev pub buffer_size : ℕ
buffer_size = 1024

-- snprintf (str, BUFFER_SIZE, "...\n", ...), with the text in pieces.
abbrev pub joined : List Bytes → Bytes
joined [] = 10 ∷ []
joined (p ∷ ps) = p ++ joined ps

unfoldable pub line : List Bytes → Bytes
line ps = take (buffer_size - 1) (joined ps)

unfoldable pub write_device_error : ℤ → Bytes
unfolding line device_result_message
write_device_error result = line (codes "ERR DEVICE_ERROR " ∷ device_result_message result ∷ [])

abbrev pub on_off : Bool → Bytes
on_off b = if b then codes "ON" else codes "OFF"

abbrev pub loaded_missing : Bool → Bytes
loaded_missing b = if b then codes "LOADED" else codes "MISSING"

abbrev pub is_ok : ℤ → Bool
is_ok result = eqb_ℤ result (pos 0)

abbrev pub reply_to : ℤ → List Bytes → Bytes
reply_to result text = if is_ok result then line text else write_device_error result

unfoldable pub help_line : Bytes
unfolding line
help_line = line (
    codes "OK COMMANDS: HELP, STATUS, PLUGIN LIST, LED ON|BRIGHT <0-255>|OFF, "
    ∷ codes "BUZZER ON|OFF|BEEP <ms>|MUSIC <file>, LIGHT READ, SEG DISPLAY <0-9>|CLEAR, QUIT"
    ∷ [])

unfoldable pub status_line : DeviceStatus → Bytes
unfolding line show_ℤ
status_line now = line (
    codes "DATA STATUS INIT="
    ∷ on_off now.initialized
    ∷ codes " LED="
    ∷ on_off now.led_on
    ∷ codes " BUZZER="
    ∷ on_off now.buzzer_on
    ∷ codes " LIGHT="
    ∷ show_ℤ now.light_value
    ∷ codes " SEG="
    ∷ on_off now.segment_enabled
    ∷ codes " SEG_VALUE="
    ∷ show_ℤ now.segment_value
    ∷ [])

unfoldable pub plugin_line : PluginStatus → Bytes
unfolding line
plugin_line now = line (
    codes "DATA PLUGINS LED="
    ∷ loaded_missing now.led_loaded
    ∷ codes " BUZZER="
    ∷ loaded_missing now.buzzer_loaded
    ∷ codes " LIGHT="
    ∷ loaded_missing now.light_loaded
    ∷ codes " SEGMENT="
    ∷ loaded_missing now.segment_loaded
    ∷ [])

module _ {S : Type 0} where
  abbrev pub silently : Bytes → S → Executed S
  silently reply s = record { reply = reply; raised = false; devices = s }

  -- `if (result == DEVICE_RESULT_OK) snprintf(...) else write_device_error(...)`
  abbrev pub answered : List Bytes → ℤ × S → Executed S
  answered text (result, s) = silently (reply_to result text) s

module _ {S : Type 0} (d : Devices S) where
  -- The LED follows the light: on in the dark.
  abbrev pub follow_light : ℤ → S → ℤ × S
  follow_light value s =
      if eqb_ℤ value (pos 0)
      then d.device_led_on s
      else if eqb_ℤ value (pos 1)
      then d.device_led_off s
      else (pos 0, s)

  abbrev pub light_text : ℤ → List Bytes
  light_text value =
      codes "DATA LIGHT " ∷ show_ℤ value ∷ codes " LED=" ∷ on_off (eqb_ℤ value (pos 0)) ∷ []

  unfoldable pub read_light : ℤ × ℤ × S → Executed S
  read_light (result, value, s) =
      if is_ok result
      then answered (light_text value) (follow_light value s)
      else silently (write_device_error result) s

  unfoldable pub run_command : Command → ℤ → Bytes → S → Executed S
  unfolding read_light help_line status_line plugin_line
  run_command help value str s = silently help_line s
  run_command status value str s = silently (status_line (d.device_get_status s)) s
  run_command plugin_list value str s = silently (plugin_line (d.plugin_get_status s)) s
  run_command quit value str s = record {
    reply = line (codes "OK QUIT" ∷ []);
    raised = true;
    devices = s;
  }
  run_command led_on value str s = answered (codes "OK LED ON" ∷ []) (d.device_led_on s)
  run_command led_on_bright value str s =
      answered (codes "OK LED BRIGHT " ∷ show_ℤ value ∷ []) (d.device_led_on_bright value s)
  run_command led_off value str s = answered (codes "OK LED OFF" ∷ []) (d.device_led_off s)
  run_command buzzer_music value str s =
      answered (codes "OK BUZZER MUSIC" ∷ []) (d.device_buzzer_music str s)
  run_command buzzer_on value str s = answered (codes "OK BUZZER ON" ∷ []) (d.device_buzzer_on s)
  run_command buzzer_off value str s = answered (codes "OK BUZZER OFF" ∷ []) (d.device_buzzer_off s)
  run_command buzzer_beep value str s =
      answered (codes "OK BUZZER BEEP " ∷ show_ℤ value ∷ []) (d.device_buzzer_beep value s)
  run_command light_read value str s = read_light (d.device_light_read s)
  run_command seg_display value str s =
      answered (codes "OK SEG DISPLAY " ∷ show_ℤ value ∷ []) (d.device_segment_display value s)
  run_command seg_clear value str s =
      answered (codes "OK SEG CLEAR" ∷ []) (d.device_segment_clear s)
  run_command empty value str s = silently (line (codes "ERR EMPTY_COMMAND" ∷ [])) s
  run_command invalid_value value str s = silently (line (codes "ERR INVALID_VALUE" ∷ [])) s
  run_command invalid value str s = silently (line (codes "ERR INVALID_COMMAND" ∷ [])) s

  unfoldable pub exec_command : Bytes → S → Executed S
  unfolding run_command
  exec_command str s =
      let command = command_parse (some str) in run_command command.type command.value command.str s
