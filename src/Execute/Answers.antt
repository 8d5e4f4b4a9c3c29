-- ===== src/Execute/Answers.antt =====
-- The form of the answers.
use tcpremote_device_control.Base.{
  ◌≤◌, ◌≡◌, refl, inl, inr, true, Bool-cases, List, [], ◌∷◌, ◌++◌, append-nil, some, length, Bytes,
  codes, equal_bytes, ℤ, pos, eqb_ℤ, arith, show_ℤ,
}
use tcpremote_device_control.DeviceResult.{device_result_message}
use tcpremote_device_control.Command.{
  Command, empty, invalid, invalid_value, help, status, plugin_list, quit, led_on, led_on_bright,
  led_off, buzzer_music, buzzer_on, buzzer_off, buzzer_beep, light_read, seg_display, seg_clear,
  command_parse,
}
use tcpremote_device_control.Manager.Commands.{DeviceStatus, PluginStatus}
use tcpremote_device_control.Execute.{
  Devices, exec_command, run_command, read_light, follow_light, light_text, is_ok, line,
  write_device_error, on_off, loaded_missing, reply_to, help_line, status_line, plugin_line,
}
use tcpremote_device_control.Execute.Pieces.{
  no_newline, begins, IsAnswer, Piece-append, line-IsAnswer, show_ℤ-Piece, on_off-Piece,
  loaded_missing-Piece, text_Piece, nil-Piece, message-Piece,
}

write_device_error-IsAnswer : (result : ℤ) → IsAnswer (write_device_error result)
unfolding write_device_error equal_bytes
write_device_error-IsAnswer result =
    line-IsAnswer (codes "ERR DEVICE_ERROR " ∷ device_result_message result ∷ []) 35
      (Piece-append 17 18 _ _ (text_Piece (codes "ERR DEVICE_ERROR ") refl (omega arith))
        (Piece-append 18 0 _ _ (message-Piece result) nil-Piece))
      (omega arith) refl

status_line-IsAnswer : (now : DeviceStatus) → IsAnswer (status_line now)
unfolding status_line equal_bytes
status_line-IsAnswer now =
    line-IsAnswer
      (codes "DATA STATUS INIT="
        ∷ on_off now.initialized
        ∷ codes " LED="
        ∷ on_off now.led_on
        ∷ codes " BUZZER="
        ∷ on_off now.buzzer_on
        ∷ codes " LIGHT="
        ∷ show_ℤ now.light_value
        ∷ codes " SEG="
        ∷ on_off now.segment_enabled
        ∷ codes " SEG_VALUE="
        ∷ show_ℤ now.segment_value
        ∷ [])
      107
      (Piece-append 17 90 _ _ (text_Piece (codes "DATA STATUS INIT=") refl (omega arith)) (
        Piece-append 3 87 _ _ (on_off-Piece now.initialized) (
          Piece-append 5 82 _ _ (text_Piece (codes " LED=") refl (omega arith)) (
            Piece-append 3 79 _ _ (on_off-Piece now.led_on) (
              Piece-append 8 71 _ _ (text_Piece (codes " BUZZER=") refl (omega arith)) (
                Piece-append 3 68 _ _ (on_off-Piece now.buzzer_on) (
                  Piece-append 7 61 _ _ (text_Piece (codes " LIGHT=") refl (omega arith)) (
                    Piece-append 21 40 _ _ (show_ℤ-Piece now.light_value) (
                      Piece-append 5 35 _ _ (text_Piece (codes " SEG=") refl (omega arith)) (
                        Piece-append 3 32 _ _ (on_off-Piece now.segment_enabled) (
                          Piece-append 11 21 _ _
                            (text_Piece (codes " SEG_VALUE=") refl (omega arith))
                            (Piece-append 21 0 _ _ (show_ℤ-Piece now.segment_value)
                              nil-Piece))))))))))))
      (omega arith) refl

plugin_line-IsAnswer : (now : PluginStatus) → IsAnswer (plugin_line now)
unfolding plugin_line equal_bytes
plugin_line-IsAnswer now =
    line-IsAnswer
      (codes "DATA PLUGINS LED="
        ∷ loaded_missing now.led_loaded
        ∷ codes " BUZZER="
        ∷ loaded_missing now.buzzer_loaded
        ∷ codes " LIGHT="
        ∷ loaded_missing now.light_loaded
        ∷ codes " SEGMENT="
        ∷ loaded_missing now.segment_loaded
        ∷ [])
      69
      (Piece-append 17 52 _ _ (text_Piece (codes "DATA PLUGINS LED=") refl (omega arith)) (
        Piece-append 7 45 _ _ (loaded_missing-Piece now.led_loaded) (
          Piece-append 8 37 _ _ (text_Piece (codes " BUZZER=") refl (omega arith)) (
            Piece-append 7 30 _ _ (loaded_missing-Piece now.buzzer_loaded) (
              Piece-append 7 23 _ _ (text_Piece (codes " LIGHT=") refl (omega arith)) (
                Piece-append 7 16 _ _ (loaded_missing-Piece now.light_loaded) (
                  Piece-append 9 7 _ _ (text_Piece (codes " SEGMENT=") refl (omega arith)) (
                    Piece-append 7 0 _ _ (loaded_missing-Piece now.segment_loaded) nil-Piece))))))))
      (omega arith) refl

help_line-IsAnswer : IsAnswer help_line
unfolding help_line equal_bytes
help_line-IsAnswer =
    line-IsAnswer
      (codes "OK COMMANDS: HELP, STATUS, PLUGIN LIST, LED ON|BRIGHT <0-255>|OFF, "
        ∷ codes "BUZZER ON|OFF|BEEP <ms>|MUSIC <file>, LIGHT READ, SEG DISPLAY <0-9>|CLEAR, QUIT"
        ∷ [])
      200 (record { clean = refl; short = omega arith }) (omega arith) refl

-- A text of its own.
fixed-IsAnswer :
    (s : Bytes) → no_newline s ≡ true → length s ≤ 1000 → begins s ≡ true → IsAnswer (line (s ∷ []))
fixed-IsAnswer s h k w =
    let same = append-nil s in
    line-IsAnswer (s ∷ []) 1000 (rw same (record { clean = h; short = k })) (omega arith)
      (rw same w)

-- A text with a number behind it.
numbered-IsAnswer :
    (s : Bytes) (v : ℤ)
    → no_newline s ≡ true
    → length s ≤ 100
    → begins (s ++ (show_ℤ v ++ [])) ≡ true
    → IsAnswer (line (s ∷ show_ℤ v ∷ []))
numbered-IsAnswer s v h k w =
    line-IsAnswer (s ∷ show_ℤ v ∷ []) 121
      (Piece-append 100 21 _ _ (text_Piece s h k)
        (Piece-append 21 0 _ _ (show_ℤ-Piece v) nil-Piece))
      (omega arith) w

reply_to-IsAnswer :
    (result : ℤ) (text : List Bytes) → IsAnswer (line text) → IsAnswer (reply_to result text)
reply_to-IsAnswer result text a = elim (Bool-cases (is_ok result)) [
  | inl e ↦ simp e a
  | inr e ↦ simp e (write_device_error-IsAnswer result)
]

light_text-IsAnswer :
    (value : ℤ)
    → IsAnswer (
        line
          (codes "DATA LIGHT " ∷ show_ℤ value ∷ codes " LED=" ∷ on_off (eqb_ℤ value (pos 0)) ∷ []))
unfolding equal_bytes
light_text-IsAnswer value =
    line-IsAnswer
      (codes "DATA LIGHT " ∷ show_ℤ value ∷ codes " LED=" ∷ on_off (eqb_ℤ value (pos 0)) ∷ []) 40
      (Piece-append 11 29 _ _ (text_Piece (codes "DATA LIGHT ") refl (omega arith)) (
        Piece-append 21 8 _ _ (show_ℤ-Piece value) (
          Piece-append 5 3 _ _ (text_Piece (codes " LED=") refl (omega arith))
            (Piece-append 3 0 _ _ (on_off-Piece (eqb_ℤ value (pos 0))) nil-Piece))))
      (omega arith) refl

module _ {S : Type 0} (d : Devices S) where
  read_light-IsAnswer : (r : ℤ × ℤ × S) → IsAnswer (read_light d r).reply
  unfolding read_light
  read_light-IsAnswer (result, value, s) = elim (Bool-cases (is_ok result)) [
    | inl e ↦ simp e (
        reply_to-IsAnswer (follow_light d value s).0 (light_text d value)
          (light_text-IsAnswer value))
    | inr e ↦ simp e (write_device_error-IsAnswer result)
  ]

  run_command-IsAnswer :
      (c : Command) (v : ℤ) (str : Bytes) (s : S) → IsAnswer (run_command d c v str s).reply
  unfolding run_command equal_bytes
  run_command-IsAnswer help v str s = help_line-IsAnswer
  run_command-IsAnswer status v str s = status_line-IsAnswer (d.device_get_status s)
  run_command-IsAnswer plugin_list v str s = plugin_line-IsAnswer (d.plugin_get_status s)
  run_command-IsAnswer quit v str s = fixed-IsAnswer (codes "OK QUIT") refl (omega arith) refl
  run_command-IsAnswer led_on v str s =
      reply_to-IsAnswer (d.device_led_on s).0 (codes "OK LED ON" ∷ [])
        (fixed-IsAnswer (codes "OK LED ON") refl (omega arith) refl)
  run_command-IsAnswer led_off v str s =
      reply_to-IsAnswer (d.device_led_off s).0 (codes "OK LED OFF" ∷ [])
        (fixed-IsAnswer (codes "OK LED OFF") refl (omega arith) refl)
  run_command-IsAnswer buzzer_music v str s =
      reply_to-IsAnswer (d.device_buzzer_music str s).0 (codes "OK BUZZER MUSIC" ∷ [])
        (fixed-IsAnswer (codes "OK BUZZER MUSIC") refl (omega arith) refl)
  run_command-IsAnswer buzzer_on v str s =
      reply_to-IsAnswer (d.device_buzzer_on s).0 (codes "OK BUZZER ON" ∷ [])
        (fixed-IsAnswer (codes "OK BUZZER ON") refl (omega arith) refl)
  run_command-IsAnswer buzzer_off v str s =
      reply_to-IsAnswer (d.device_buzzer_off s).0 (codes "OK BUZZER OFF" ∷ [])
        (fixed-IsAnswer (codes "OK BUZZER OFF") refl (omega arith) refl)
  run_command-IsAnswer seg_clear v str s =
      reply_to-IsAnswer (d.device_segment_clear s).0 (codes "OK SEG CLEAR" ∷ [])
        (fixed-IsAnswer (codes "OK SEG CLEAR") refl (omega arith) refl)
  run_command-IsAnswer led_on_bright v str s =
      reply_to-IsAnswer (d.device_led_on_bright v s).0 (codes "OK LED BRIGHT " ∷ show_ℤ v ∷ [])
        (numbered-IsAnswer (codes "OK LED BRIGHT ") v refl (omega arith) refl)
  run_command-IsAnswer buzzer_beep v str s =
      reply_to-IsAnswer (d.device_buzzer_beep v s).0 (codes "OK BUZZER BEEP " ∷ show_ℤ v ∷ [])
        (numbered-IsAnswer (codes "OK BUZZER BEEP ") v refl (omega arith) refl)
  run_command-IsAnswer seg_display v str s =
      reply_to-IsAnswer (d.device_segment_display v s).0 (codes "OK SEG DISPLAY " ∷ show_ℤ v ∷ [])
        (numbered-IsAnswer (codes "OK SEG DISPLAY ") v refl (omega arith) refl)
  run_command-IsAnswer light_read v str s = read_light-IsAnswer (d.device_light_read s)
  run_command-IsAnswer empty v str s =
      fixed-IsAnswer (codes "ERR EMPTY_COMMAND") refl (omega arith) refl
  run_command-IsAnswer invalid_value v str s =
      fixed-IsAnswer (codes "ERR INVALID_VALUE") refl (omega arith) refl
  run_command-IsAnswer invalid v str s =
      fixed-IsAnswer (codes "ERR INVALID_COMMAND") refl (omega arith) refl

  -- Whatever a client sends and whatever the devices answer, the reply is one line that begins with
  -- OK, ERR or DATA and fits the buffer whole.
  pub exec_command-IsAnswer : (str : Bytes) (s : S) → IsAnswer (exec_command d str s).reply
  unfolding exec_command
  exec_command-IsAnswer str s =
      let c = command_parse (some str) in run_command-IsAnswer c.type c.value c.str s
