-- ===== src/Execute/Keeps.antt =====
-- What a request can do to the devices: only calls with arguments in range.
use tcpremote_device_control.Base.{inl, inr, Bool-cases, some, Bytes, ℤ, pos, eqb_ℤ}
use tcpremote_device_control.Command.{
  Command, led_on, led_on_bright, led_off, buzzer_music, buzzer_on, buzzer_off, buzzer_beep,
  light_read, seg_display, seg_clear, command_parse,
}
use tcpremote_device_control.Execute.{
  Devices, exec_command, run_command, read_light, follow_light, is_ok,
}
use tcpremote_device_control.Execute.Ranges.{Between, InRange, command_parse-InRange}

-- A property of the devices that every function keeps, where its argument is in range.
pub record Preserves {S : Type 0} (d : Devices S) (P : S → Type 0) : Type 0 where
  pub led_on_keeps : (s : S) → P s → P (d.device_led_on s).1
  pub led_on_bright_keeps :
      (v : ℤ) (s : S) → Between 0 255 v → P s → P (d.device_led_on_bright v s).1
  pub led_off_keeps : (s : S) → P s → P (d.device_led_off s).1
  pub buzzer_music_keeps : (path : Bytes) (s : S) → P s → P (d.device_buzzer_music path s).1
  pub buzzer_on_keeps : (s : S) → P s → P (d.device_buzzer_on s).1
  pub buzzer_off_keeps : (s : S) → P s → P (d.device_buzzer_off s).1
  pub buzzer_beep_keeps : (v : ℤ) (s : S) → Between 1 10000 v → P s → P (d.device_buzzer_beep v s).1
  pub light_read_keeps : (s : S) → P s → P (d.device_light_read s).2
  pub segment_display_keeps :
      (v : ℤ) (s : S) → Between 0 9 v → P s → P (d.device_segment_display v s).1
  pub segment_clear_keeps : (s : S) → P s → P (d.device_segment_clear s).1

module _ {S : Type 0} (d : Devices S) (P : S → Type 0) (k : Preserves d P) where
  follow_light_keeps : (value : ℤ) (s : S) → P s → P (follow_light d value s).1
  follow_light_keeps value s p = elim (Bool-cases (eqb_ℤ value (pos 0))) [
    | inl e ↦ simp e (k.led_on_keeps s p)
    | inr e ↦ elim (Bool-cases (eqb_ℤ value (pos 1))) [
      | inl f ↦ simp (e, f) (k.led_off_keeps s p)
      | inr f ↦ simp (e, f) p
    ]
  ]

  read_light_keeps : (r : ℤ × ℤ × S) → P r.2 → P (read_light d r).devices
  unfolding read_light
  read_light_keeps (result, value, s) p = elim (Bool-cases (is_ok result)) [
    | inl e ↦ simp e (follow_light_keeps value s p)
    | inr e ↦ simp e p
  ]

  run_command_keeps :
      (c : Command) (v : ℤ) (str : Bytes) (s : S)
      → InRange c v
      → P s
      → P (run_command d c v str s).devices
  unfolding run_command
  run_command_keeps led_on v str s r p = k.led_on_keeps s p
  run_command_keeps led_on_bright v str s r p = k.led_on_bright_keeps v s r p
  run_command_keeps led_off v str s r p = k.led_off_keeps s p
  run_command_keeps buzzer_music v str s r p = k.buzzer_music_keeps str s p
  run_command_keeps buzzer_on v str s r p = k.buzzer_on_keeps s p
  run_command_keeps buzzer_off v str s r p = k.buzzer_off_keeps s p
  run_command_keeps buzzer_beep v str s r p = k.buzzer_beep_keeps v s r p
  run_command_keeps light_read v str s r p =
      read_light_keeps (d.device_light_read s) (k.light_read_keeps s p)
  run_command_keeps seg_display v str s r p = k.segment_display_keeps v s r p
  run_command_keeps seg_clear v str s r p = k.segment_clear_keeps s p
  run_command_keeps _ v str s r p = p

  -- Whatever line a client sends, a property of the devices survives if each of their functions keeps
  -- it, the functions with a number only for numbers in the range of their command: 0 to 255 for the
  -- brightness, 1 to 10000 for a beep, 0 to 9 for a digit.
  pub exec_command_keeps : (str : Bytes) (s : S) → P s → P (exec_command d str s).devices
  unfolding exec_command
  exec_command_keeps str s p =
      let c = command_parse (some str) in
      run_command_keeps c.type c.value c.str s (command_parse-InRange (some str)) p
