-- ===== src/Manager/Commands/Guards.antt =====
-- The guards in front of every command of the device manager.
use tcpremote_device_control.Base.{
  ℕ, ◌≡◌, Bool, true, false, not, ◌&&◌, ◌||◌, if◌then◌else◌, [], ◌∷◌, Option, none, some, arith, ℤ,
  pos, ltb_ℤ, Bytes, Bool-cases, inl, inr, leb,
}
use tcpremote_device_control.DeviceResult.{not_initialized, invalid_value}
use tcpremote_device_control.Worker.{returns}
use tcpremote_device_control.Manager.{DeviceManager}
use tcpremote_device_control.Manager.Refresh.{is_digit_value}
use tcpremote_device_control.Manager.Commands.{
  Answers, Outcome, ensure_initialized, device_led_on, device_led_on_bright, device_led_off,
  device_buzzer_music, device_buzzer_on, device_buzzer_off, device_buzzer_beep, device_light_read,
  device_segment_display, device_segment_clear,
}

-- The commands with what they are given.
pub data Request : Type 0 where
  led_on led_off buzzer_on segment_clear : Request
  led_on_bright buzzer_beep segment_display : ℤ → Request
  buzzer_music : Option Bytes → Request
  buzzer_off light_read : ℕ → Request

abbrev pub request : Answers → Request → DeviceManager → Outcome
request a led_on m = device_led_on a m
request a led_off m = device_led_off a m
request a buzzer_on m = device_buzzer_on a m
request a segment_clear m = device_segment_clear a m
request a (led_on_bright v) m = device_led_on_bright a v m
request a (buzzer_beep v) m = device_buzzer_beep a v m
request a (segment_display v) m = device_segment_display v m
request a (buzzer_music path) m = device_buzzer_music a path m
request a (buzzer_off fuel) m = device_buzzer_off a fuel m
request a (light_read value) m = device_light_read a value m

abbrev between : ℕ → ℕ → ℤ → Bool
between lo hi (pos n) = leb lo n && leb n hi
between lo hi _ = false

-- What a command takes: a brightness of 0 to 255, a length of 1 to 10000 ms, a digit, a path that is
-- not empty.
abbrev pub fits : Request → Bool
fits (led_on_bright v) = between 0 255 v
fits (buzzer_beep v) = between 1 10000 v
fits (segment_display v) = between 0 9 v
fits (buzzer_music (some (c ∷ s))) = true
fits (buzzer_music _) = false
fits _ = true

digit_between : (v : ℤ) → is_digit_value v ≡ between 0 9 v
digit_between v = ground arith

bright_between : (v : ℤ) → (ltb_ℤ v (pos 0) || ltb_ℤ (pos 255) v) ≡ not (between 0 255 v)
bright_between v = ground arith

beep_between : (v : ℤ) → (not (ltb_ℤ (pos 0) v) || ltb_ℤ (pos 10000) v) ≡ not (between 1 10000 v)
beep_between v = ground arith

uninitialized :
    (a : Answers) (r : Request) (m : DeviceManager)
    → m.initialized ≡ false
    → request a r m ≡ some (returns not_initialized, m)
unfolding ensure_initialized device_led_on device_led_on_bright device_led_off device_buzzer_music
    device_buzzer_on device_buzzer_off device_buzzer_beep device_light_read device_segment_display
    device_segment_clear
uninitialized a led_on m e = simp e
uninitialized a led_off m e = simp e
uninitialized a buzzer_on m e = simp e
uninitialized a segment_clear m e = simp e
uninitialized a (led_on_bright v) m e = simp e
uninitialized a (buzzer_beep v) m e = simp e
uninitialized a (segment_display v) m e = simp e
uninitialized a (buzzer_music path) m e = simp e
uninitialized a (buzzer_off fuel) m e = simp e
uninitialized a (light_read value) m e = simp e

unfit :
    (a : Answers) (r : Request) (m : DeviceManager)
    → m.initialized ≡ true
    → fits r ≡ false
    → request a r m ≡ some (returns invalid_value, m)
unfolding ensure_initialized device_led_on device_led_on_bright device_led_off device_buzzer_music
    device_buzzer_on device_buzzer_off device_buzzer_beep device_light_read device_segment_display
    device_segment_clear
unfit a (led_on_bright v) m e f = simp (e, bright_between v, f)
unfit a (buzzer_beep v) m e f = simp (e, beep_between v, f)
unfit a (segment_display v) m e f = simp (e, digit_between v, f)
unfit a (buzzer_music none) m e f = simp e
unfit a (buzzer_music (some [])) m e f = simp e
unfit a (buzzer_music (some (c ∷ s))) m e f = absurd cc
unfit a led_on m e f = absurd cc
unfit a led_off m e f = absurd cc
unfit a buzzer_on m e f = absurd cc
unfit a segment_clear m e f = absurd cc
unfit a (buzzer_off fuel) m e f = absurd cc
unfit a (light_read value) m e f = absurd cc

-- A command is refused before the devices are initialised, whatever it is given, and afterwards if
-- what it is given does not fit; the state then stays as it is.
pub request-refused :
    (a : Answers) (r : Request) (m : DeviceManager)
    → (m.initialized && fits r) ≡ false
    → request a r m ≡ some (returns (if m.initialized then invalid_value else not_initialized), m)
request-refused a r m h = elim (Bool-cases m.initialized) [
  | inr e ↦ simp e (uninitialized a r m e)
  | inl e ↦ let f : fits r ≡ false = ground arith in simp e (unfit a r m e f)
]
