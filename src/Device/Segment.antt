-- ===== src/Device/Segment.antt =====
-- server/device/segment/segment.h and segment.c. Each access of the two cached values stands under
-- the plugin's `segment_lock`.
pub mod Display
use Prim.Native.Nat.{bit_and}
use tcpremote_device_control.Base.{
  ℕ, zero, suc, ◌+◌, ◌^◌, Bool, true, false, not, ◌||◌, ◌==◌, if◌then◌else◌, List, [], ◌∷◌,
  get_elem?, Option, none, some, ℤ, pos, negsuc, ltb_ℤ, eqb_ℤ, pos_part,
}
use tcpremote_device_control.Device.Gpio.{GpioCall, output, low, high, pin_mode, digital_write}
use tcpremote_device_control.DeviceResult.{DeviceResult, ok, gpio_setup_failed, invalid_value}

-- SEGMENT_G_PIN, F, E, D, C, B, A, DP.
abbrev pub segment_pins : List ℕ
segment_pins = 21 ∷ 20 ∷ 26 ∷ 19 ∷ 13 ∷ 6 ∷ 5 ∷ 16 ∷ []

abbrev pub segment_on_level : ℕ
segment_on_level = high

abbrev pub segment_off_level : ℕ
segment_off_level = low

abbrev pub digit_patterns : List ℕ
digit_patterns =
    0b01111110 ∷ 0b00110000 ∷ 0b01101101 ∷ 0b01111001 ∷ 0b00110011 ∷ 0b01011011 ∷ 0b01011111
    ∷ 0b01110000 ∷ 0b01111111 ∷ 0b01111011 ∷ []

pub record Segment : Type 0 where
  pub segment_enabled : Bool
  pub segment_value : ℤ
  pub calls : List GpioCall

-- The calls are kept newest first, so a loop over the pins puts later writes in front.
unfoldable pub write_off : List ℕ → List GpioCall → List GpioCall
write_off [] calls = calls
write_off (pin ∷ pins) calls = write_off pins (digital_write pin segment_off_level ∷ calls)

unfoldable pub segment_all_off : List GpioCall → List GpioCall
unfolding write_off
segment_all_off calls = write_off segment_pins calls

abbrev level_for : ℕ → ℕ → ℕ
level_for pattern i =
    if not (bit_and pattern (2 ^ i) == 0) then segment_off_level else segment_on_level

-- The loop of segment_write_pattern from index i on.
unfoldable pub write_levels : ℕ → ℕ → List ℕ → List GpioCall → List GpioCall
write_levels pattern i [] calls = calls
write_levels pattern i (pin ∷ pins) calls =
    write_levels pattern (i + 1) pins (digital_write pin (level_for pattern i) ∷ calls)

unfoldable pub segment_write_pattern : ℕ → List GpioCall → List GpioCall
unfolding write_levels
segment_write_pattern pattern calls = write_levels pattern 0 segment_pins calls

unfoldable pub set_outputs : List ℕ → List GpioCall → List GpioCall
set_outputs [] calls = calls
set_outputs (pin ∷ pins) calls = set_outputs pins (pin_mode pin output ∷ calls)

abbrev cleared : Segment → List GpioCall → Segment
cleared s calls = record { segment_enabled = false; segment_value = pos 0; calls = calls }

-- `setup` is what wiringPiSetupGpio returns.
unfoldable pub segment_init : ℤ → Segment → Segment × DeviceResult
unfolding set_outputs segment_all_off
segment_init setup s =
    if eqb_ℤ setup (negsuc 0)
    then (s, gpio_setup_failed)
    else (cleared s (segment_all_off (set_outputs segment_pins s.calls)), ok)

unfoldable pub segment_cleanup : Segment → Segment
unfolding segment_all_off
segment_cleanup s = cleared s (segment_all_off s.calls)

-- digit_patterns[value]; a value outside the table is rejected before it is looked up.
abbrev pattern_of : ℤ → ℕ
pattern_of value = elim (get_elem? digit_patterns (pos_part value)) [ none ↦ 0 | some p ↦ p ]

unfoldable pub segment_display : ℤ → Segment → Segment × DeviceResult
unfolding segment_write_pattern
segment_display value s =
    if ltb_ℤ value (pos 0) || ltb_ℤ (pos 9) value then (s, invalid_value) else (
      record {
        segment_enabled = true;
        segment_value = value;
        calls = segment_write_pattern (pattern_of value) s.calls;
      },
      ok,
    )

unfoldable pub segment_clear : Segment → Segment × DeviceResult
unfolding segment_all_off
segment_clear s = (cleared s (segment_all_off s.calls), ok)

unfoldable pub segment_is_enabled : Segment → Bool
segment_is_enabled s = s.segment_enabled

unfoldable pub segment_get_value : Segment → ℤ
segment_get_value s = s.segment_value
