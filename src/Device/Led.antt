-- ===== src/Device/Led.antt =====
-- server/device/led/led.c. Each access of `led_state` stands under `led_lock`; `pwm_started` is used
-- by the one thread that runs the plugin's functions.
pub mod Output
use tcpremote_device_control.Base.{
  ℕ, Bool, true, false, not, ◌||◌, if◌then◌else◌, List, ◌∷◌, ℤ, pos, negsuc, ltb_ℤ, eqb_ℤ,
}
use tcpremote_device_control.Device.Gpio.{
  GpioCall, output, low, high, pin_mode, digital_write, soft_pwm_create, soft_pwm_write,
  soft_pwm_stop,
}
use tcpremote_device_control.DeviceResult.{
  DeviceResult, ok, gpio_setup_failed, invalid_value, device_failed,
}

abbrev pub led_pin : ℕ
led_pin = 17

pub record Led : Type 0 where
  pub led_state : Bool
  pub pwm_started : Bool
  pub calls : List GpioCall

abbrev call : Led → GpioCall → Led
call s c = record s { calls = c ∷ s.calls }

abbrev drive : Led → ℕ → Led
drive s level = call (call s (pin_mode led_pin output)) (digital_write led_pin level)

-- The two lines that led_cleanup and led_on begin with.
abbrev stop_pwm : Led → Led
stop_pwm s =
    if s.pwm_started then record (call s (soft_pwm_stop led_pin)) { pwm_started = false } else s

-- `setup` is what wiringPiSetupGpio returns.
unfoldable pub led_init : ℤ → Led → Led × DeviceResult
led_init setup s =
    if eqb_ℤ setup (negsuc 0)
    then (s, gpio_setup_failed)
    else (record (drive s low) { led_state = false; pwm_started = false }, ok)

unfoldable pub led_cleanup : Led → Led
led_cleanup s = record (drive (stop_pwm s) low) { led_state = false }

unfoldable pub led_on : Led → Led × DeviceResult
led_on s = (record (drive (stop_pwm s) high) { led_state = true }, ok)

abbrev write_brightness : ℤ → Led → Led × DeviceResult
write_brightness brightness s = (
  record (call s (soft_pwm_write led_pin brightness)) { led_state = ltb_ℤ (pos 0) brightness },
  ok,
)

abbrev created : ℤ → Led → Led
created create s = call s (soft_pwm_create led_pin 0 255 create)

-- `create` is what softPwmCreate returns.
unfoldable pub led_on_bright : ℤ → ℤ → Led → Led × DeviceResult
led_on_bright create brightness s =
    if ltb_ℤ brightness (pos 0) || ltb_ℤ (pos 255) brightness
    then (s, invalid_value)
    else if not s.pwm_started
    then (if not (eqb_ℤ create (pos 0))
        then (created create s, device_failed)
        else write_brightness brightness (record (created create s) { pwm_started = true }))
    else write_brightness brightness s

abbrev zero_pwm : Led → Led
zero_pwm s = if s.pwm_started then call s (soft_pwm_write led_pin (pos 0)) else s

unfoldable pub led_off : Led → Led × DeviceResult
led_off s = (record (drive (stop_pwm (zero_pwm s)) low) { led_state = false }, ok)

unfoldable pub led_is_on : Led → Bool
led_is_on s = s.led_state
