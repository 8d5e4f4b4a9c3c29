-- ===== src/Device/Light.antt =====
-- server/device/light/light.c. Each access of `last_light_value` stands under `light_lock`.
use tcpremote_device_control.Base.{ℕ, if◌then◌else◌, List, ◌∷◌, ℤ, negsuc, eqb_ℤ}
use tcpremote_device_control.Device.Gpio.{GpioCall, input, pin_mode, digital_read}
use tcpremote_device_control.DeviceResult.{DeviceResult, ok, gpio_setup_failed}

abbrev pub light_pin : ℕ
light_pin = 27

pub record Light : Type 0 where
  pub last_light_value : ℤ
  pub calls : List GpioCall

unfoldable pub light_init : ℤ → Light → Light × DeviceResult
light_init setup s =
    if eqb_ℤ setup (negsuc 0)
    then (s, gpio_setup_failed)
    else (record s { last_light_value = negsuc 0; calls = pin_mode light_pin input ∷ s.calls }, ok)

unfoldable pub light_cleanup : Light → Light
light_cleanup s = record s { last_light_value = negsuc 0 }

-- `reading` is what digitalRead returns; the last part is what `*value` receives.
unfoldable pub light_read : ℤ → Light → Light × DeviceResult × ℤ
light_read reading s =
    (record s { last_light_value = reading; calls = digital_read light_pin ∷ s.calls }, ok, reading)

unfoldable pub light_get_last_value : Light → ℤ
light_get_last_value s = s.last_light_value
