-- ===== src/Device/Gpio.antt =====
-- The calls that the plugins make of wiringPi, softPwm and softTone, newest first. The libraries are
-- not modelled: what a call returns is an argument of the function that makes it. Of softPwmCreate
-- the trace also keeps the result.
use tcpremote_device_control.Base.{ℕ, ◌==◌, if◌then◌else◌, List, [], ◌∷◌, Option, none, some, ℤ}

abbrev pub low : ℕ
low = 0

abbrev pub high : ℕ
high = 1

pub data PinMode : Type 0 where
  input output : PinMode

pub data GpioCall : Type 0 where
  pin_mode : ℕ → PinMode → GpioCall
  digital_write : ℕ → ℕ → GpioCall
  digital_read : ℕ → GpioCall
  soft_pwm_create : ℕ → ℕ → ℕ → ℤ → GpioCall
  soft_pwm_write : ℕ → ℤ → GpioCall
  soft_pwm_stop : ℕ → GpioCall
  soft_tone_create : ℕ → GpioCall
  soft_tone_write : ℕ → ℤ → GpioCall

-- The level last written to a pin.
unfoldable pub last_level : ℕ → List GpioCall → Option ℕ
last_level pin [] = none
last_level pin (digital_write p l ∷ calls) = if p == pin then some l else last_level pin calls
last_level pin (_ ∷ calls) = last_level pin calls
