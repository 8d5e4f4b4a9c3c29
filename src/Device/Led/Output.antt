-- ===== src/Device/Led/Output.antt =====
-- The LED's cached state against the calls made on its pin.
use tcpremote_device_control.Base.{
  ◌≡◌, Bool, true, false, ◌&&◌, ◌||◌, ◌==◌, if◌then◌else◌, List, [], ◌∷◌, ℤ, pos, ltb_ℤ, eqb_ℤ,
  arith,
}
use tcpremote_device_control.Device.Gpio.{
  GpioCall, high, pin_mode, digital_write, soft_pwm_create, soft_pwm_write, soft_pwm_stop,
}
use tcpremote_device_control.Device.Led.{
  Led, led_pin, led_init, led_cleanup, led_on, led_on_bright, led_off,
}

-- Whether the last write to the pin asks for light.
abbrev pub lit : List GpioCall → Bool
lit [] = false
lit (digital_write p l ∷ calls) = if p == led_pin then l == high else lit calls
lit (soft_pwm_write p b ∷ calls) = if p == led_pin then ltb_ℤ (pos 0) b else lit calls
lit (_ ∷ calls) = lit calls

-- Whether a PWM thread runs on the pin.
abbrev pub pwm_on : List GpioCall → Bool
pwm_on [] = false
pwm_on (soft_pwm_create p lo hi result ∷ calls) =
    eqb_ℤ result (pos 0) && (p == led_pin) || pwm_on calls
pwm_on (soft_pwm_stop p ∷ calls) = if p == led_pin then false else pwm_on calls
pwm_on (_ ∷ calls) = pwm_on calls

-- PWM is created only where none runs, written and stopped only where one does, and the pin is
-- driven as a plain output only while none does.
abbrev pub IsDisciplined : List GpioCall → Type 0
IsDisciplined [] = Unit {0}
IsDisciplined (pin_mode p m ∷ calls) = (pwm_on calls ≡ false) × IsDisciplined calls
IsDisciplined (digital_write p l ∷ calls) = (pwm_on calls ≡ false) × IsDisciplined calls
IsDisciplined (soft_pwm_create p lo hi r ∷ calls) = (pwm_on calls ≡ false) × IsDisciplined calls
IsDisciplined (soft_pwm_write p b ∷ calls) = (pwm_on calls ≡ true) × IsDisciplined calls
IsDisciplined (soft_pwm_stop p ∷ calls) = (pwm_on calls ≡ true) × IsDisciplined calls
IsDisciplined (_ ∷ calls) = IsDisciplined calls

pub record LedInv (s : Led) : Type 0 where
  pub state_lit : s.led_state ≡ lit s.calls
  pub pwm_known : s.pwm_started ≡ pwm_on s.calls
  pub disciplined : IsDisciplined s.calls

abbrev pub unloaded : Led
unloaded = record { led_state = false; pwm_started = false; calls = [] }

pub data LedOp : Type 0 where
  cleanup on off : LedOp
  bright : (create brightness : ℤ) → LedOp

pub step : LedOp → Led → Led
step cleanup s = led_cleanup s
step on s = (led_on s).0
step off s = (led_off s).0
step (bright create b) s = (led_on_bright create b s).0

pub run : List LedOp → Led → Led
run [] s = s
run (o ∷ os) s = run os (step o s)

init-LedInv : (setup : ℤ) → LedInv (led_init setup unloaded).0
unfolding led_init
init-LedInv setup = ground arith

step-LedInv : (o : LedOp) (s : Led) → LedInv s → LedInv (step o s)
unfolding step led_cleanup led_on led_off led_on_bright
step-LedInv cleanup s v = ground arith
step-LedInv on s v = ground arith
step-LedInv off s v = ground arith
step-LedInv (bright create b) s v = ground arith

run-LedInv : (os : List LedOp) (s : Led) → LedInv s → LedInv (run os s)
unfolding run
run-LedInv [] s v = v
run-LedInv (o ∷ os) s v = run-LedInv os (step o s) (step-LedInv o s v)

-- After initialisation and any operations the cached state is what the last write to the pin asks
-- for, `pwm_started` tells whether a PWM thread runs, and no call was made out of turn.
pub run-init-LedInv : (setup : ℤ) (os : List LedOp) → LedInv (run os (led_init setup unloaded).0)
run-init-LedInv setup os = run-LedInv os _ (init-LedInv setup)
