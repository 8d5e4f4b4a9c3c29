-- ===== src/Buzzer.antt =====
-- server/device/buzzer/buzzer.c: the output, the delays and the commands that use no file. Playback runs
-- on the worker's thread; another thread may call buzzer_off or buzzer_cleanup whenever the lock is free.
pub mod Cached
pub mod Prompt
pub mod Quiet
pub mod Melody
pub mod Playback
pub mod Tracker
pub mod Build
use tcpremote_device_control.Base.{
  ℕ, zero, suc, ◌+◌, ◌-◌, ◌%◌, ◌^◌, Bool, true, false, not, ◌||◌, ltb, leb, if◌then◌else◌, List, [],
  ◌∷◌, Option, none, some, ℤ, pos, negsuc, eqb_ℤ, ltb_ℤ,
}
use tcpremote_device_control.DeviceResult.{
  DeviceResult, ok, invalid_value, gpio_setup_failed, device_failed,
}

abbrev pub buzzer_default_tone : ℤ
buzzer_default_tone = pos 440

-- The calls of softToneWrite and delay.
pub data BuzzerCall : Type 0 where
  tone : ℤ → BuzzerCall
  wait : ℕ → BuzzerCall

-- The static variables, and the calls with the latest first. `stops` is what the other threads do: for
-- each time that this thread takes buzzer_lock from here on, whether one of them has called
-- stop_output(true) before.
pub record Buzzer : Type 0 where
  pub buzzer_state : Bool
  pub stop_requested : Bool
  pub current_tone_hz : ℤ
  pub calls : List BuzzerCall
  pub stops : List Bool

-- As the library is loaded.
abbrev pub new_buzzer : List Bool → Buzzer
new_buzzer stops = record {
  buzzer_state = false;
  stop_requested = false;
  current_tone_hz = negsuc 0;
  calls = [];
  stops = stops;
}

unfoldable pub write_output_locked : ℤ → Bool → Buzzer → Buzzer
write_output_locked tone_hz state b =
    if eqb_ℤ b.current_tone_hz tone_hz then record b { buzzer_state = state } else record b {
      calls = tone tone_hz ∷ b.calls;
      current_tone_hz = tone_hz;
      buzzer_state = state;
    }

-- The stretch under the lock in stop_output(true).
unfoldable pub request_stop : Buzzer → Buzzer
unfolding write_output_locked
request_stop b = write_output_locked (pos 0) false (record b { stop_requested = true })

abbrev pub let_in : List Bool → Buzzer → Buzzer
let_in [] b = b
let_in (s ∷ ss) b = (let later = record b { stops = ss } in if s then request_stop later else later)

-- pthread_mutex_lock (&buzzer_lock)
unfoldable pub lock : Buzzer → Buzzer
unfolding request_stop
lock b = let_in b.stops b

unfoldable pub stop_output : Bool → Buzzer → Buzzer
unfolding lock request_stop write_output_locked
stop_output request b =
    if request then request_stop (lock b) else write_output_locked (pos 0) false (lock b)

unfoldable pub start_output : ℤ → Buzzer → Buzzer
unfolding lock write_output_locked
start_output tone_hz b =
    write_output_locked tone_hz (ltb_ℤ (pos 0) tone_hz) (record (lock b) { stop_requested = false })

unfoldable pub clear_stop_request : Buzzer → Buzzer
unfolding lock
clear_stop_request b = record (lock b) { stop_requested = false }

abbrev pub write_unless_stopped : ℤ → Buzzer → Bool × Buzzer
write_unless_stopped tone_hz b =
    if b.stop_requested
    then (false, write_output_locked (pos 0) false b)
    else (true, write_output_locked tone_hz (ltb_ℤ (pos 0) tone_hz) b)

unfoldable pub write_output_if_running : ℤ → Buzzer → Bool × Buzzer
unfolding lock write_output_locked
write_output_if_running tone_hz b = write_unless_stopped tone_hz (lock b)

unfoldable pub is_stop_requested : Buzzer → Bool × Buzzer
unfolding lock
is_stop_requested b = (let b' = lock b in (b'.stop_requested, b'))

abbrev pub delay : ℕ → Buzzer → Buzzer
delay ms b = record b { calls = wait ms ∷ b.calls }

abbrev pub step_of : ℕ → ℕ
step_of left = if ltb 10 left then 10 else left

-- What a round of the loop does with the answer of is_stop_requested.
abbrev pub unless_stopped :
    Bool × Buzzer → (Buzzer → Option (Bool × Buzzer)) → Option (Bool × Buzzer)
unless_stopped (stopped, b) next = if stopped then some (false, b) else next b

abbrev pub completed : Bool × Buzzer → Bool × Buzzer
completed (stopped, b) = (not stopped, b)

-- The loop on fuel; `none` is no fuel left.
unfoldable pub delay_loop : ℕ → ℕ → ℕ → Buzzer → Option (Bool × Buzzer)
unfolding is_stop_requested
delay_loop zero elapsed_ms duration_ms b = none
delay_loop (suc fuel) elapsed_ms duration_ms b =
    let step_ms = step_of (duration_ms - elapsed_ms) in
    let round =
      unless_stopped (is_stop_requested b)
        (λ b'. delay_loop fuel ((elapsed_ms + step_ms) % 2 ^ 32) duration_ms (delay step_ms b')) in
    if ltb elapsed_ms duration_ms then round else some (completed (is_stop_requested b))

unfoldable pub delay_until_done_or_stopped : ℕ → Buzzer → Option (Bool × Buzzer)
unfolding delay_loop
delay_until_done_or_stopped duration_ms b = delay_loop (duration_ms + 1) 0 duration_ms b

-- The two numbers are the results of wiringPiSetupGpio and softToneCreate.
unfoldable pub buzzer_init : ℤ → ℤ → Buzzer → DeviceResult × Buzzer
unfolding stop_output
buzzer_init setup create b =
    if eqb_ℤ setup (negsuc 0)
    then (gpio_setup_failed, b)
    else if not (eqb_ℤ create (pos 0))
    then (device_failed, b)
    else (ok, stop_output false b)

unfoldable pub buzzer_cleanup : Buzzer → Buzzer
unfolding stop_output
buzzer_cleanup b = stop_output true b

unfoldable pub buzzer_on : Buzzer → DeviceResult × Buzzer
unfolding start_output
buzzer_on b = (ok, start_output buzzer_default_tone b)

unfoldable pub buzzer_off : Buzzer → DeviceResult × Buzzer
unfolding stop_output
buzzer_off b = (ok, stop_output true b)

-- Both ends of buzzer_beep stop the output and return OK.
abbrev pub end_beep : Option (Bool × Buzzer) → Option (DeviceResult × Buzzer)
end_beep none = none
end_beep (some (done, b)) = some (ok, stop_output false b)

unfoldable pub buzzer_beep : ℤ → Buzzer → Option (DeviceResult × Buzzer)
unfolding start_output stop_output delay_until_done_or_stopped
buzzer_beep (negsuc n) b = some (invalid_value, b)
buzzer_beep (pos duration_ms) b =
    if leb duration_ms 0 || ltb 10000 duration_ms
    then some (invalid_value, b)
    else end_beep (delay_until_done_or_stopped duration_ms (start_output buzzer_default_tone b))

unfoldable pub buzzer_is_on : Buzzer → Bool × Buzzer
unfolding lock
buzzer_is_on b = (let b' = lock b in (b'.buzzer_state, b'))
