-- ===== src/Manager/Refresh.antt =====
-- server/device/device_manager.c: the variables under segment_lock and the thread that shows them.
pub mod Run
use tcpremote_device_control.Base.{
  ℕ, zero, suc, ◌-◌, Bool, true, false, not, ◌&&◌, if◌then◌else◌, List, [], ◌∷◌, ℤ, pos, eqb_ℤ,
  negsuc, ltb_ℤ, ◌||◌,
}

-- The calls that the thread makes, newest first in `calls` below.
pub data Call : Type 0 where
  clear : Call
  display beep : ℤ → Call

pub record Countdown : Type 0 where
  pub running : Bool
  pub enabled : Bool
  pub value : ℤ
  pub calls : List Call

-- Where the thread is: before it takes the lock, asleep behind a display, or at its end.
pub data Phase : Type 0 where
  at_top asleep ended : Phase

abbrev pub prepare_thread : Countdown → Countdown
prepare_thread c = record c { running = true; enabled = false; value = pos 0 }

abbrev pub thread_refused : Countdown → Countdown
thread_refused c = record c { running = false }

abbrev pub end_thread : Countdown → Countdown
end_thread c = record c { running = false; enabled = false }

abbrev pub less_one : ℤ → ℤ
less_one (pos zero) = negsuc 0
less_one (pos (suc n)) = pos n
less_one (negsuc n) = negsuc (suc n)

-- From the top of the loop to the sleep.
unfoldable pub show : Countdown → Phase × Countdown
show c =
    if not c.running
    then (ended, record c { calls = clear ∷ c.calls })
    else if not c.enabled
    then (at_top, record c { calls = clear ∷ c.calls })
    else (asleep, record c { calls = display c.value ∷ c.calls })

-- From the end of the sleep to the top of the loop.
unfoldable pub count : Countdown → Phase × Countdown
count c =
    if not (c.running && c.enabled)
    then (at_top, c)
    else if eqb_ℤ c.value (pos 0)
    then (at_top, record c { enabled = false; calls = beep (pos 200) ∷ clear ∷ c.calls })
    else (at_top, record c { value = less_one c.value })

unfoldable pub segment_refresh_loop : Phase → Countdown → Phase × Countdown
unfolding show count
segment_refresh_loop at_top c = show c
segment_refresh_loop asleep c = count c
segment_refresh_loop ended c = (ended, c)

-- The test of device_segment_display.
abbrev pub is_digit_value : ℤ → Bool
is_digit_value value = not (ltb_ℤ value (pos 0) || ltb_ℤ (pos 9) value)

-- The locked parts of device_segment_display and device_segment_clear.
abbrev pub set_countdown : ℤ → Countdown → Countdown
set_countdown value c = record c { value = value; enabled = true }

abbrev pub clear_countdown : Countdown → Countdown
clear_countdown c = record c { enabled = false; value = pos 0; calls = clear ∷ c.calls }
