-- ===== src/Manager/Commands.antt =====
-- server/device/device_manager.c: what the clients' commands do, up to the wait for a worker.
pub mod Guards
use tcpremote_device_control.Base.{
  ℕ, Bool, true, false, not, ◌||◌, if◌then◌else◌, List, [], ◌∷◌, Option, none, some, ◌>>=◌, ℤ, pos,
  negsuc, ltb_ℤ, Bytes,
}
use tcpremote_device_control.DeviceResult.{
  DeviceResult, ok, not_initialized, invalid_value, device_failed, cancelled,
}
use tcpremote_device_control.Plugin.Held.{buzzer_off}
use tcpremote_device_control.Worker.{
  Grants, Submitted, returns, device_worker_submit, device_worker_cancel_pending,
}
use tcpremote_device_control.Manager.{
  Job, run_led_on, run_led_off, run_buzzer_on, run_light_read, run_led_on_bright, run_buzzer_beep,
  run_buzzer_music, DeviceManager,
}
use tcpremote_device_control.Manager.Refresh.{is_digit_value, set_countdown, clear_countdown}

-- What the calls of other code answer: malloc for the context, `none` for NULL; the allocations of
-- device_worker_submit; the result of a plugin's function called without a worker.
pub record Answers : Type 0 where
  pub malloc : Option ℕ
  pub grants : Grants
  pub called : DeviceResult

abbrev pub Outcome : Type 0
Outcome = Option (Submitted × DeviceManager)

unfoldable pub ensure_initialized : DeviceManager → DeviceResult
ensure_initialized m = if m.initialized then ok else not_initialized

-- `if (result != DEVICE_RESULT_OK) return result;`
abbrev or_return : DeviceManager → DeviceResult → Outcome → Outcome
or_return m ok rest = rest
or_return m failed rest = some (returns failed, m)

-- The null context is address 0.
abbrev submit_led : Answers → Job → Bool → ℕ → Bool → DeviceManager → Outcome
submit_led a run cleanup context wait m =
    device_worker_submit a.grants (some run) cleanup context wait m.led_worker m.tasks >>= λ r.
    some (r.0, record m { led_worker = r.1; tasks = r.2 })

abbrev submit_buzzer : Answers → Job → Bool → ℕ → Bool → DeviceManager → Outcome
submit_buzzer a run cleanup context wait m =
    device_worker_submit a.grants (some run) cleanup context wait m.buzzer_worker m.tasks >>= λ r.
    some (r.0, record m { buzzer_worker = r.1; tasks = r.2 })

abbrev submit_light : Answers → Job → Bool → ℕ → Bool → DeviceManager → Outcome
submit_light a run cleanup context wait m =
    device_worker_submit a.grants (some run) cleanup context wait m.light_worker m.tasks >>= λ r.
    some (r.0, record m { light_worker = r.1; tasks = r.2 })

-- A context from malloc, for the submission behind it.
abbrev with_context : DeviceManager → Option ℕ → (ℕ → Outcome) → Outcome
with_context m none rest = some (returns device_failed, m)
with_context m (some context) rest = rest context

unfoldable pub device_led_on : Answers → DeviceManager → Outcome
unfolding ensure_initialized
device_led_on a m = or_return m (ensure_initialized m) (submit_led a run_led_on false 0 true m)

unfoldable pub device_led_on_bright : Answers → ℤ → DeviceManager → Outcome
unfolding ensure_initialized
device_led_on_bright a brightness m = or_return m (ensure_initialized m) (
    if ltb_ℤ brightness (pos 0) || ltb_ℤ (pos 255) brightness
    then some (returns invalid_value, m)
    else with_context m a.malloc
        (λ context. submit_led a (run_led_on_bright brightness) true context true m))

unfoldable pub device_led_off : Answers → DeviceManager → Outcome
unfolding ensure_initialized
device_led_off a m = or_return m (ensure_initialized m) (submit_led a run_led_off false 0 true m)

abbrev is_null_or_empty : Option Bytes → Bool
is_null_or_empty none = true
is_null_or_empty (some []) = true
is_null_or_empty (some (c ∷ s)) = false

abbrev text_of : Option Bytes → Bytes
text_of none = []
text_of (some s) = s

unfoldable pub device_buzzer_music : Answers → Option Bytes → DeviceManager → Outcome
unfolding ensure_initialized
device_buzzer_music a file_path m = or_return m (ensure_initialized m) (
    if is_null_or_empty file_path
    then some (returns invalid_value, m)
    else with_context m a.malloc
        (λ context. submit_buzzer a (run_buzzer_music (text_of file_path)) true context false m))

unfoldable pub device_buzzer_on : Answers → DeviceManager → Outcome
unfolding ensure_initialized
device_buzzer_on a m =
    or_return m (ensure_initialized m) (submit_buzzer a run_buzzer_on false 0 true m)

-- The fuel is for device_worker_cancel_pending.
unfoldable pub device_buzzer_off : Answers → ℕ → DeviceManager → Outcome
unfolding ensure_initialized
device_buzzer_off a fuel m = or_return m (ensure_initialized m) (
    device_worker_cancel_pending fuel cancelled m.buzzer_worker m.tasks >>= λ r.
    some (
      returns a.called,
      record m { buzzer_worker = r.1; tasks = r.2; trace = buzzer_off ∷ m.trace },
    ))

unfoldable pub device_buzzer_beep : Answers → ℤ → DeviceManager → Outcome
unfolding ensure_initialized
device_buzzer_beep a duration_ms m = or_return m (ensure_initialized m) (
    if not (ltb_ℤ (pos 0) duration_ms) || ltb_ℤ (pos 10000) duration_ms
    then some (returns invalid_value, m)
    else with_context m a.malloc
        (λ context. submit_buzzer a (run_buzzer_beep duration_ms) true context false m))

-- The context is where the caller wants the value; it is not freed.
unfoldable pub device_light_read : Answers → ℕ → DeviceManager → Outcome
unfolding ensure_initialized
device_light_read a value m =
    or_return m (ensure_initialized m) (submit_light a run_light_read false value true m)

unfoldable pub device_segment_display : ℤ → DeviceManager → Outcome
unfolding ensure_initialized
device_segment_display value m = or_return m (ensure_initialized m) (
    if not (is_digit_value value)
    then some (returns invalid_value, m)
    else some (returns ok, record m { countdown = set_countdown value m.countdown }))

unfoldable pub device_segment_clear : Answers → DeviceManager → Outcome
unfolding ensure_initialized
device_segment_clear a m =
    or_return m (ensure_initialized m)
      (some (returns a.called, record m { countdown = clear_countdown m.countdown }))

pub record DeviceStatus : Type 0 where
  pub initialized : Bool
  pub led_on : Bool
  pub buzzer_on : Bool
  pub light_value : ℤ
  pub segment_enabled : Bool
  pub segment_value : ℤ

-- What the plugins' is_on and get_last_value answer.
pub record Observed : Type 0 where
  pub led_on : Bool
  pub buzzer_on : Bool
  pub light_value : ℤ

unfoldable pub device_get_status : Observed → DeviceManager → DeviceStatus
device_get_status o m =
    if not m.initialized
    then record {
      initialized = false;
      led_on = false;
      buzzer_on = false;
      light_value = negsuc 0;
      segment_enabled = false;
      segment_value = pos 0;
    }
    else record {
      initialized = true;
      led_on = o.led_on;
      buzzer_on = o.buzzer_on;
      light_value = o.light_value;
      segment_enabled = m.countdown.enabled;
      segment_value = m.countdown.value;
    }

pub record PluginStatus : Type 0 where
  pub led_loaded : Bool
  pub buzzer_loaded : Bool
  pub light_loaded : Bool
  pub segment_loaded : Bool

abbrev is_loaded : Option ℕ → Bool
is_loaded none = false
is_loaded (some handle) = true

unfoldable pub plugin_get_status : DeviceManager → PluginStatus
plugin_get_status m = record {
  led_loaded = is_loaded m.plugins.led.handle;
  buzzer_loaded = is_loaded m.plugins.buzzer.handle;
  light_loaded = is_loaded m.plugins.light.handle;
  segment_loaded = is_loaded m.plugins.segment.handle;
}
