-- ===== src/Manager.antt =====
-- server/device/device_manager.c: starting and stopping the devices. The calls of one function that
-- other threads cannot tell apart are one step.
pub mod Refresh
pub mod Commands
pub mod States
pub mod Lifecycle
use tcpremote_device_control.Base.{
  ℕ, Bool, true, false, not, ◌&&◌, ◌||◌, if◌then◌else◌, List, [], ◌∷◌, Option, none, some, ◌>>=◌, ℤ,
  Bytes,
}
use tcpremote_device_control.DeviceResult.{DeviceResult, ok, is_ok, thread_failed, cancelled}
use tcpremote_device_control.Plugin.Held.{
  Plugin, led, buzzer, light, segment, Resource, plugin, worker, thread, Event, acquire, release,
  buzzer_off,
}
use tcpremote_device_control.Plugin.Loader.{System}
use tcpremote_device_control.Plugin.Registry.{
  PluginSet, plugin_registry_load, plugin_registry_close,
}
use tcpremote_device_control.Worker.{
  DeviceWorker, Grants, device_worker_start, request_stop, finish_stop,
  device_worker_cancel_pending,
}
use tcpremote_device_control.Worker.Tasks.{Heap}
use Refresh.{Countdown, prepare_thread, thread_refused, end_thread}

-- The functions handed to the workers, with the contexts that they read.
pub data Job : Type 0 where
  run_led_on run_led_off run_buzzer_on run_light_read : Job
  run_led_on_bright run_buzzer_beep : ℤ → Job
  run_buzzer_music : Bytes → Job

-- The static variables, the heap of tasks, and the trace of what was acquired and given back.
pub record DeviceManager : Type 0 where
  pub plugins : PluginSet
  pub initialized : Bool
  pub segment_thread_started : Bool
  pub countdown : Countdown
  pub led_worker : DeviceWorker
  pub buzzer_worker : DeviceWorker
  pub light_worker : DeviceWorker
  pub tasks : Heap Job
  pub trace : List Event

-- What the calls of other code answer: the dynamic linker, `init` of each plugin, the threads.
pub record Environment : Type 0 where
  pub system : System
  pub init : Plugin → DeviceResult
  pub grants : Plugin → Grants
  pub segment_thread : Bool

abbrev pub noted : Bool → Event → List Event → List Event
noted b e log = if b then e ∷ log else log

abbrev pub start_led_worker : Environment → DeviceManager → DeviceResult × DeviceManager
start_led_worker env m =
    let (w, r) = device_worker_start (env.grants led) in
    (r, record m { led_worker = w; trace = noted (is_ok r) (acquire (worker led)) m.trace })

abbrev pub start_buzzer_worker : Environment → DeviceManager → DeviceResult × DeviceManager
start_buzzer_worker env m =
    let (w, r) = device_worker_start (env.grants buzzer) in
    (r, record m { buzzer_worker = w; trace = noted (is_ok r) (acquire (worker buzzer)) m.trace })

abbrev pub start_light_worker : Environment → DeviceManager → DeviceResult × DeviceManager
start_light_worker env m =
    let (w, r) = device_worker_start (env.grants light) in
    (r, record m { light_worker = w; trace = noted (is_ok r) (acquire (worker light)) m.trace })

-- device_worker_stop: the join is between its two parts. The thread ends only once `running` is cleared,
-- and a join of a thread that goes on does not return: the worker then stays started.
abbrev pub joined : DeviceWorker → DeviceWorker
joined w = (let told = request_stop w in if told.running then told else finish_stop told)

-- Whether a thread was there and its join has returned.
abbrev pub has_ended : DeviceWorker → Bool
has_ended w = w.started && not (joined w).started

abbrev pub stop_led_worker : DeviceManager → DeviceManager
stop_led_worker m = record m {
  led_worker = joined m.led_worker;
  trace = noted (has_ended m.led_worker) (release (worker led)) m.trace;
}

abbrev pub stop_buzzer_worker : DeviceManager → DeviceManager
stop_buzzer_worker m = record m {
  buzzer_worker = joined m.buzzer_worker;
  trace = noted (has_ended m.buzzer_worker) (release (worker buzzer)) m.trace;
}

abbrev pub stop_light_worker : DeviceManager → DeviceManager
stop_light_worker m = record m {
  light_worker = joined m.light_worker;
  trace = noted (has_ended m.light_worker) (release (worker light)) m.trace;
}

unfoldable pub start_segment_thread : Environment → DeviceManager → DeviceResult × DeviceManager
start_segment_thread env m =
    let prepared = prepare_thread m.countdown in
    if not env.segment_thread
    then (thread_failed, record m { countdown = thread_refused prepared })
    else (
      ok,
      record m {
        countdown = prepared;
        segment_thread_started = true;
        trace = acquire thread ∷ m.trace;
      },
    )

abbrev pub stop_segment_thread : DeviceManager → DeviceManager
stop_segment_thread m =
    let told = end_thread m.countdown in
    let alive = told.running && m.segment_thread_started in
    record m {
      countdown = told;
      segment_thread_started = alive;
      trace = noted (m.segment_thread_started && not alive) (release thread) m.trace;
    }

-- `none` if one of the joins does not return.
abbrev pub if_joined : DeviceManager → Option DeviceManager
if_joined m =
    if m.segment_thread_started
      || (m.light_worker.started || (m.buzzer_worker.started || m.led_worker.started))
    then none
    else some m

-- `if (result != DEVICE_RESULT_OK) { undo; return result; }`, with the statements behind it.
abbrev pub or_undo :
    (DeviceManager → DeviceManager)
    → (DeviceManager → DeviceResult × DeviceManager)
    → DeviceResult × DeviceManager
    → DeviceResult × DeviceManager
or_undo undo rest (result, m) = if is_ok result then rest m else (result, undo m)

unfoldable pub start_device_workers : Environment → DeviceManager → DeviceResult × DeviceManager
unfolding start_segment_thread
start_device_workers env m =
    or_undo (λ m. m)
      (λ m.
        or_undo stop_led_worker
          (λ m.
            or_undo (λ m. stop_led_worker (stop_buzzer_worker m))
              (λ m.
                or_undo (λ m. stop_led_worker (stop_buzzer_worker (stop_light_worker m)))
                  (λ m. (ok, m)) (start_segment_thread env m))
              (start_light_worker env m))
          (start_buzzer_worker env m))
      (start_led_worker env m)

-- `if (plugins.buzzer.off != NULL) plugins.buzzer.off();`
abbrev pub called_off : Option ℕ → List Event → List Event
called_off none log = log
called_off (some off) log = buzzer_off ∷ log

abbrev pub silence : DeviceManager → DeviceManager
silence m = record m { trace = called_off m.plugins.buzzer.off m.trace }

-- The fuel is for device_worker_cancel_pending.
unfoldable pub stop_device_workers : ℕ → DeviceManager → Option DeviceManager
stop_device_workers fuel m =
    let quiet = silence (stop_light_worker (stop_segment_thread m)) in
    device_worker_cancel_pending fuel cancelled quiet.buzzer_worker quiet.tasks >>= λ r.
    if_joined
      (stop_led_worker (stop_buzzer_worker (record quiet { buzzer_worker = r.1; tasks = r.2 })))

abbrev pub init_plugin : Plugin → Environment → DeviceManager → DeviceResult × DeviceManager
init_plugin p env m =
    (env.init p, record m { trace = noted (is_ok (env.init p)) (acquire (plugin p)) m.trace })

abbrev pub cleanup_plugin : Plugin → DeviceManager → DeviceManager
cleanup_plugin p m = record m { trace = release (plugin p) ∷ m.trace }

abbrev pub load_plugins : Environment → DeviceManager → DeviceResult × DeviceManager
load_plugins env m =
    let (r, set, log) = plugin_registry_load env.system m.trace in
    (r, record m { plugins = set; trace = log })

abbrev pub close_plugins : DeviceManager → DeviceManager
close_plugins m =
    let (set, log) = plugin_registry_close m.plugins m.trace in
    record m { plugins = set; trace = log }

abbrev pub undo_led : DeviceManager → DeviceManager
undo_led m = close_plugins (cleanup_plugin led m)

abbrev pub undo_buzzer : DeviceManager → DeviceManager
undo_buzzer m = undo_led (cleanup_plugin buzzer m)

abbrev pub undo_light : DeviceManager → DeviceManager
undo_light m = undo_buzzer (cleanup_plugin light m)

abbrev pub undo_segment : DeviceManager → DeviceManager
undo_segment m = undo_light (cleanup_plugin segment m)

-- device_init from each of its later steps on.
unfoldable pub init_from_workers : Environment → DeviceManager → DeviceResult × DeviceManager
unfolding start_device_workers
init_from_workers env m =
    or_undo undo_segment (λ m. (ok, record m { initialized = true })) (start_device_workers env m)

unfoldable pub init_from_segment : Environment → DeviceManager → DeviceResult × DeviceManager
unfolding init_from_workers
init_from_segment env m = or_undo undo_light (init_from_workers env) (init_plugin segment env m)

unfoldable pub init_from_light : Environment → DeviceManager → DeviceResult × DeviceManager
unfolding init_from_segment
init_from_light env m = or_undo undo_buzzer (init_from_segment env) (init_plugin light env m)

unfoldable pub init_from_buzzer : Environment → DeviceManager → DeviceResult × DeviceManager
unfolding init_from_light
init_from_buzzer env m = or_undo undo_led (init_from_light env) (init_plugin buzzer env m)

unfoldable pub init_from_led : Environment → DeviceManager → DeviceResult × DeviceManager
unfolding init_from_buzzer
init_from_led env m = or_undo close_plugins (init_from_buzzer env) (init_plugin led env m)

unfoldable pub device_init : Environment → DeviceManager → DeviceResult × DeviceManager
unfolding init_from_led
device_init env m =
    if m.initialized then (ok, m) else or_undo (λ m. m) (init_from_led env) (load_plugins env m)

unfoldable pub device_cleanup : ℕ → DeviceManager → Option DeviceManager
unfolding stop_device_workers
device_cleanup fuel m =
    if not m.initialized
    then some m
    else (stop_device_workers fuel (record m { initialized = false }) >>= λ m'.
        some (undo_segment m'))
