-- ===== src/Manager/States.antt =====
-- What the manager holds when it runs and when it does not, and the start of its threads.
use tcpremote_device_control.Base.{
  ◌≡◌, inl, inr, refl, ◌∙◌, Bool, true, false, List, [], ◌∷◌, some, arith, Bool-cases,
}
use tcpremote_device_control.DeviceResult.{DeviceResult, ok, is_ok}
use tcpremote_device_control.Plugin.Held.{
  led, buzzer, light, segment, Resource, plugin, worker, thread, held,
}
use tcpremote_device_control.Plugin.Registry.Rollback.{four_libraries}
use tcpremote_device_control.Plugin.Registry.Handles.{Open}
use tcpremote_device_control.Worker.{Grants, device_worker_start, request_stop, finish_stop}
use tcpremote_device_control.Manager.{
  DeviceManager, Environment, start_device_workers, start_segment_thread,
}

abbrev pub four_plugins : List Resource
four_plugins = plugin segment ∷ plugin light ∷ plugin buzzer ∷ plugin led ∷ four_libraries

abbrev pub all_resources : List Resource
all_resources = thread ∷ worker light ∷ worker buzzer ∷ worker led ∷ four_plugins

-- Everything runs.
pub record Up (m : DeviceManager) : Type 0 where
  pub initialized : m.initialized ≡ true
  pub loaded : Open m.plugins
  pub led_started : m.led_worker.started ≡ true
  pub buzzer_started : m.buzzer_worker.started ≡ true
  pub light_started : m.light_worker.started ≡ true
  pub led_running : m.led_worker.running ≡ true
  pub buzzer_running : m.buzzer_worker.running ≡ true
  pub light_running : m.light_worker.running ≡ true
  pub thread_started : m.segment_thread_started ≡ true
  pub thread_running : m.countdown.running ≡ true
  pub holds : held m.trace ≡ some all_resources

-- Nothing runs, and nothing is held.
pub record Down (m : DeviceManager) : Type 0 where
  pub uninitialized : m.initialized ≡ false
  pub led_stopped : m.led_worker.started ≡ false
  pub buzzer_stopped : m.buzzer_worker.started ≡ false
  pub light_stopped : m.light_worker.started ≡ false
  pub thread_stopped : m.segment_thread_started ≡ false
  pub thread_ended : m.countdown.running ≡ false
  pub holds : held m.trace ≡ some []

-- What start_device_workers does to what is held.
pub record Still (rs : List Resource) (m : DeviceManager) : Type 0 where
  pub uninitialized : m.initialized ≡ false
  pub loaded : Open m.plugins
  pub led_stopped : m.led_worker.started ≡ false
  pub buzzer_stopped : m.buzzer_worker.started ≡ false
  pub light_stopped : m.light_worker.started ≡ false
  pub thread_stopped : m.segment_thread_started ≡ false
  pub thread_ended : m.countdown.running ≡ false
  pub holds : held m.trace ≡ some rs

pub data Started (r : DeviceResult) (m : DeviceManager) : Type 0 where
  running : r ≡ ok → m.initialized ≡ false → Up (record m { initialized = true }) → Started r m
  none_started : is_ok r ≡ false → Still four_plugins m → Started r m

pub device_worker_start-started :
    (g : Grants) → (device_worker_start g).0.started ≡ is_ok (device_worker_start g).1
unfolding device_worker_start
device_worker_start-started g = ground arith

-- The thread runs from its start on.
pub device_worker_start-running : (g : Grants) → (device_worker_start g).0.running ≡ true
unfolding device_worker_start
device_worker_start-running g = ground arith

module _ (g : Grants) (b : Bool) (e : is_ok (device_worker_start g).1 ≡ b) where
  started_as : (device_worker_start g).0.started ≡ b
  started_as = device_worker_start-started g ∙ e

pub start_device_workers-Started :
    (env : Environment) (m : DeviceManager)
    → Still four_plugins m
    → let o = start_device_workers env m in Started o.0 o.1
unfolding start_device_workers start_segment_thread request_stop finish_stop
start_device_workers-Started env m s =
    elim (Bool-cases (is_ok (device_worker_start (env.grants led)).1)) [
      | inr e ↦ simp e (
          none_started e (record {
            uninitialized = s.uninitialized;
            loaded = s.loaded;
            led_stopped = started_as (env.grants led) false e;
            buzzer_stopped = s.buzzer_stopped;
            light_stopped = s.light_stopped;
            thread_stopped = s.thread_stopped;
            thread_ended = s.thread_ended;
            holds = s.holds;
          }))
      | inl e ↦ elim (Bool-cases (is_ok (device_worker_start (env.grants buzzer)).1)) [
        | inr f ↦
            simp (e, f, started_as (env.grants led) true e)
              (none_started f (record {
                uninitialized = s.uninitialized;
                loaded = s.loaded;
                led_stopped = refl;
                buzzer_stopped = started_as (env.grants buzzer) false f;
                light_stopped = s.light_stopped;
                thread_stopped = s.thread_stopped;
                thread_ended = s.thread_ended;
                holds = rw s.holds refl;
              }))
        | inl f ↦ elim (Bool-cases (is_ok (device_worker_start (env.grants light)).1)) [
          | inr g ↦
              simp
                (e, f, g, started_as (env.grants led) true e, started_as (env.grants buzzer) true f)
                (none_started g (record {
                  uninitialized = s.uninitialized;
                  loaded = s.loaded;
                  led_stopped = refl;
                  buzzer_stopped = refl;
                  light_stopped = started_as (env.grants light) false g;
                  thread_stopped = s.thread_stopped;
                  thread_ended = s.thread_ended;
                  holds = rw s.holds refl;
                }))
          | inl g ↦ elim (Bool-cases env.segment_thread) [
            | inr t ↦
                simp
                  (
                    e,
                    f,
                    g,
                    t,
                    started_as (env.grants led) true e,
                    started_as (env.grants buzzer) true f,
                    started_as (env.grants light) true g,
                  )
                  (none_started refl (record {
                    uninitialized = s.uninitialized;
                    loaded = s.loaded;
                    led_stopped = refl;
                    buzzer_stopped = refl;
                    light_stopped = refl;
                    thread_stopped = s.thread_stopped;
                    thread_ended = refl;
                    holds = rw s.holds refl;
                  }))
            | inl t ↦
                simp (e, f, g, t)
                  (running refl s.uninitialized (record {
                    initialized = refl;
                    loaded = s.loaded;
                    led_started = started_as (env.grants led) true e;
                    buzzer_started = started_as (env.grants buzzer) true f;
                    light_started = started_as (env.grants light) true g;
                    led_running = device_worker_start-running (env.grants led);
                    buzzer_running = device_worker_start-running (env.grants buzzer);
                    light_running = device_worker_start-running (env.grants light);
                    thread_started = refl;
                    thread_running = refl;
                    holds = rw s.holds refl;
                  }))
          ]
        ]
      ]
    ]
