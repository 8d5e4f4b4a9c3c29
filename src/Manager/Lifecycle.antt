-- ===== src/Manager/Lifecycle.antt =====
-- device_init and device_cleanup: what they acquire and give back.
use tcpremote_device_control.Base.{
  ℕ, ◌<◌, ◌≡◌, ◌&&◌, inl, inr, refl, sym, ap, ◌>>=◌, subst, true, false, if◌then◌else◌, List, [],
  ◌∷◌, Option, none, some, arith, Bool-cases, length,
}
use tcpremote_device_control.DeviceResult.{DeviceResult, ok, is_ok, cancelled}
use tcpremote_device_control.Plugin.Held.{
  led, buzzer, light, segment, Resource, plugin, worker, thread, Event, release, held,
}
use tcpremote_device_control.Plugin.Registry.{plugin_registry_load, PluginSet}
use tcpremote_device_control.Plugin.Registry.Rollback.{
  four_libraries, AllOrNothing, all, nothing, plugin_registry_load-AllOrNothing,
}
use tcpremote_device_control.Plugin.Registry.Handles.{opened, Open, plugin_registry_close-Closed}
use tcpremote_device_control.Worker.{DeviceWorker, request_stop, finish_stop}
use tcpremote_device_control.Worker.Tasks.{Heap}
use tcpremote_device_control.Worker.Tasks.Chain.{Cells}
use tcpremote_device_control.Worker.Queue.{IsQueue}
use tcpremote_device_control.Worker.Cancel.{device_worker_cancel_pending-Swept}
use tcpremote_device_control.Manager.Refresh.{end_thread}
use tcpremote_device_control.Manager.{
  DeviceManager, Environment, device_init, init_from_led, init_from_buzzer, init_from_light,
  init_from_segment, init_from_workers, undo_led, undo_buzzer, undo_light, undo_segment,
  device_cleanup, start_device_workers, stop_device_workers, Job, stop_led_worker,
  stop_buzzer_worker, joined, called_off, noted, has_ended, if_joined, or_undo, close_plugins,
  load_plugins, load_plugins,
}
use tcpremote_device_control.Manager.States.{
  running, none_started, four_plugins, Up, Down, Still, Started, start_device_workers-Started,
}

-- The end of device_init: everything runs, or nothing is left.
pub data UpOrDown (r : DeviceResult) (m : DeviceManager) : Type 0 where
  up : r ≡ ok → Up m → UpOrDown r m
  down : is_ok r ≡ false → Down m → UpOrDown r m

opened_four :
    (s : PluginSet) (log : List Event)
    → Open s
    → held log ≡ some four_libraries
    → held log ≡ some (opened s [])
opened_four s log o h = ground arith

close_plugins-Down : (m : DeviceManager) → Still four_libraries m → Down (close_plugins m)
close_plugins-Down m s =
    let (closed, back) =
      plugin_registry_close-Closed m.plugins m.trace []
        (opened_four m.plugins m.trace s.loaded s.holds) in
    record {
      uninitialized = s.uninitialized;
      led_stopped = s.led_stopped;
      buzzer_stopped = s.buzzer_stopped;
      light_stopped = s.light_stopped;
      thread_stopped = s.thread_stopped;
      thread_ended = s.thread_ended;
      holds = back;
    }

-- Another trace.
Still-trace :
    (rs rs' : List Resource) (m : DeviceManager) (log : List Event)
    → Still rs m
    → held log ≡ some rs'
    → Still rs' (record m { trace = log })
Still-trace rs rs' m log s h = record {
  uninitialized = s.uninitialized;
  loaded = s.loaded;
  led_stopped = s.led_stopped;
  buzzer_stopped = s.buzzer_stopped;
  light_stopped = s.light_stopped;
  thread_stopped = s.thread_stopped;
  thread_ended = s.thread_ended;
  holds = h;
}

abbrev led_up : List Resource
led_up = plugin led ∷ four_libraries

abbrev buzzer_up : List Resource
buzzer_up = plugin buzzer ∷ led_up

abbrev light_up : List Resource
light_up = plugin light ∷ buzzer_up

undo_led-Down : (m : DeviceManager) → Still led_up m → Down (undo_led m)
undo_led-Down m s = close_plugins-Down _ (Still-trace led_up four_libraries m _ s (rw s.holds refl))

undo_buzzer-Down : (m : DeviceManager) → Still buzzer_up m → Down (undo_buzzer m)
undo_buzzer-Down m s = undo_led-Down _ (Still-trace buzzer_up led_up m _ s (rw s.holds refl))

undo_light-Down : (m : DeviceManager) → Still light_up m → Down (undo_light m)
undo_light-Down m s = undo_buzzer-Down _ (Still-trace light_up buzzer_up m _ s (rw s.holds refl))

undo_segment-Down : (m : DeviceManager) → Still four_plugins m → Down (undo_segment m)
undo_segment-Down m s =
    undo_light-Down _ (Still-trace four_plugins light_up m _ s (rw s.holds refl))

is_ok-eq : (r : DeviceResult) → is_ok r ≡ true → r ≡ ok
is_ok-eq r e = ground arith

Started-UpOrDown :
    (o : DeviceResult × DeviceManager)
    → Started o.0 o.1
    → let c = or_undo undo_segment (λ m. (ok, record m { initialized = true })) o in
      UpOrDown c.0 c.1
Started-UpOrDown (r, m) (running e _ u) = simp e (up refl u)
Started-UpOrDown (r, m) (none_started e s) = simp e (down e (undo_segment-Down m s))

init_from_workers-UpOrDown :
    (env : Environment) (m : DeviceManager)
    → Still four_plugins m
    → let o = init_from_workers env m in UpOrDown o.0 o.1
unfolding init_from_workers
init_from_workers-UpOrDown env m s =
    Started-UpOrDown (start_device_workers env m) (start_device_workers-Started env m s)

init_from_segment-UpOrDown :
    (env : Environment) (m : DeviceManager)
    → Still light_up m
    → let o = init_from_segment env m in UpOrDown o.0 o.1
unfolding init_from_segment
init_from_segment-UpOrDown env m s = elim (Bool-cases (is_ok (env.init segment))) [
  | inr e ↦ simp e (down e (undo_light-Down m s))
  | inl e ↦
      simp e (
        init_from_workers-UpOrDown env _
          (Still-trace light_up four_plugins m _ s (rw s.holds refl)))
]

init_from_light-UpOrDown :
    (env : Environment) (m : DeviceManager)
    → Still buzzer_up m
    → let o = init_from_light env m in UpOrDown o.0 o.1
unfolding init_from_light
init_from_light-UpOrDown env m s = elim (Bool-cases (is_ok (env.init light))) [
  | inr e ↦ simp e (down e (undo_buzzer-Down m s))
  | inl e ↦
      simp e
        (init_from_segment-UpOrDown env _ (Still-trace buzzer_up light_up m _ s (rw s.holds refl)))
]

init_from_buzzer-UpOrDown :
    (env : Environment) (m : DeviceManager)
    → Still led_up m
    → let o = init_from_buzzer env m in UpOrDown o.0 o.1
unfolding init_from_buzzer
init_from_buzzer-UpOrDown env m s = elim (Bool-cases (is_ok (env.init buzzer))) [
  | inr e ↦ simp e (down e (undo_led-Down m s))
  | inl e ↦
      simp e (init_from_light-UpOrDown env _ (Still-trace led_up buzzer_up m _ s (rw s.holds refl)))
]

init_from_led-UpOrDown :
    (env : Environment) (m : DeviceManager)
    → Still four_libraries m
    → let o = init_from_led env m in UpOrDown o.0 o.1
unfolding init_from_led
init_from_led-UpOrDown env m s = elim (Bool-cases (is_ok (env.init led))) [
  | inr e ↦ simp e (down e (close_plugins-Down m s))
  | inl e ↦
      simp e (
        init_from_buzzer-UpOrDown env _ (Still-trace four_libraries led_up m _ s (rw s.holds refl)))
]

AllOrNothing-UpOrDown :
    (env : Environment) (m : DeviceManager) (o : DeviceResult × PluginSet × List Event)
    → Down m
    → AllOrNothing [] o.0 o.1 o.2
    → let c = or_undo (λ m. m) (init_from_led env) (o.0, record m { plugins = o.1; trace = o.2 }) in
      UpOrDown c.0 c.1
AllOrNothing-UpOrDown env m (r, set, log) d (all e o h) = simp e (
    init_from_led-UpOrDown env _ (record {
      uninitialized = d.uninitialized;
      loaded = o;
      led_stopped = d.led_stopped;
      buzzer_stopped = d.buzzer_stopped;
      light_stopped = d.light_stopped;
      thread_stopped = d.thread_stopped;
      thread_ended = d.thread_ended;
      holds = h;
    }))
AllOrNothing-UpOrDown env m (r, set, log) d (nothing e c h) = simp e (
    down e (record {
      uninitialized = d.uninitialized;
      led_stopped = d.led_stopped;
      buzzer_stopped = d.buzzer_stopped;
      light_stopped = d.light_stopped;
      thread_stopped = d.thread_stopped;
      thread_ended = d.thread_ended;
      holds = h;
    }))

-- Starting from nothing, device_init ends with OK and everything running and held, or with an error
-- and nothing running; in that case all that it acquired was given back, the last acquired first.
pub device_init-UpOrDown :
    (env : Environment) (m : DeviceManager) → Down m → let o = device_init env m in UpOrDown o.0 o.1
unfolding device_init
device_init-UpOrDown env m d =
    subst
      (λ b.
        let c = if b then (ok, m) else or_undo (λ m. m) (init_from_led env) (load_plugins env m) in
        UpOrDown c.0 c.1)
      (sym d.uninitialized)
      (AllOrNothing-UpOrDown env m (plugin_registry_load env.system m.trace) d
        (plugin_registry_load-AllOrNothing env.system m.trace [] d.holds))

-- The state behind the four stops: `log` is the trace behind `buzzer.off`, and `w` and `h` are what
-- cancelling the buzzer's tasks leaves.
abbrev after_stops : DeviceManager → DeviceWorker → Heap Job → List Event → DeviceManager
after_stops m w h log = stop_led_worker (
    stop_buzzer_worker (record m {
      initialized = false;
      segment_thread_started = false;
      countdown = end_thread m.countdown;
      light_worker = joined m.light_worker;
      buzzer_worker = w;
      tasks = h;
      trace = log;
    }))

stopped :
    (m : DeviceManager) (w : DeviceWorker) (h : Heap Job) (log : List Event)
    → Up m
    → w.started ≡ true
    → held log ≡ some (worker buzzer ∷ worker led ∷ four_plugins)
    → Still four_plugins (after_stops m w h log)
unfolding request_stop finish_stop
stopped m w h log u s e = record {
  uninitialized = refl;
  loaded = u.loaded;
  led_stopped = rw u.led_started refl;
  buzzer_stopped = rw s refl;
  light_stopped = rw u.light_started refl;
  thread_stopped = refl;
  thread_ended = refl;
  holds = simp (u.led_started, s, e);
}

abbrev quiet_trace : DeviceManager → List Event
quiet_trace m = called_off m.plugins.buzzer.off (
    noted (has_ended m.light_worker) (release (worker light))
      (noted (m.segment_thread_started && true) (release thread) m.trace))

if_joined-Still : (rs : List Resource) (m : DeviceManager) → Still rs m → if_joined m ≡ some m
if_joined-Still rs m s =
    simp (s.thread_stopped, s.light_stopped, s.buzzer_stopped, s.led_stopped) refl

quiet_held :
    (m : DeviceManager)
    → Up m
    → (off : Option ℕ)
    → held (
        called_off off (
          noted
            (has_ended m.light_worker)
            (release (worker light))
            (noted (m.segment_thread_started && true) (release thread) m.trace)))
      ≡ some (worker buzzer ∷ worker led ∷ four_plugins)
unfolding request_stop finish_stop
quiet_held m u none = simp (u.light_started, u.thread_started, u.holds)
quiet_held m u (some off) = simp (u.light_started, u.thread_started, u.holds)

-- From everything running, device_cleanup ends with nothing running and nothing held: the thread and
-- the workers are stopped, the plugins cleaned up and the libraries closed, each once and the last
-- acquired first. It returns, with more fuel than there are tasks in
-- the buzzer's queue.
pub device_cleanup-Down :
    (m : DeviceManager) (cs : Cells Job) (fuel : ℕ)
    → length cs < fuel
    → Up m
    → IsQueue m.buzzer_worker m.tasks cs
    → (m' : DeviceManager) × (device_cleanup fuel m ≡ some m') × Down m'
unfolding device_cleanup stop_device_workers
device_cleanup-Down m cs fuel enough u q =
    let (w, h, e, _, _, _, s) =
      device_worker_cancel_pending-Swept m.buzzer_worker m.tasks cs cancelled fuel enough q
        u.buzzer_started in
    let stop = stopped m w h (quiet_trace m) u s (quiet_held m u m.plugins.buzzer.off) in
    (
      undo_segment (after_stops m w h (quiet_trace m)),
      simp (u.initialized, e)
          (ap (λ o. o >>= λ m'. some (undo_segment m'))
            (if_joined-Still four_plugins (after_stops m w h (quiet_trace m)) stop)),
      undo_segment-Down _ stop,
    )
