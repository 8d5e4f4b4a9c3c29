-- ===== src/Tests/Managers.antt =====
-- Plugins in /opt/devices, and a manager that plays a melody.
use tcpremote_device_control.Base.{
  ◌≡◌, refl, true, false, [], ◌∷◌, none, some, pos, codes, length, All, equal_bytes, if◌then◌else◌,
  ◌==◌, arith,
}
use tcpremote_device_control.DeviceResult.{ok, gpio_setup_failed, invalid_value}
use tcpremote_device_control.Plugin.Held.{
  led, buzzer, light, segment, acquire, worker, plugin, library, thread,
}
use tcpremote_device_control.Plugin.Loader.{System, plugin_loader_open}
use tcpremote_device_control.Plugin.Loader.Search.{
  first_loaded, candidates, plugin_loader_open-first,
}
use tcpremote_device_control.Plugin.Registry.{PluginSet, no_plugins, plugin_registry_load}
use tcpremote_device_control.Plugin.Registry.Rollback.{
  AllOrNothing, plugin_registry_load-AllOrNothing,
}
use tcpremote_device_control.Worker.{DeviceWorker, Grants, stopped_worker, new_task, returns}
use tcpremote_device_control.Worker.Tasks.{Heap, Task}
use tcpremote_device_control.Worker.Tasks.Chain.{Cells}
use tcpremote_device_control.Worker.Queue.{IsQueue}
use tcpremote_device_control.Manager.{
  Job, run_buzzer_music, DeviceManager, Environment, device_init, device_cleanup,
}
use tcpremote_device_control.Manager.States.{Up, Down}
use tcpremote_device_control.Manager.Lifecycle.{UpOrDown, device_init-UpOrDown, device_cleanup-Down}
use tcpremote_device_control.Manager.Refresh.{
  Countdown, at_top, beep, clear, display, segment_refresh_loop, prepare_thread, set_countdown,
}
use tcpremote_device_control.Manager.Refresh.Run.{
  turns, shown, segment_refresh_loop-turns, Reachable, starts, displays, IsDigit, DigitCall,
  Reachable-digits,
}
use tcpremote_device_control.Manager.Commands.{Answers}
use tcpremote_device_control.Manager.Commands.Guards.{buzzer_beep, request, request-refused}

abbrev pub system : System
system = record {
  dlopen = λ p. if equal_bytes p (codes "/opt/devices/led/libled.so") then some 7 else none;
  dlsym = λ handle name. (some (length name), false);
  getenv = λ name.
      if equal_bytes name (codes "PLUGIN_LIB_DIR") then some (codes "/opt/devices") else none;
  readlink = λ size. none;
}

plugin_loader_open-first_example :
    plugin_loader_open system (codes "led")
    ≡ first_loaded system.dlopen (candidates system (codes "led"))
plugin_loader_open-first_example = plugin_loader_open-first system 108 (codes "ed")

plugin_registry_load-AllOrNothing_example :
    let o = plugin_registry_load system [] in AllOrNothing [] o.0 o.1 o.2
plugin_registry_load-AllOrNothing_example = plugin_registry_load-AllOrNothing system [] [] refl

abbrev still : Countdown
still = record { running = false; enabled = false; value = pos 0; calls = [] }

abbrev no_tasks : Heap Job
no_tasks = record { task = λ a. none; fresh = 1; cleaned = [] }

abbrev pub idle : DeviceManager
idle = record {
  plugins = no_plugins;
  initialized = false;
  segment_thread_started = false;
  countdown = still;
  led_worker = stopped_worker;
  buzzer_worker = stopped_worker;
  light_worker = stopped_worker;
  tasks = no_tasks;
  trace = [];
}

abbrev pub all_granted : Grants
all_granted = record { memory = true; mutex = true; cond = true; thread = true }

abbrev pub no_segment : Environment
no_segment = record {
  system = record system { dlopen = λ p. some (length p) };
  init = λ p. elim p [ segment ↦ gpio_setup_failed | _ ↦ ok ];
  grants = λ p. all_granted;
  segment_thread = true;
}

pub idle-Down : Down idle
idle-Down = record {
  uninitialized = refl;
  led_stopped = refl;
  buzzer_stopped = refl;
  light_stopped = refl;
  thread_stopped = refl;
  thread_ended = refl;
  holds = refl;
}

device_init-UpOrDown_example : let o = device_init no_segment idle in UpOrDown o.0 o.1
device_init-UpOrDown_example = device_init-UpOrDown no_segment idle idle-Down

abbrev melody : Task Job
melody = new_task (run_buzzer_music (codes "metro.wav")) true 70 false

abbrev idle_worker : DeviceWorker
idle_worker = record { running = true; started = true; head = none; tail = none }

abbrev loaded : PluginSet
loaded = record {
  led = record no_plugins.led { handle = some 1 };
  buzzer = record no_plugins.buzzer { handle = some 2; off = some 20 };
  light = record no_plugins.light { handle = some 3 };
  segment = record no_plugins.segment { handle = some 4 };
}

abbrev playing : DeviceManager
playing = record {
  plugins = loaded;
  initialized = true;
  segment_thread_started = true;
  countdown = record still { running = true };
  led_worker = idle_worker;
  buzzer_worker = record idle_worker { head = some 3; tail = some 3 };
  light_worker = idle_worker;
  tasks = record { task = λ a. if a == 3 then some melody else none; fresh = 4; cleaned = [] };
  trace =
      acquire thread
      ∷ acquire (worker light)
      ∷ acquire (worker buzzer)
      ∷ acquire (worker led)
      ∷ acquire (plugin segment)
      ∷ acquire (plugin light)
      ∷ acquire (plugin buzzer)
      ∷ acquire (plugin led)
      ∷ acquire (library segment)
      ∷ acquire (library light)
      ∷ acquire (library buzzer)
      ∷ acquire (library led)
      ∷ [];
}

playing-Up : Up playing
playing-Up = record {
  initialized = refl;
  loaded = record { led_open = refl; buzzer_open = refl; light_open = refl; segment_open = refl };
  led_started = refl;
  buzzer_started = refl;
  light_started = refl;
  led_running = refl;
  buzzer_running = refl;
  light_running = refl;
  thread_started = refl;
  thread_running = refl;
  holds = refl;
}

abbrev one_cell : Cells Job
one_cell = (3, melody) ∷ []

playing-IsQueue : IsQueue playing.buzzer_worker playing.tasks one_cell
playing-IsQueue = record {
  chain = (refl, (none, refl, refl));
  tail = refl;
  distinct = (tt, tt);
  below = (omega arith, tt);
}

device_cleanup-Down_example : (m' : DeviceManager) × (device_cleanup 2 playing ≡ some m') × Down m'
device_cleanup-Down_example =
    device_cleanup-Down playing one_cell 2 (omega arith) playing-Up playing-IsQueue

abbrev counting : Countdown
counting = set_countdown (pos 3) (record still { running = true })

segment_refresh_loop-turns_example : turns 8 (at_top, counting) ≡ (
  at_top,
  record counting { enabled = false; value = pos 0; calls = beep (pos 200) ∷ clear ∷ shown 3 [] },
)
segment_refresh_loop-turns_example = segment_refresh_loop-turns 3 counting refl refl refl

-- The digits in the order shown, and the display before the beep.
turns_test :
    (turns 8 (at_top, counting)).1.calls
    ≡ beep (pos 200)
      ∷ clear
      ∷ display (pos 0)
      ∷ display (pos 1)
      ∷ display (pos 2)
      ∷ display (pos 3)
      ∷ []
unfolding segment_refresh_loop
turns_test = refl

shows_four : Reachable at_top (set_countdown (pos 4) (prepare_thread still))
shows_four = displays (pos 4) (starts false false (pos 0) refl refl) refl refl

Reachable-digits_example :
    IsDigit (pos 4) × All DigitCall ((set_countdown (pos 4) (prepare_thread still)).calls)
Reachable-digits_example =
    Reachable-digits at_top (set_countdown (pos 4) (prepare_thread still)) shows_four

abbrev answers : Answers
answers = record { malloc = some 80; grants = all_granted; called = ok }

request-refused_example :
    request answers (buzzer_beep (pos 10001)) playing ≡ some (returns invalid_value, playing)
request-refused_example = request-refused answers (buzzer_beep (pos 10001)) playing refl
