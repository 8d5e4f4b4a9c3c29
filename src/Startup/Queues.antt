-- ===== src/Startup/Queues.antt =====
-- The buzzer's queue behind device_init.
use tcpremote_device_control.Base.{
  ◌≡◌, subst, if◌then◌else◌, inl, inr, sym, true, false, Bool-cases, true≢false, none, arith,
}
use tcpremote_device_control.DeviceResult.{DeviceResult, ok, is_ok}
use tcpremote_device_control.Plugin.Held.{led, buzzer, light, segment}
use tcpremote_device_control.Worker.{DeviceWorker, Grants, device_worker_start}
use tcpremote_device_control.Manager.{
  DeviceManager, Environment, device_init, init_from_led, init_from_buzzer, init_from_light,
  init_from_segment, init_from_workers, undo_led, undo_buzzer, undo_light, undo_segment,
  start_device_workers, init_plugin, close_plugins, load_plugins, or_undo, start_segment_thread,
}

-- A worker without tasks.
pub record IsIdle (w : DeviceWorker) : Type 0 where
  pub no_head : w.head ≡ none
  pub no_tail : w.tail ≡ none

abbrev IdleIfOk : DeviceResult × DeviceManager → Type 0
IdleIfOk o = is_ok o.0 ≡ true → IsIdle o.1.buzzer_worker

or_undo-IdleIfOk :
    (undo : DeviceManager → DeviceManager) (rest : DeviceManager → DeviceResult × DeviceManager)
    (o : DeviceResult × DeviceManager)
    → IdleIfOk (rest o.1)
    → IdleIfOk (or_undo undo rest o)
or_undo-IdleIfOk undo rest (result, m) h = elim (Bool-cases (is_ok result)) [
  | inl e ↦ simp e h
  | inr e ↦ simp e (λ g. absurd (true≢false (sym g)))
]

device_worker_start-IsIdle : (g : Grants) → IsIdle (device_worker_start g).0
unfolding device_worker_start
device_worker_start-IsIdle g = record { no_head = ground arith; no_tail = ground arith }

start_device_workers-IdleIfOk :
    (env : Environment) (m : DeviceManager) → IdleIfOk (start_device_workers env m)
unfolding start_device_workers start_segment_thread
start_device_workers-IdleIfOk env m =
    let idle = device_worker_start-IsIdle (env.grants buzzer) in
    elim (Bool-cases (is_ok (device_worker_start (env.grants led)).1)) [
      | inr e ↦ simp e (λ h. absurd (true≢false (sym h)))
      | inl e ↦ elim (Bool-cases (is_ok (device_worker_start (env.grants buzzer)).1)) [
        | inr f ↦ simp (e, f) (λ h. absurd (true≢false (sym h)))
        | inl f ↦ elim (Bool-cases (is_ok (device_worker_start (env.grants light)).1)) [
          | inr g ↦ simp (e, f, g) (λ h. absurd (true≢false (sym h)))
          | inl g ↦ elim (Bool-cases env.segment_thread) [
            | inr t ↦ simp (e, f, g, t) (λ h. absurd (true≢false (sym h)))
            | inl t ↦ simp (e, f, g, t) (λ h. idle)
          ]
        ]
      ]
    ]

init_from_workers-IdleIfOk :
    (env : Environment) (m : DeviceManager) → IdleIfOk (init_from_workers env m)
unfolding init_from_workers
init_from_workers-IdleIfOk env m =
    after_workers (start_device_workers env m) (start_device_workers-IdleIfOk env m)
  where
    after_workers :
        (o : DeviceResult × DeviceManager)
        → IdleIfOk o
        → IdleIfOk (or_undo undo_segment (λ m. (ok, record m { initialized = true })) o)
    after_workers (r, m) h = elim (Bool-cases (is_ok r)) [
      | inl e ↦ simp e (λ g. h e)
      | inr e ↦ simp e (λ g. absurd (true≢false (sym g)))
    ]

init_from_segment-IdleIfOk :
    (env : Environment) (m : DeviceManager) → IdleIfOk (init_from_segment env m)
unfolding init_from_segment
init_from_segment-IdleIfOk env m =
    or_undo-IdleIfOk undo_light (init_from_workers env) (init_plugin segment env m)
      (init_from_workers-IdleIfOk env (init_plugin segment env m).1)

init_from_light-IdleIfOk :
    (env : Environment) (m : DeviceManager) → IdleIfOk (init_from_light env m)
unfolding init_from_light
init_from_light-IdleIfOk env m =
    or_undo-IdleIfOk undo_buzzer (init_from_segment env) (init_plugin light env m)
      (init_from_segment-IdleIfOk env (init_plugin light env m).1)

init_from_buzzer-IdleIfOk :
    (env : Environment) (m : DeviceManager) → IdleIfOk (init_from_buzzer env m)
unfolding init_from_buzzer
init_from_buzzer-IdleIfOk env m =
    or_undo-IdleIfOk undo_led (init_from_light env) (init_plugin buzzer env m)
      (init_from_light-IdleIfOk env (init_plugin buzzer env m).1)

init_from_led-IdleIfOk : (env : Environment) (m : DeviceManager) → IdleIfOk (init_from_led env m)
unfolding init_from_led
init_from_led-IdleIfOk env m =
    or_undo-IdleIfOk close_plugins (init_from_buzzer env) (init_plugin led env m)
      (init_from_buzzer-IdleIfOk env (init_plugin led env m).1)

-- A device_init that was needed and succeeds leaves the buzzer's queue empty.
pub device_init-IdleIfOk :
    (env : Environment) (m : DeviceManager)
    → m.initialized ≡ false
    → is_ok (device_init env m).0 ≡ true
    → IsIdle (device_init env m).1.buzzer_worker
unfolding device_init
device_init-IdleIfOk env m e =
    subst
      (λ b.
        IdleIfOk (if b then (ok, m) else or_undo (λ m. m) (init_from_led env) (load_plugins env m)))
      (sym e)
      (or_undo-IdleIfOk (λ m. m) (init_from_led env) (load_plugins env m)
        (init_from_led-IdleIfOk env _))
