-- ===== src/Worker/Blocked.antt =====
-- server/device/device_worker.c: device_worker_submit with its wait, while the worker's thread runs the
-- queue. What the functions of the tasks return is a parameter.
pub mod Drained
pub mod Answered
use tcpremote_device_control.Base.{ℕ, zero, suc, Bool, true, Option, none, some, ◌>>=◌}
use tcpremote_device_control.DeviceResult.{DeviceResult}
use tcpremote_device_control.Worker.{
  DeviceWorker, Grants, Submitted, returns, waits, Next, sleeps, exits, runs, device_worker_submit,
  next_task, finish_task, collect_result,
}
use tcpremote_device_control.Worker.Tasks.{Heap}

module _ {J : Type 0} (run : J → DeviceResult) where
  -- A task's function, and the rest of the round.
  unfoldable pub execute_task : ℕ → Heap J → Option (Heap J)
  unfolding finish_task
  execute_task a h = do t ← h.task a; finish_task a (run t.run) h

  abbrev pub go_round :
      Next
      → DeviceWorker
      → Heap J
      → (Heap J → Option (DeviceWorker × Heap J))
      → Option (DeviceWorker × Heap J)
  go_round (runs a) w h next = execute_task a h >>= next
  go_round _ w h next = some (w, h)

  -- device_worker_loop until it sleeps or ends, on fuel.
  unfoldable pub drain : ℕ → DeviceWorker → Heap J → Option (DeviceWorker × Heap J)
  unfolding next_task execute_task
  drain zero w h = none
  drain (suc fuel) w h = next_task w h >>= λ r. go_round r.0 r.1 h (λ h'. drain fuel r.1 h')

  abbrev pub hand_over :
      Option DeviceResult → DeviceWorker → Heap J → Option (DeviceResult × DeviceWorker × Heap J)
  hand_over none w h = none
  hand_over (some result) w h = some (result, w, h)

  -- The wait, and what is behind it.
  abbrev pub come_back :
      ℕ → Submitted → DeviceWorker → Heap J → Option (DeviceResult × DeviceWorker × Heap J)
  come_back fuel (returns result) w h = some (result, w, h)
  come_back fuel (waits a) w h =
      drain fuel w h >>= λ r. (collect_result a r.1 >>= λ c. hand_over c.0 r.0 c.1)

  unfoldable pub submit_and_wait :
      ℕ
      → Grants
      → J
      → Bool
      → ℕ
      → DeviceWorker
      → Heap J
      → Option (DeviceResult × DeviceWorker × Heap J)
  unfolding device_worker_submit drain collect_result
  submit_and_wait fuel grants job cleanup context w h =
      device_worker_submit grants (some job) cleanup context true w h >>= λ r.
      come_back fuel r.0 r.1 r.2
