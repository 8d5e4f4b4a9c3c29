-- ===== src/Tests/Workers.antt =====
-- A worker with two queued tasks.
use tcpremote_device_control.Base.{
  ◌%◌, ◌==◌, if◌then◌else◌, ℕ, ◌≡◌, refl, true, false, [], ◌∷◌, none, some, arith, ◌==◌,
  if◌then◌else◌,
}
use tcpremote_device_control.DeviceResult.{DeviceResult, ok, device_failed, cancelled}
use tcpremote_device_control.Worker.{
  DeviceWorker, Grants, Submitted, device_worker_submit, device_worker_cancel_pending, new_task,
}
use tcpremote_device_control.Worker.Tasks.{Task, Heap}
use tcpremote_device_control.Worker.Tasks.Chain.{Cells}
use tcpremote_device_control.Worker.Queue.{IsQueue}
use tcpremote_device_control.Worker.Submit.{Queued, device_worker_submit-Queued}
use tcpremote_device_control.Worker.Refuse.{Refused, device_worker_submit-Refused}
use tcpremote_device_control.Worker.Blocked.{submit_and_wait}
use tcpremote_device_control.Worker.Blocked.Answered.{Answered, submit_and_wait-Answered}
use tcpremote_device_control.Worker.Cancel.{Swept, device_worker_cancel_pending-Swept}

-- Jobs are numbers here.
abbrev beep : Task ℕ
beep = new_task 500 true 70 false

abbrev tone : Task ℕ
tone = new_task 440 false 71 true

abbrev two_tasks : Heap ℕ
two_tasks = record {
  task = λ a.
      if a == 3 then some (record beep { next = some 4 }) else if a == 4 then some tone else none;
  fresh = 5;
  cleaned = [];
}

abbrev busy : DeviceWorker
busy = record { running = true; started = true; head = some 3; tail = some 4 }

abbrev cells : Cells ℕ
cells = (3, beep) ∷ (4, tone) ∷ []

busy-IsQueue : IsQueue busy two_tasks cells
busy-IsQueue = record {
  chain = (refl, (some 4, refl, (refl, (none, refl, refl))));
  tail = refl;
  distinct = ((λ e. omega arith, tt), (tt, tt));
  below = (omega arith, (omega arith, tt));
}

abbrev pub granted : Grants
granted = record { memory = true; mutex = true; cond = true; thread = true }

device_worker_submit-Queued_example :
    (s : Submitted) × (w' : DeviceWorker) × (h' : Heap ℕ) × (device_worker_submit granted
        (some 9)
        true
        72
        true
        busy
        two_tasks
      ≡ some (s, w', h'))
    × Queued 9 true 72 true two_tasks cells s w' h'
device_worker_submit-Queued_example =
    device_worker_submit-Queued granted 9 true 72 true busy two_tasks cells busy-IsQueue refl

-- The functions with an odd number fail.
abbrev outcome : ℕ → DeviceResult
outcome n = if n % 2 == 0 then ok else device_failed

submit_and_wait-Answered_example :
    (w' : DeviceWorker) × (h' : Heap ℕ) × (submit_and_wait outcome 4 granted 9 true 72 busy
        two_tasks
      ≡ some (device_failed, w', h'))
    × Answered outcome two_tasks cells w' h'
submit_and_wait-Answered_example =
    submit_and_wait-Answered outcome granted 9 true 72 busy two_tasks cells 4 busy-IsQueue refl
      (omega arith)

device_worker_submit-Refused_example :
    Refused true 72
      (record busy { running = false })
      two_tasks
      cells
      (device_worker_submit granted
        (some 9)
        true
        72
        true
        (record busy { running = false })
        two_tasks)
device_worker_submit-Refused_example =
    device_worker_submit-Refused true 72 (record busy { running = false }) two_tasks cells
      (record {
        chain = busy-IsQueue.chain;
        tail = busy-IsQueue.tail;
        distinct = busy-IsQueue.distinct;
        below = busy-IsQueue.below;
      })
      granted (some 9) true refl

device_worker_cancel_pending-Swept_example :
    (w' : DeviceWorker) × (h' : Heap ℕ) × (device_worker_cancel_pending 3 cancelled busy two_tasks
      ≡ some (none, w', h'))
    × IsQueue w' h' []
    × Swept two_tasks cells cancelled h'
    × (w'.running ≡ true)
    × (w'.started ≡ true)
device_worker_cancel_pending-Swept_example =
    device_worker_cancel_pending-Swept busy two_tasks cells cancelled 3 (omega arith) busy-IsQueue
      refl
