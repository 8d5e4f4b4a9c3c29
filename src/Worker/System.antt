-- ===== src/Worker/System.antt =====
-- server/device/device_worker.c: the worker's thread, its submitters and a canceller, interleaved. An
-- action is one stretch of code between two points where another thread may run.
pub mod Inv
pub mod Enqueue
pub mod Dequeue
pub mod Finish
pub mod Collect
pub mod Sweep
pub mod Safe
use tcpremote_device_control.Base.{
  ℕ, Bool, true, false, not, ◌==◌, if◌then◌else◌, List, [], ◌∷◌, Option, none, some, ◌>>=◌, ◌≡◌,
  ◌⊎◌,
}
use tcpremote_device_control.DeviceResult.{DeviceResult}
use tcpremote_device_control.Worker.{
  DeviceWorker, stopped_worker, Grants, Submitted, returns, waits, Next, sleeps, exits, runs,
  device_worker_submit, next_task, finish_task, collect_result, detach_pending, cancel_next,
  request_stop, finish_stop,
}
use tcpremote_device_control.Worker.Tasks.{Heap}

-- Where the worker's thread stands: before its lock, in the function of a task, or at its end.
pub data Thread : Type 0 where
  polls : Thread
  executes : ℕ → Thread
  ended : Thread

-- `cancelling` is the local `task` of device_worker_cancel_pending, and `waiting` are the tasks for which
-- submitters wait.
pub record System (J : Type 0) : Type 0 where
  pub worker : DeviceWorker
  pub heap : Heap J
  pub thread : Thread
  pub cancelling : Option ℕ
  pub waiting : List ℕ

-- A submission, whose test of `started` and create_task, which come before its lock, are taken together
-- with what it does under the lock: they touch only the flag and a task that no other thread knows. A
-- round of the worker's thread; the end of a task's function, with its result; a submitter that wakes
-- up; the locked part of device_worker_cancel_pending, and a round of its loop with the result it was
-- given; both halves of device_worker_stop.
pub data Action (J : Type 0) : Type 0 where
  submits : Grants → Option J → Bool → ℕ → Bool → Action J
  takes : Action J
  finishes : ℕ → DeviceResult → Action J
  collects : ℕ → Action J
  detaches : Action J
  cancels : ℕ → DeviceResult → Action J
  stops : Action J
  joins : Action J

abbrev pub await : Submitted → List ℕ → List ℕ
await (returns result) waiting = waiting
await (waits a) waiting = a ∷ waiting

abbrev pub turn : Next → Thread
turn sleeps = polls
turn exits = ended
turn (runs a) = executes a

abbrev pub without : ℕ → List ℕ → List ℕ
without a [] = []
without a (b ∷ bs) = if a == b then without a bs else b ∷ without a bs

-- A submitter that finds its task not done waits on.
abbrev pub leave : Option DeviceResult → ℕ → List ℕ → List ℕ
leave none a waiting = waiting
leave (some result) a waiting = without a waiting

-- That a submitter waits for the task.
abbrev pub IsAwaited : ℕ → List ℕ → Type 0
IsAwaited a [] = ⊥
IsAwaited a (b ∷ bs) = (a ≡ b) ⊎ IsAwaited a bs

module _ {J : Type 0} where
  -- What must be so for the action to come: the thread that does it stands there.
  abbrev pub IsEnabled : Action J → System J → Type 0
  IsEnabled takes s = s.thread ≡ polls
  IsEnabled (finishes a result) s = s.thread ≡ executes a
  IsEnabled (collects a) s = IsAwaited a s.waiting
  IsEnabled detaches s = s.cancelling ≡ none
  IsEnabled (cancels a result) s = s.cancelling ≡ some a
  IsEnabled joins s = s.thread ≡ ended
  IsEnabled _ s = Unit {0}

  -- `none` is a fault.
  unfoldable pub act : Action J → System J → Option (System J)
  unfolding device_worker_submit next_task finish_task collect_result detach_pending cancel_next
      request_stop finish_stop
  act (submits grants run cleanup context wait) s =
      device_worker_submit grants run cleanup context wait s.worker s.heap >>= λ r.
      some (record s { worker = r.1; heap = r.2; waiting = await r.0 s.waiting })
  act takes s =
      next_task s.worker s.heap >>= λ r. some (record s { worker = r.1; thread = turn r.0 })
  act (finishes a result) s =
      finish_task a result s.heap >>= λ h. some (record s { heap = h; thread = polls })
  act (collects a) s = collect_result a s.heap >>= λ r.
      some (record s { heap = r.1; waiting = leave r.0 a s.waiting })
  act detaches s =
      let r = detach_pending s.worker in some (record s { cancelling = r.0; worker = r.1 })
  act (cancels a result) s =
      cancel_next a result s.heap >>= λ r. some (record s { cancelling = r.0; heap = r.1 })
  act stops s = some (record s { worker = request_stop s.worker })
  act joins s = some (record s { worker = finish_stop s.worker })

  abbrev pub no_tasks : Heap J
  no_tasks = record { task = λ a. none; fresh = 1; cleaned = [] }

  -- A worker that has just been started.
  abbrev pub started_system : System J
  started_system = record {
    worker = record stopped_worker { running = true; started = true };
    heap = no_tasks;
    thread = polls;
    cancelling = none;
    waiting = [];
  }

  pub data Reaches : System J → Type 0 where
    starts : Reaches started_system
    acts :
        {s : System J} (e : Action J) (t : System J)
        → Reaches s
        → IsEnabled e s
        → act e s ≡ some t
        → Reaches t
