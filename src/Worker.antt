-- ===== src/Worker.antt =====
-- server/device/device_worker.h and device_worker.c: one thread, its queue of tasks and the calls of
-- other threads. Each function below is one stretch that runs under the worker's lock, with what the
-- same thread does before its next wait. `none` is a fault: an access to a task that is not allocated.
pub mod Tasks
pub mod Queue
pub mod Submit
pub mod Refuse
pub mod Take
pub mod Cancel
pub mod System
pub mod Blocked
use tcpremote_device_control.Base.{
  ℕ, zero, suc, ◌+◌, Bool, true, false, not, ◌&&◌, ◌||◌, if◌then◌else◌, List, [], ◌∷◌, Option, none,
  some, ◌>>=◌,
}
use tcpremote_device_control.DeviceResult.{DeviceResult, ok, thread_failed, device_failed}
use Tasks.{Task, Heap, write, run_cleanup}

pub record DeviceWorker : Type 0 where
  pub running : Bool
  pub started : Bool
  pub head : Option ℕ
  pub tail : Option ℕ

-- Whether calloc, pthread_mutex_init, pthread_cond_init and pthread_create succeed.
pub record Grants : Type 0 where
  pub memory : Bool
  pub mutex : Bool
  pub cond : Bool
  pub thread : Bool

abbrev pub stopped_worker : DeviceWorker
stopped_worker = record { running = false; started = false; head = none; tail = none }

unfoldable pub device_worker_start : Grants → DeviceWorker × DeviceResult
device_worker_start grants =
    let fresh = record stopped_worker { running = true } in
    if not grants.mutex
    then (fresh, thread_failed)
    else if not grants.cond
    then (fresh, thread_failed)
    else if not grants.thread
    then (fresh, thread_failed)
    else (record fresh { started = true }, ok)

-- device_worker_stop up to the join, and behind it.
unfoldable pub request_stop : DeviceWorker → DeviceWorker
request_stop w = if not w.started then w else record w { running = false }

unfoldable pub finish_stop : DeviceWorker → DeviceWorker
finish_stop w = if not w.started then w else record w { started = false }

-- What a submitter gets: a result at once, or a task to wait for.
pub data Submitted : Type 0 where
  returns : DeviceResult → Submitted
  waits : ℕ → Submitted

-- What the worker's loop does next.
pub data Next : Type 0 where
  sleeps exits : Next
  runs : ℕ → Next

abbrev is_null : Option ℕ → Bool
is_null none = true
is_null (some _) = false

-- The locked part of device_worker_cancel_pending: the list of tasks changes hands.
unfoldable pub detach_pending : DeviceWorker → Option ℕ × DeviceWorker
detach_pending w =
    if not w.started then (none, w) else (w.head, record w { head = none; tail = none })

module _ {J : Type 0} where
  abbrev pub new_task : J → Bool → ℕ → Bool → Task J
  new_task run cleanup context wait = record {
    run = run;
    cleanup = cleanup;
    context = context;
    wait = wait;
    done = false;
    result = ok;
    next = none;
  }

  unfoldable pub destroy_task : Option ℕ → Heap J → Option (Heap J)
  destroy_task none h = some h
  destroy_task (some a) h = do t ← h.task a; some (write h a none)

  -- `none` for the function is NULL. A task whose lock or condition variable cannot be made is freed.
  unfoldable pub create_task : Grants → Option J → Bool → ℕ → Bool → Heap J → Option ℕ × Heap J
  create_task grants none cleanup context wait h = (none, run_cleanup cleanup context h)
  create_task grants (some run) cleanup context wait h =
      if not grants.memory
      then (none, run_cleanup cleanup context h)
      else if not grants.mutex || not grants.cond
      then (none, run_cleanup cleanup context (record h { fresh = h.fresh + 1 }))
      else (
        some h.fresh,
        record (write h h.fresh (some (new_task run cleanup context wait))) { fresh = h.fresh + 1 },
      )

  append_behind : Option ℕ → ℕ → DeviceWorker → Heap J → Option (DeviceWorker × Heap J)
  append_behind none a w h = some (record w { head = some a; tail = some a }, h)
  append_behind (some t) a w h = do
    last ← h.task t
    some (record w { tail = some a }, write h t (some (record last { next = some a })))

  -- `if (worker->tail == NULL) ... else ...`
  unfoldable pub append_task : ℕ → DeviceWorker → Heap J → Option (DeviceWorker × Heap J)
  unfolding append_behind
  append_task a w h = append_behind w.tail a w h

  abbrev accept : Bool → ℕ → DeviceWorker × Heap J → Submitted × DeviceWorker × Heap J
  accept wait a (w, h) = (if not wait then returns ok else waits a, w, h)

  abbrev refuse : ℕ → Bool → ℕ → DeviceWorker → Heap J → Option (Submitted × DeviceWorker × Heap J)
  refuse a cleanup context w h = do
    h' ← destroy_task (some a) (run_cleanup cleanup context h)
    some (returns thread_failed, w, h')

  submit_created :
      Option ℕ
      → Bool
      → ℕ
      → Bool
      → DeviceWorker
      → Heap J
      → Option (Submitted × DeviceWorker × Heap J)
  submit_created none cleanup context wait w h = some (returns device_failed, w, h)
  submit_created (some a) cleanup context wait w h =
      if not w.running
      then refuse a cleanup context w h
      else (append_task a w h >>= λ r. some (accept wait a r))

  -- device_worker_submit, up to the wait.
  unfoldable pub device_worker_submit :
      Grants
      → Option J
      → Bool
      → ℕ
      → Bool
      → DeviceWorker
      → Heap J
      → Option (Submitted × DeviceWorker × Heap J)
  unfolding submit_created
  device_worker_submit grants run cleanup context wait w h =
      if not w.started
      then some (returns thread_failed, w, run_cleanup cleanup context h)
      else (let (task, h') = create_task grants run cleanup context wait h in
          submit_created task cleanup context wait w h')

  -- device_worker_submit behind the wait: `none` inside means that the task is not done yet.
  unfoldable pub collect_result : ℕ → Heap J → Option (Option DeviceResult × Heap J)
  collect_result a h = do
    t ← h.task a
    if not t.done
        then some (none, h)
        else (destroy_task (some a) (run_cleanup t.cleanup t.context h) >>= λ h'.
            some (some t.result, h'))

  take_head : Option ℕ → DeviceWorker → Heap J → Option (Next × DeviceWorker)
  take_head none w h = some (if w.running then sleeps else exits, w)
  take_head (some a) w h = do
    t ← h.task a
    some (runs a, record w { head = t.next; tail = if is_null t.next then none else w.tail })

  -- One round of device_worker_loop under the lock.
  unfoldable pub next_task : DeviceWorker → Heap J → Option (Next × DeviceWorker)
  unfolding take_head
  next_task w h = take_head w.head w h

  -- The rest of the round, once the task's function has returned.
  unfoldable pub finish_task : ℕ → DeviceResult → Heap J → Option (Heap J)
  finish_task a result h = do
    t ← h.task a
    if t.wait
        then some (write h a (some (record t { result = result; done = true })))
        else destroy_task (some a) (run_cleanup t.cleanup t.context h)

  unfoldable pub cancel_task : ℕ → DeviceResult → Heap J → Option (Heap J)
  cancel_task a result h = do
    t ← h.task a
    if t.wait
        then some (write h a (some (record t { result = result; done = true })))
        else destroy_task (some a) (run_cleanup t.cleanup t.context h)

  -- One round of its loop: the local `task` after it, and the heap.
  unfoldable pub cancel_next : ℕ → DeviceResult → Heap J → Option (Option ℕ × Heap J)
  cancel_next a result h = do
    t ← h.task a
    h' ← cancel_task a result (write h a (some (record t { next = none })))
    some (t.next, h')

  -- The loop of device_worker_cancel_pending on fuel; the pointer that is left is NULL when it ends.
  unfoldable pub cancel_loop : ℕ → Option ℕ → DeviceResult → Heap J → Option (Option ℕ × Heap J)
  unfolding cancel_next
  cancel_loop zero task result h = some (task, h)
  cancel_loop (suc fuel) none result h = some (none, h)
  cancel_loop (suc fuel) (some a) result h =
      cancel_next a result h >>= λ r. cancel_loop fuel r.0 result r.1

  unfoldable pub device_worker_cancel_pending :
      ℕ → DeviceResult → DeviceWorker → Heap J → Option (Option ℕ × DeviceWorker × Heap J)
  unfolding detach_pending
  device_worker_cancel_pending fuel result w h =
      if not w.started
      then some (none, w, h)
      else (let (task, w') = detach_pending w in
          (cancel_loop fuel task result h >>= λ r. some (r.0, w', r.1)))
