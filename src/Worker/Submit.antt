-- ===== src/Worker/Submit.antt =====
-- device_worker_submit on every branch.
use tcpremote_device_control.Base.{
  ℕ, ◌+◌, ◌≤◌, ◌<◌, ◌≡◌, refl, ◌∙◌, Bool, true, false, not, if◌then◌else◌, [], ◌∷◌, ◌++◌, Option,
  none, some, arith, ◌>>=◌, ◌&&◌,
}
use tcpremote_device_control.DeviceResult.{ok}
use tcpremote_device_control.Worker.{
  DeviceWorker, Grants, Submitted, returns, waits, new_task, create_task, append_task,
  device_worker_submit, submit_created, accept,
}
use tcpremote_device_control.Worker.Tasks.{Task, Heap, write}
use tcpremote_device_control.Worker.Tasks.Chain.{Cells, Apart, update_ne, update_self, Chain-frame}
use tcpremote_device_control.Worker.Queue.{IsQueue, Below-Apart, Below-up, append_task-IsQueue}

module _ {J : Type 0} where
  -- The conditions under which a task is queued.
  abbrev pub accepted : Grants → Option J → DeviceWorker → Bool
  accepted grants none w = false
  accepted grants (some run) w =
      w.started && (grants.memory && (grants.mutex && (grants.cond && w.running)))

  -- What a call leaves if it queues the task: the context is the task's, no callback ran.
  pub record Queued (run : J) (cleanup : Bool) (context : ℕ) (wait : Bool) (h : Heap J)
      (cs : Cells J) (s : Submitted) (w' : DeviceWorker) (h' : Heap J) : Type 0 where
    pub answer : s ≡ (if wait then waits h.fresh else returns ok)
    pub queue : IsQueue w' h' (cs ++ (h.fresh, new_task run cleanup context wait) ∷ [])
    pub kept : (b : ℕ) → b < h.fresh → Apart b cs → h'.task b ≡ h.task b
    pub grown : h.fresh ≤ h'.fresh
    pub uncleaned : h'.cleaned ≡ h.cleaned

  created-IsQueue :
      (h : Heap J) (w : DeviceWorker) (cs : Cells J) (t : Task J)
      → IsQueue w h cs
      → IsQueue w (record (write h h.fresh (some t)) { fresh = h.fresh + 1 }) cs
  created-IsQueue h w cs t q = record {
    chain = Chain-frame h.task h.fresh (some t) w.head cs (Below-Apart h.fresh cs q.below) q.chain;
    tail = q.tail;
    distinct = q.distinct;
    below = Below-up h.fresh (h.fresh + 1) cs (omega arith) q.below;
  }

  abbrev pub with_task : Heap J → Task J → Heap J
  with_task h t = record (write h h.fresh (some t)) { fresh = h.fresh + 1 }

  submit_appends :
      (grants : Grants) (run : J) (cleanup : Bool) (context : ℕ) (wait : Bool) (w : DeviceWorker)
      (h : Heap J)
      → accepted grants (some run) w ≡ true
      → device_worker_submit grants (some run) cleanup context wait w h ≡ (
          append_task h.fresh w (with_task h (new_task run cleanup context wait)) >>= λ r.
          some (accept wait h.fresh r))
  unfolding device_worker_submit create_task
  submit_appends grants run cleanup context wait w h all =
      let started : w.started ≡ true = ground arith in
      let memory : grants.memory ≡ true = ground arith in
      let mutex : grants.mutex ≡ true = ground arith in
      let cond : grants.cond ≡ true = ground arith in
      let running : w.running ≡ true = ground arith in
      simp (started, memory, mutex, cond, running, submit_created)

  -- A running worker queues the task behind all others, if memory and locks are granted; the context
  -- then belongs to the task.
  pub device_worker_submit-Queued :
      (grants : Grants) (run : J) (cleanup : Bool) (context : ℕ) (wait : Bool) (w : DeviceWorker)
      (h : Heap J) (cs : Cells J)
      → IsQueue w h cs
      → accepted grants (some run) w ≡ true
      → (s : Submitted) × (w' : DeviceWorker) × (h' : Heap J) × (device_worker_submit grants
            (some run)
            cleanup
            context
            wait
            w
            h
          ≡ some (s, w', h'))
        × Queued run cleanup context wait h cs s w' h'
  device_worker_submit-Queued grants run cleanup context wait w h cs q all =
      let t = new_task run cleanup context wait in
      let (w', h', e, q', same, grown, clean, r, s) =
        append_task-IsQueue w (with_task h t) cs h.fresh t (created-IsQueue h w cs t q)
          (Below-Apart h.fresh cs q.below) (omega arith) (update_self h.task h.fresh _) in
      (
        (if not wait then returns ok else waits h.fresh),
        w',
        h',
        submit_appends grants run cleanup context wait w h all ∙ rw e refl,
        record {
          answer = ground arith;
          queue = q';
          kept = λ b l a. same b a ∙ update_ne h.task h.fresh b (some t) (λ x. omega arith);
          grown = omega (arith, grown);
          uncleaned = clean;
        },
      )
