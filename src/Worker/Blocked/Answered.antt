-- ===== src/Worker/Blocked/Answered.antt =====
-- A submitter that waits gets the result of its own task.
use tcpremote_device_control.Base.{
  ℕ, ◌+◌, ◌<◌, ◌≡◌, ◌≢◌, refl, ◌∙◌, subst, Bool, true, List, [], ◌∷◌, ◌++◌, Option, none, some, All,
  All-append, length, length-append, arith,
}
use tcpremote_device_control.DeviceResult.{DeviceResult}
use tcpremote_device_control.Worker.{
  DeviceWorker, Grants, waits, new_task, collect_result, destroy_task,
}
use tcpremote_device_control.Worker.Tasks.{
  Task, Heap, write, run_cleanup, run_cleanup-task, run_cleanup-fresh,
}
use tcpremote_device_control.Worker.Tasks.Chain.{Cells, Apart, update_ne, update_self}
use tcpremote_device_control.Worker.Queue.{IsQueue, Below}
use tcpremote_device_control.Worker.Submit.{accepted, Queued, device_worker_submit-Queued}
use tcpremote_device_control.Worker.Blocked.{drain, come_back, submit_and_wait}
use tcpremote_device_control.Worker.Blocked.Drained.{executed, Drained, drain-Drained}

All-last {ℓ κ} : {A : Type ℓ} (P : A → Type κ) (xs : List A) (x : A) → All P (xs ++ x ∷ []) → P x
All-last P [] x h = h.0
All-last P (y ∷ ys) x h = All-last P ys x h.1

module _ {J : Type 0} (run : J → DeviceResult) where
  -- What a call with a wait leaves: an empty queue, its own task freed, and all other addresses but those
  -- of the tasks that were queued as before.
  pub record Answered (h : Heap J) (cs : Cells J) (w' : DeviceWorker) (h' : Heap J) : Type 0 where
    pub queue : IsQueue w' h' []
    pub freed : h'.task h.fresh ≡ none
    pub kept : (b : ℕ) → b < h.fresh → Apart b cs → h'.task b ≡ h.task b
    pub grown : h.fresh < h'.fresh

  collect_done :
      (h : Heap J) (a : ℕ) (t : Task J)
      → h.task a ≡ some t
      → t.done ≡ true
      → collect_result a h ≡ some (some t.result, write (run_cleanup t.cleanup t.context h) a none)
  unfolding collect_result destroy_task
  collect_done h a t e d = rw (e, d, run_cleanup-task t.cleanup t.context a h, e) refl

  -- Behind the drained queue.
  come_back-Answered :
      (fuel : ℕ) (job : J) (cleanup : Bool) (context : ℕ) (h h₁ h₂ : Heap J) (cs : Cells J)
      (w₁ w₂ : DeviceWorker)
      → Queued job cleanup context true h cs (waits h.fresh) w₁ h₁
      → drain run fuel w₁ h₁ ≡ some (w₂, h₂)
      → Drained run w₁ h₁ (cs ++ (h.fresh, new_task job cleanup context true) ∷ []) w₂ h₂
      → IsQueue {J = J} w₁ h₁ (cs ++ (h.fresh, new_task job cleanup context true) ∷ [])
      → Below h.fresh cs
      → (h' : Heap J) × (come_back run fuel (waits h.fresh) w₁ h₁ ≡ some (run job, w₂, h'))
        × Answered h cs w₂ h'
  come_back-Answered fuel job cleanup context h h₁ h₂ cs w₁ w₂ queued goes d q below =
      let z = h.fresh in
      let new : Task J = new_task job cleanup context true in
      let (n, e) =
        All-last (λ c. (n : Option ℕ) × (h₂.task c.0 ≡ executed run c.1 n)) cs (z, new) d.ended in
      let t : Task J = record new { next = n; result = run job; done = true } in
      let h₃ = run_cleanup cleanup context h₂ in
      (
        write h₃ z none,
        rw (goes, collect_done h₂ z t e refl) refl,
        record {
          queue = record { chain = d.queue.chain; tail = d.queue.tail; distinct = tt; below = tt };
          freed = update_self h₃.task z none;
          kept = λ b l a.
              update_ne h₃.task z b none (λ x. omega arith)
              ∙ run_cleanup-task cleanup context b h₂
              ∙ d.kept b (All-append (λ c. b ≢ c.0) cs ((z, new) ∷ []) a ((λ x. omega arith), tt))
              ∙ queued.kept b l a;
          grown = omega (
            arith,
            All-last (λ c. c.0 < h₁.fresh) cs (z, new) q.below,
            d.fresh,
            run_cleanup-fresh cleanup context h₂,
          );
        },
      )

  -- On a running worker with the tasks cs queued, and with memory and locks granted, a call with a wait
  -- returns what its own function returns, once the worker's thread has run all that is queued; the queue
  -- is empty then, the task is freed, and other tasks than those queued are as before. One more round of
  -- fuel than there are tasks with the new one is enough.
  pub submit_and_wait-Answered :
      (grants : Grants) (job : J) (cleanup : Bool) (context : ℕ) (w : DeviceWorker) (h : Heap J)
      (cs : Cells J) (fuel : ℕ)
      → IsQueue w h cs
      → accepted grants (some job) w ≡ true
      → length cs + 1 < fuel
      → (w' : DeviceWorker) × (h' : Heap J) × (submit_and_wait run fuel grants job cleanup context w
            h
          ≡ some (run job, w', h'))
        × Answered h cs w' h'
  unfolding submit_and_wait
  submit_and_wait-Answered grants job cleanup context w h cs fuel q all enough =
      let z : ℕ × Task J = (h.fresh, new_task job cleanup context true) in
      let (s, w₁, h₁, e, queued) =
        device_worker_submit-Queued grants job cleanup context true w h cs q all in
      let here = subst (λ x. Queued job cleanup context true h cs x w₁ h₁) queued.answer queued in
      let few : length (cs ++ z ∷ []) < fuel = omega (arith, length-append cs (z ∷ [])) in
      let (w₂, h₂, goes, d) = drain-Drained run fuel w₁ h₁ (cs ++ z ∷ []) few queued.queue in
      let (h', back, a) =
        come_back-Answered fuel job cleanup context h h₁ h₂ cs w₁ w₂ here goes d queued.queue
          q.below in
      (w₂, h', rw (e, queued.answer) back, a)
