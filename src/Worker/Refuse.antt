-- ===== src/Worker/Refuse.antt =====
-- device_worker_submit on the branches that do not queue the task.
use tcpremote_device_control.Base.{
  ℕ, ◌+◌, ◌≤◌, ◌<◌, ◌≡◌, ◌≢◌, inl, inr, refl, ◌∙◌, Bool, true, false, not, ◌||◌, if◌then◌else◌, ◌∷◌,
  Option, none, some, arith, Bool-cases,
}
use tcpremote_device_control.DeviceResult.{DeviceResult, ok, thread_failed, device_failed}
use tcpremote_device_control.Worker.{
  DeviceWorker, Grants, Submitted, returns, new_task, destroy_task, create_task,
  device_worker_submit, submit_created, refuse,
}
use tcpremote_device_control.Worker.Tasks.{
  Task, Heap, write, run_cleanup, run_cleanup-task, run_cleanup-fresh, run_cleanup-cleaned,
}
use tcpremote_device_control.Worker.Tasks.Chain.{Cells, update_ne, update_self, Chain-agree}
use tcpremote_device_control.Worker.Queue.{IsQueue, Below-up}
use tcpremote_device_control.Worker.Submit.{accepted, with_task}

module _ {J : Type 0} where
  -- Nothing allocated below `fresh` has changed, and no callback ran.
  record Agrees (h h' : Heap J) : Type 0 where
    kept : (b : ℕ) → b < h.fresh → h'.task b ≡ h.task b
    grown : h.fresh ≤ h'.fresh
    uncleaned : h'.cleaned ≡ h.cleaned

  -- What a call leaves if it does not queue the task: an error, the callback has had the context
  -- once, and the queue and every task in the heap are as they were.
  pub record Refused (cleanup : Bool) (context : ℕ) (w : DeviceWorker) (h : Heap J) (cs : Cells J)
      (o : Option (Submitted × DeviceWorker × Heap J)) : Type 0 where
    pub result : DeviceResult
    pub after : Heap J
    pub outcome : o ≡ some (returns result, w, after)
    pub failed : result ≢ ok
    pub queue : IsQueue w after cs
    pub kept : (b : ℕ) → b < h.fresh → after.task b ≡ h.task b
    pub grown : h.fresh ≤ after.fresh
    pub cleaned_once : after.cleaned ≡ (if cleanup then context ∷ h.cleaned else h.cleaned)

  module _ (cleanup : Bool) (context : ℕ) (w : DeviceWorker) (h : Heap J) (cs : Cells J)
      (q : IsQueue w h cs) where
    IsQueue-agree :
        (h' : Heap J)
        → h.fresh ≤ h'.fresh
        → ((b : ℕ) → b < h.fresh → h'.task b ≡ h.task b)
        → IsQueue w h' cs
    IsQueue-agree h' grown kept = record {
      chain = Chain-agree h.task h'.task h.fresh w.head cs kept q.below q.chain;
      tail = q.tail;
      distinct = q.distinct;
      below = Below-up h.fresh h'.fresh cs grown q.below;
    }

    refuse_with :
        (r : DeviceResult) (h₁ after : Heap J) (o : Option (Submitted × DeviceWorker × Heap J))
        → Agrees h h₁
        → r ≢ ok
        → h₁.fresh ≤ after.fresh
        → ((b : ℕ) → b < h.fresh → after.task b ≡ h₁.task b)
        → after.cleaned ≡ (if cleanup then context ∷ h₁.cleaned else h₁.cleaned)
        → o ≡ some (returns r, w, after)
        → Refused cleanup context w h cs o
    refuse_with r h₁ after o g bad grown same clean e = record {
      result = r;
      after = after;
      outcome = e;
      failed = bad;
      queue = IsQueue-agree after (omega (arith, g.grown)) (λ b l. same b l ∙ g.kept b l);
      kept = λ b l. same b l ∙ g.kept b l;
      grown = omega (arith, g.grown);
      cleaned_once = rw (← g.uncleaned) clean;
    }

    refuse_cleaned :
        (r : DeviceResult) (h₁ : Heap J) (o : Option (Submitted × DeviceWorker × Heap J))
        → Agrees h h₁
        → r ≢ ok
        → o ≡ some (returns r, w, run_cleanup cleanup context h₁)
        → Refused cleanup context w h cs o
    refuse_cleaned r h₁ o g bad e =
        refuse_with r h₁ (run_cleanup cleanup context h₁) o g bad
          (omega (arith, run_cleanup-fresh cleanup context h₁))
          (λ b l. run_cleanup-task cleanup context b h₁) (run_cleanup-cleaned cleanup context h₁) e

    Agrees-self : Agrees h h
    Agrees-self = record { kept = λ b l. refl; grown = omega arith; uncleaned = refl }

    Agrees-grown : Agrees h (record h { fresh = h.fresh + 1 })
    Agrees-grown = record { kept = λ b l. refl; grown = omega arith; uncleaned = refl }

    Agrees-task : (t : Task J) → Agrees h (with_task h t)
    Agrees-task t = record {
      kept = λ b l. update_ne h.task h.fresh b (some t) (λ e. omega arith);
      grown = omega arith;
      uncleaned = refl;
    }

    destroy_there :
        (h' : Heap J) (a : ℕ) (t : Task J)
        → h'.task a ≡ some t
        → destroy_task (some a) h' ≡ some (write h' a none)
    unfolding destroy_task
    destroy_there h' a t e = rw e

    -- The branch that finds the worker stopped after the task was made.
    refuse_created :
        (t : Task J) (o : Option (Submitted × DeviceWorker × Heap J))
        → o ≡ refuse h.fresh cleanup context w (with_task h t)
        → Refused cleanup context w h cs o
    refuse_created t o e =
        refuse_with thread_failed (with_task h t)
          (write (run_cleanup cleanup context (with_task h t)) h.fresh none) o (Agrees-task t)
          (λ x. cc) (omega (arith, run_cleanup-fresh cleanup context (with_task h t)))
          (λ b l.
            update_ne ((run_cleanup cleanup context (with_task h t)).task) h.fresh b none
              (λ x. omega arith)
            ∙ run_cleanup-task cleanup context b (with_task h t))
          (run_cleanup-cleaned cleanup context (with_task h t)) (e ∙ destroyed)
      where
        there : (run_cleanup cleanup context (with_task h t)).task h.fresh ≡ some t
        there =
            run_cleanup-task cleanup context h.fresh (with_task h t)
            ∙ update_self h.task h.fresh (some t)

        destroyed :
            refuse h.fresh cleanup context w (with_task h t)
            ≡ some (
              returns thread_failed,
              w,
              write (run_cleanup cleanup context (with_task h t)) h.fresh none,
            )
        destroyed = rw (destroy_there (run_cleanup cleanup context (with_task h t)) h.fresh t there)

    refuse_started :
        (grants : Grants) (run : Option J) (wait : Bool)
        → accepted grants run w ≡ false
        → w.started ≡ true
        → Refused cleanup context w h cs (device_worker_submit grants run cleanup context wait w h)
    unfolding device_worker_submit create_task
    refuse_started grants none wait no_one s =
        refuse_cleaned device_failed h _ Agrees-self (λ x. cc) (simp (s, submit_created))
    refuse_started grants (some run) wait no_one s = elim (Bool-cases grants.memory) [
      | inr m ↦ refuse_cleaned device_failed h _ Agrees-self (λ x. cc) (simp (s, m, submit_created))
      | inl m ↦ elim (Bool-cases (not grants.mutex || not grants.cond)) [
        | inl f ↦
            refuse_cleaned device_failed _ _ Agrees-grown (λ x. cc) (simp (s, m, f, submit_created))
        | inr g ↦
            let stopped : w.running ≡ false = ground arith in
            refuse_created (new_task run cleanup context wait) _
              (simp (s, m, g, stopped, submit_created))
      ]
    ]

    -- On every branch that does not queue the task the caller gets an error and the context is
    -- handed to the callback once; the queue and the tasks in the heap stay as they were.
    pub device_worker_submit-Refused :
        (grants : Grants) (run : Option J) (wait : Bool)
        → accepted grants run w ≡ false
        → Refused cleanup context w h cs (device_worker_submit grants run cleanup context wait w h)
    unfolding device_worker_submit
    device_worker_submit-Refused grants run wait no_one = elim (Bool-cases w.started) [
      | inr n ↦ refuse_cleaned thread_failed h _ Agrees-self (λ x. cc) (simp n)
      | inl s ↦ refuse_started grants run wait no_one s
    ]
