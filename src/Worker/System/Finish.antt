-- ===== src/Worker/System/Finish.antt =====
-- A task's function returns.
use tcpremote_device_control.Base.{
  ℕ, ◌≡◌, ◌≢◌, inl, inr, refl, sym, ap, ◌∙◌, subst, Bool, true, false, Bool-cases, Option, none,
  some, All-map, arith, ◌>>=◌, true≢false,
}
use tcpremote_device_control.DeviceResult.{DeviceResult}
use tcpremote_device_control.Worker.{finish_task, destroy_task}
use tcpremote_device_control.Worker.Tasks.{
  Task, Heap, write, run_cleanup, run_cleanup-task, run_cleanup-fresh,
}
use tcpremote_device_control.Worker.Tasks.Chain.{update_ne, update_self}
use tcpremote_device_control.Worker.Queue.{Below-up}
use tcpremote_device_control.Worker.System.{System, Thread, polls, executes, finishes, act}
use tcpremote_device_control.Worker.System.Inv.{
  Inv, IsTaken, IsThread, IsAllocated, Located, queued, detached, executing, done, done_of, Differ,
  Chain-Differ, IsQueue-Differ, IsAllocated-kept,
}
use tcpremote_device_control.Worker.System.Dequeue.{polls≢ended}

executes-injective : (a b : ℕ) → executes a ≡ executes b → a ≡ b
executes-injective a b e = ap (λ (t : Thread). elim t [ executes x ↦ x | _ ↦ 0 ]) e

module _ {J : Type 0} where
  -- A task is handed its cleanup and freed.
  unfoldable pub freed : Heap J → ℕ → Task J → Heap J
  freed h a t = write (run_cleanup t.cleanup t.context h) a none

  pub destroyed :
      (h : Heap J) (a : ℕ) (t : Task J)
      → h.task a ≡ some t
      → destroy_task (some a) (run_cleanup t.cleanup t.context h) ≡ some (freed h a t)
  unfolding destroy_task freed
  destroyed h a t e = rw (run_cleanup-task t.cleanup t.context a h, e) refl

  pub freed-Differ : (h : Heap J) (a : ℕ) (t : Task J) → Differ h (freed h a t) a
  unfolding freed
  freed-Differ h a t = record {
    kept = λ b l n.
        update_ne (run_cleanup t.cleanup t.context h).task a b none n
        ∙ run_cleanup-task t.cleanup t.context b h;
    grown = omega (arith, run_cleanup-fresh t.cleanup t.context h);
  }

  -- What finish_task does to the task that the thread has taken.
  record Finished (h : Heap J) (a : ℕ) (t : Task J) (result : DeviceResult) : Type 0 where
    after : Heap J
    is : finish_task a result h ≡ some after
    differ : Differ h after a
    told : t.wait ≡ true → after.task a ≡ some (record t { result = result; done = true })

  finish-Finished :
      (h : Heap J) (a : ℕ) (t : Task J) (result : DeviceResult)
      → h.task a ≡ some t
      → Finished h a t result
  unfolding finish_task
  finish-Finished h a t result e = elim (Bool-cases t.wait) [
    | inl w ↦ record {
      after = write h a (some (record t { result = result; done = true }));
      is = simp (e, w) refl;
      differ = record { kept = λ b l n. update_ne h.task a b _ n; grown = omega arith };
      told = λ x. update_self h.task a _;
    }
    | inr w ↦ record {
      after = freed h a t;
      is = simp (e, w) (destroyed h a t e);
      differ = freed-Differ h a t;
      told = λ x. absurd (true≢false (sym x ∙ w));
    }
  ]

  pub finishes-Inv :
      (s : System J) (v : Inv s) (a : ℕ) (result : DeviceResult)
      → s.thread ≡ executes a
      → (t : System J) × (act (finishes a result) s ≡ some t) × Inv t
  unfolding act
  finishes-Inv s v a result e =
      let k = subst (IsThread s.heap v.cs v.ds) e v.thread in
      let f = finish-Finished s.heap a k.task result k.there in
      (
        record s { heap = f.after; thread = polls },
        ap (λ x. x >>= λ h. some (record s { heap = h; thread = polls })) f.is,
        record {
          cs = v.cs;
          ds = v.ds;
          queue = IsQueue-Differ s.heap f.after a s.worker v.cs f.differ k.unqueued v.queue;
          chain =
              Chain-Differ s.heap f.after a s.cancelling v.ds f.differ k.undetached v.below v.chain;
          distinct = v.distinct;
          below = Below-up s.heap.fresh f.after.fresh v.ds f.differ.grown v.below;
          queued_undone = v.queued_undone;
          detached_undone = v.detached_undone;
          separate = v.separate;
          thread = tt;
          located =
              All-map (Located s.heap v.cs v.ds s.thread) (Located f.after v.cs v.ds polls)
                s.waiting (λ b. moved b k f) v.located;
          closed = λ q. absurd (polls≢ended q);
        },
      )
    where
      told_done :
          (b : ℕ) (k : IsTaken s.heap v.cs v.ds a) (f : Finished s.heap a k.task result)
          → a ≡ b
          → IsAllocated s.heap b false
          → IsAllocated f.after b true
      told_done b k f same x =
          let k' : s.heap.task a ≡ some x.task = ap s.heap.task same ∙ x.there in
          let waits : k.task.wait ≡ true = ap wait_of (sym k.there ∙ k') ∙ x.waits in
          subst (λ y. IsAllocated f.after y true) same
            (record {
              task = record k.task { result = result; done = true };
              there = f.told waits;
              waits = waits;
              state = refl;
              bound = omega (arith, k.bound, f.differ.grown);
            })
        where
          wait_of : Option (Task J) → Bool
          wait_of none = false
          wait_of (some t) = t.wait

      moved :
          (b : ℕ) (k : IsTaken s.heap v.cs v.ds a) (f : Finished s.heap a k.task result)
          → Located s.heap v.cs v.ds s.thread b
          → Located f.after v.cs v.ds polls b
      moved b k f (queued x) = queued x
      moved b k f (detached x) = detached x
      moved b k f (executing q x) = done (told_done b k f (executes-injective a b (sym e ∙ q)) x)
      moved b k f (done x) =
          let differs : a ≢ b = λ q. true≢false (
            sym x.state ∙ ap done_of (sym x.there ∙ ap s.heap.task (sym q) ∙ k.there) ∙ k.undone) in
          done (
            IsAllocated-kept s.heap f.after b true (f.differ.kept b x.bound differs) f.differ.grown
              x)
