-- ===== src/Worker/System/Enqueue.antt =====
-- A submission keeps every task where it is, and its own in the queue.
use tcpremote_device_control.Base.{
  ℕ, ◌≤◌, ◌<◌, ◌≡◌, ◌≢◌, inl, inr, refl, sym, ap, ◌∙◌, subst, Bool, true, false, Bool-cases, [],
  ◌∷◌, ◌++◌, Option, none, some, All, All-append, All-map, arith, if◌then◌else◌, ◌>>=◌, true≢false,
}
use tcpremote_device_control.DeviceResult.{ok}
use tcpremote_device_control.Worker.{DeviceWorker, Grants, Submitted, returns, waits, new_task}
use tcpremote_device_control.Worker.Tasks.{Task, Heap}
use tcpremote_device_control.Worker.Tasks.Chain.{Cells, Apart, Chain-same}
use tcpremote_device_control.Worker.Queue.{Below, Below-up}
use tcpremote_device_control.Worker.Submit.{accepted, Queued, device_worker_submit-Queued}
use tcpremote_device_control.Worker.Refuse.{Refused, device_worker_submit-Refused}
use tcpremote_device_control.Worker.System.{
  System, Thread, polls, executes, ended, submits, await, act,
}
use tcpremote_device_control.Worker.System.Inv.{
  Inv, IsThread, Located, queued, detached, executing, done, Waits, done-Apart, Waits-append,
  Waits-last, IsAllocated-kept,
}

module _ {J : Type 0} where
  IsThread-kept :
      (h h' : Heap J) (cs cs' ds : Cells J) (thread : Thread)
      → h.fresh ≤ h'.fresh
      → ((x : ℕ) → x < h.fresh → Apart x cs → (h'.task x ≡ h.task x) × Apart x cs')
      → IsThread h cs ds thread
      → IsThread h' cs' ds thread
  IsThread-kept h h' cs cs' ds polls grown same k = tt
  IsThread-kept h h' cs cs' ds ended grown same k = tt
  IsThread-kept h h' cs cs' ds (executes x) grown same k =
      let s = same x k.bound k.unqueued in
      record {
        task = k.task;
        there = s.0 ∙ k.there;
        undone = k.undone;
        bound = omega (arith, k.bound);
        unqueued = s.1;
        undetached = k.undetached;
      }

  -- The other tasks, once the queue has grown.
  Located-kept :
      (s : System J) (v : Inv s) (h' : Heap J) (cs' : Cells J) (thread : Thread) (a : ℕ)
      → s.heap.fresh ≤ h'.fresh
      → ((x : ℕ) → x < s.heap.fresh → Apart x v.cs → h'.task x ≡ s.heap.task x)
      → (Waits a v.cs → Waits a cs')
      → IsThread s.heap v.cs v.ds thread
      → Located s.heap v.cs v.ds thread a
      → Located h' cs' v.ds thread a
  Located-kept s v h' cs' thread a grown same more t (queued k) = queued (more k)
  Located-kept s v h' cs' thread a grown same more t (detached k) = detached k
  Located-kept s v h' cs' thread a grown same more t (executing e k) =
      let taken = subst (IsThread s.heap v.cs v.ds) e t in
      executing e (IsAllocated-kept s.heap h' a false (same a k.bound taken.unqueued) grown k)
  Located-kept s v h' cs' thread a grown same more t (done k) =
      let unqueued =
        done-Apart s.heap.task s.worker.head v.cs a k.task v.queue.chain v.queued_undone k.there
          k.state in
      done (IsAllocated-kept s.heap h' a true (same a k.bound unqueued) grown k)

  separate-append :
      (n : ℕ) (new : Task J) (cs ds : Cells J)
      → Below n ds
      → All (λ c. Apart c.0 cs) ds
      → All (λ c. Apart c.0 (cs ++ (n, new) ∷ [])) ds
  separate-append n new cs [] b h = tt
  separate-append n new cs ((x, t) ∷ ds) (b, bs) (h, hs) = (
    All-append (λ c. x ≢ c.0) cs ((n, new) ∷ []) h ((λ e. omega arith), tt),
    separate-append n new cs ds bs hs,
  )

  kept-Below :
      (h h' : Heap J) (cs ds : Cells J)
      → ((x : ℕ) → x < h.fresh → Apart x cs → h'.task x ≡ h.task x)
      → Below h.fresh ds
      → All (λ c. Apart c.0 cs) ds
      → All (λ c. h'.task c.0 ≡ h.task c.0) ds
  kept-Below h h' cs [] same b k = tt
  kept-Below h h' cs ((x, t) ∷ ds) same (b, bs) (k, ks) =
      (same x b k, kept-Below h h' cs ds same bs ks)

  await-located :
      (s : System J) (v : Inv s) (run : J) (cleanup : Bool) (context : ℕ) (wait : Bool)
      (r : Submitted) (h' : Heap J) (cs' : Cells J)
      → r ≡ (if wait then waits s.heap.fresh else returns ok)
      → (wait ≡ true → Waits s.heap.fresh cs')
      → All (Located h' cs' v.ds s.thread) s.waiting
      → All (Located h' cs' v.ds s.thread) (await r s.waiting)
  await-located s v run cleanup context true r h' cs' e new k =
      subst (λ x. All (Located h' cs' v.ds s.thread) (await x s.waiting)) (sym e)
        (queued (new refl), k)
  await-located s v run cleanup context false r h' cs' e new k =
      subst (λ x. All (Located h' cs' v.ds s.thread) (await x s.waiting)) (sym e) k

  Inv-Queued :
      (s : System J) (v : Inv s) (run : J) (cleanup : Bool) (context : ℕ) (wait : Bool)
      (r : Submitted) (w' : DeviceWorker) (h' : Heap J)
      → s.worker.running ≡ true
      → Queued run cleanup context wait s.heap v.cs r w' h'
      → Inv (record s { worker = w'; heap = h'; waiting = await r s.waiting })
  Inv-Queued s v run cleanup context wait r w' h' on q =
      let new = new_task run cleanup context wait in
      let z = s.heap.fresh in
      record {
        cs = v.cs ++ (z, new) ∷ [];
        ds = v.ds;
        queue = q.queue;
        chain =
            Chain-same s.heap.task h'.task s.cancelling v.ds
              (kept-Below s.heap h' v.cs v.ds q.kept v.below v.separate) v.chain;
        distinct = v.distinct;
        below = Below-up z h'.fresh v.ds q.grown v.below;
        queued_undone =
            All-append (λ c. c.1.done ≡ false) v.cs ((z, new) ∷ []) v.queued_undone (refl, tt);
        detached_undone = v.detached_undone;
        separate = separate-append z new v.cs v.ds v.below v.separate;
        thread =
            IsThread-kept s.heap h' v.cs (v.cs ++ (z, new) ∷ []) v.ds s.thread q.grown
              (λ x b a. (
                q.kept x b a,
                All-append (λ c. x ≢ c.0) v.cs ((z, new) ∷ []) a ((λ e. omega arith), tt),
              ))
              v.thread;
        located =
            await-located s v run cleanup context wait r h' (v.cs ++ (z, new) ∷ []) q.answer
              (λ e. Waits-last z new v.cs e)
              (All-map (Located s.heap v.cs v.ds s.thread)
                (Located h' (v.cs ++ (z, new) ∷ []) v.ds s.thread) s.waiting
                (λ a.
                  Located-kept s v h' (v.cs ++ (z, new) ∷ []) s.thread a q.grown q.kept
                    (Waits-append a v.cs ((z, new) ∷ [])) v.thread)
                v.located);
        closed = λ e. absurd (true≢false (sym on ∙ (v.closed e).0));
      }

  Inv-Refused :
      (s : System J) (v : Inv s) (cleanup : Bool) (context : ℕ)
      (o : Option (Submitted × DeviceWorker × Heap J))
      (q : Refused cleanup context s.worker s.heap v.cs o)
      → Inv (record s { heap = q.after })
  Inv-Refused s v cleanup context o q =
      let same = λ (x : ℕ) (b : x < s.heap.fresh) (a : Apart x v.cs). q.kept x b in
      record {
        cs = v.cs;
        ds = v.ds;
        queue = q.queue;
        chain =
            Chain-same s.heap.task q.after.task s.cancelling v.ds
              (kept-Below s.heap q.after v.cs v.ds same v.below v.separate) v.chain;
        distinct = v.distinct;
        below = Below-up s.heap.fresh q.after.fresh v.ds q.grown v.below;
        queued_undone = v.queued_undone;
        detached_undone = v.detached_undone;
        separate = v.separate;
        thread =
            IsThread-kept s.heap q.after v.cs v.cs v.ds s.thread q.grown (λ x b a. (same x b a, a))
              v.thread;
        located =
            All-map (Located s.heap v.cs v.ds s.thread) (Located q.after v.cs v.ds s.thread)
              s.waiting
              (λ a. Located-kept s v q.after v.cs s.thread a q.grown same (λ k. k) v.thread)
              v.located;
        closed = v.closed;
      }

  -- What a submission that queues nothing leaves of the list of waiting submitters.
  submits-Refused :
      (s : System J) (cleanup : Bool) (context : ℕ) (cs : Cells J)
      (o : Option (Submitted × DeviceWorker × Heap J))
      (q : Refused cleanup context s.worker s.heap cs o)
      → (o >>= λ r. some (record s { worker = r.1; heap = r.2; waiting = await r.0 s.waiting }))
        ≡ some (record s { heap = q.after })
  submits-Refused s cleanup context cs o q =
      ap
        (λ x.
          x >>= λ r. some (record s { worker = r.1; heap = r.2; waiting = await r.0 s.waiting }))
        q.outcome

  pub submits-Inv :
      (s : System J) (v : Inv s) (grants : Grants) (run : Option J) (cleanup : Bool) (context : ℕ)
      (wait : Bool)
      → (t : System J) × (act (submits grants run cleanup context wait) s ≡ some t) × Inv t
  unfolding act
  submits-Inv s v grants none cleanup context wait =
      let q =
        device_worker_submit-Refused cleanup context s.worker s.heap v.cs v.queue grants none wait
          refl in
      (
        record s { heap = q.after },
        submits-Refused s cleanup context v.cs _ q,
        Inv-Refused s v cleanup context _ q,
      )
  submits-Inv s v grants (some run) cleanup context wait =
      elim (Bool-cases (accepted grants (some run) s.worker)) [
        | inl e ↦
            let (r, w', h', same, q) =
              device_worker_submit-Queued grants run cleanup context wait s.worker s.heap v.cs
                v.queue e in
            (
              record s { worker = w'; heap = h'; waiting = await r s.waiting },
              ap
                  (λ x. x >>= λ y.
                    some (record s { worker = y.1; heap = y.2; waiting = await y.0 s.waiting }))
                  same,
              Inv-Queued s v run cleanup context wait r w' h' (ground arith) q,
            )
        | inr e ↦
            let q =
              device_worker_submit-Refused cleanup context s.worker s.heap v.cs v.queue grants
                (some run) wait e in
            (
              record s { heap = q.after },
              submits-Refused s cleanup context v.cs _ q,
              Inv-Refused s v cleanup context _ q,
            )
      ]
