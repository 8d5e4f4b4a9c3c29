-- ===== src/Worker/System/Collect.antt =====
-- A submitter collects its result.
use tcpremote_device_control.Base.{
  ℕ, ◌≡◌, ◌≢◌, inl, inr, refl, sym, ap, ◌∙◌, subst, true, false, ◌==◌, ==_iff, List, [], ◌∷◌, some,
  All, arith, true≢false, if-holds,
}
use tcpremote_device_control.Worker.{collect_result}
use tcpremote_device_control.Worker.Tasks.{Task}
use tcpremote_device_control.Worker.Queue.{Below-up}
use tcpremote_device_control.Worker.System.{
  System, Thread, polls, executes, ended, collects, without, IsAwaited, act,
}
use tcpremote_device_control.Worker.System.Inv.{
  Inv, IsTaken, IsThread, IsAllocated, Located, queued, detached, executing, done, Waits-task,
  done_of, done-Apart, Chain-Differ, IsQueue-Differ, IsAllocated-kept,
}
use tcpremote_device_control.Worker.System.Finish.{freed, destroyed, freed-Differ}

All-get : (P : ℕ → Type 0) (a : ℕ) (l : List ℕ) → IsAwaited a l → All P l → P a
All-get P a [] m h = absurd m
All-get P a (b ∷ l) (inl e) h = subst P (sym e) h.0
All-get P a (b ∷ l) (inr m) h = All-get P a l m h.1

All-without :
    (P Q : ℕ → Type 0) (a : ℕ) (l : List ℕ)
    → ((b : ℕ) → a ≢ b → P b → Q b)
    → All P l
    → All Q (without a l)
All-without P Q a [] f h = tt
All-without P Q a (b ∷ l) f h =
    if-holds (All Q) (a == b) (without a l) (b ∷ without a l) (λ e. All-without P Q a l f h.1)
      (λ e. (f b (λ q. true≢false (sym ((==_iff a b).1 q) ∙ e)) h.0, All-without P Q a l f h.1))

module _ {J : Type 0} where
  -- A submitter that wakes up too early finds nothing changed.
  collects-early :
      (s : System J) (a : ℕ) (t : Task J)
      → s.heap.task a ≡ some t
      → t.done ≡ false
      → act (collects a) s ≡ some s
  unfolding act collect_result
  collects-early s a t e u = simp (e, u) refl

  collects-done :
      (s : System J) (a : ℕ) (t : Task J)
      → s.heap.task a ≡ some t
      → t.done ≡ true
      → act (collects a) s
        ≡ some (record s { heap = freed s.heap a t; waiting = without a s.waiting })
  unfolding act collect_result
  collects-done s a t e d = simp (e, d) (rw (destroyed s.heap a t e) refl)

  Inv-collected :
      (s : System J) (v : Inv s) (a : ℕ) (k : IsAllocated s.heap a true)
      → Inv (record s { heap = freed s.heap a k.task; waiting = without a s.waiting })
  Inv-collected s v a k =
      let h' = freed s.heap a k.task in
      let d = freed-Differ s.heap a k.task in
      let unqueued =
        done-Apart s.heap.task s.worker.head v.cs a k.task v.queue.chain v.queued_undone k.there
          k.state in
      let undetached =
        done-Apart s.heap.task s.cancelling v.ds a k.task v.chain v.detached_undone k.there
          k.state in
      record {
        cs = v.cs;
        ds = v.ds;
        queue = IsQueue-Differ s.heap h' a s.worker v.cs d unqueued v.queue;
        chain = Chain-Differ s.heap h' a s.cancelling v.ds d undetached v.below v.chain;
        distinct = v.distinct;
        below = Below-up s.heap.fresh h'.fresh v.ds d.grown v.below;
        queued_undone = v.queued_undone;
        detached_undone = v.detached_undone;
        separate = v.separate;
        thread = still_taken s.thread v.thread;
        located =
            All-without (Located s.heap v.cs v.ds s.thread) (Located h' v.cs v.ds s.thread) a
              s.waiting (λ b n. moved b n) v.located;
        closed = v.closed;
      }
    where
      untaken : (x : ℕ) → IsTaken s.heap v.cs v.ds x → a ≢ x
      untaken x t q =
          true≢false
            (sym k.state ∙ ap done_of (sym k.there ∙ ap s.heap.task q ∙ t.there) ∙ t.undone)

      still_taken :
          (thread : Thread)
          → IsThread s.heap v.cs v.ds thread
          → IsThread (freed s.heap a k.task) v.cs v.ds thread
      still_taken polls t = tt
      still_taken ended t = tt
      still_taken (executes x) t =
          let d = freed-Differ s.heap a k.task in
          record {
            task = t.task;
            there = d.kept x t.bound (untaken x t) ∙ t.there;
            undone = t.undone;
            bound = omega (arith, t.bound, d.grown);
            unqueued = t.unqueued;
            undetached = t.undetached;
          }

      moved :
          (b : ℕ)
          → a ≢ b
          → Located s.heap v.cs v.ds s.thread b
          → Located (freed s.heap a k.task) v.cs v.ds s.thread b
      moved b n (queued x) = queued x
      moved b n (detached x) = detached x
      moved b n (executing q x) =
          let d = freed-Differ s.heap a k.task in
          executing q (IsAllocated-kept s.heap _ b false (d.kept b x.bound n) d.grown x)
      moved b n (done x) =
          let d = freed-Differ s.heap a k.task in
          done (IsAllocated-kept s.heap _ b true (d.kept b x.bound n) d.grown x)

  pub collects-Inv :
      (s : System J) (v : Inv s) (a : ℕ)
      → IsAwaited a s.waiting
      → (t : System J) × (act (collects a) s ≡ some t) × Inv t
  collects-Inv s v a m =
      by_place (All-get (Located s.heap v.cs v.ds s.thread) a s.waiting m v.located)
    where
      by_place :
          Located s.heap v.cs v.ds s.thread a
          → (t : System J) × (act (collects a) s ≡ some t) × Inv t
      by_place (queued x) =
          let (t, e, u) =
            Waits-task s.heap.task s.worker.head v.cs a v.queue.chain v.queued_undone x in
          (s, collects-early s a t e u, v)
      by_place (detached x) =
          let (t, e, u) = Waits-task s.heap.task s.cancelling v.ds a v.chain v.detached_undone x in
          (s, collects-early s a t e u, v)
      by_place (executing q x) = (s, collects-early s a x.task x.there x.state, v)
      by_place (done x) = (_, collects-done s a x.task x.there x.state, Inv-collected s v a x)
