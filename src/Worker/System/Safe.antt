-- ===== src/Worker/System/Safe.antt =====
-- Whatever the order of the actions, no task is used after it is freed, and none is lost.
use tcpremote_device_control.Base.{
  ℕ, ◌≡◌, inl, inr, refl, sym, ◌∙◌, subst, Bool, true, false, Bool-cases, [], none, some, All,
  All-map, Gives,
}
use tcpremote_device_control.Worker.{request_stop, finish_stop}
use tcpremote_device_control.Worker.Tasks.Chain.{Cells, Chain}
use tcpremote_device_control.Worker.Queue.{IsQueue}
use tcpremote_device_control.Worker.System.{
  System, ended, Action, submits, takes, finishes, collects, detaches, cancels, stops, joins,
  IsEnabled, act, started_system, Reaches, starts, acts,
}
use tcpremote_device_control.Worker.System.Inv.{
  Inv, Located, queued, detached, executing, done, IsAllocated, Waits,
}
use tcpremote_device_control.Worker.System.Enqueue.{submits-Inv}
use tcpremote_device_control.Worker.System.Dequeue.{takes-Inv, polls≢ended, ended≢executes}
use tcpremote_device_control.Worker.System.Finish.{finishes-Inv}
use tcpremote_device_control.Worker.System.Collect.{collects-Inv}
use tcpremote_device_control.Worker.System.Sweep.{detaches-Inv, cancels-Inv, no_cells}

module _ {J : Type 0} where
  -- The queue's pointers hold one list of tasks, the canceller's pointer holds another, and the task of
  -- each waiting submitter stands in one of the two, is with the worker's thread, or is done.
  pub record IsHolding (s : System J) : Type 0 where
    pub cs : Cells J
    pub ds : Cells J
    pub queue : IsQueue s.worker s.heap cs
    pub chain : Chain s.heap.task s.cancelling ds
    pub located : All (Located s.heap cs ds s.thread) s.waiting

  Inv-IsHolding : (s : System J) → Inv s → IsHolding s
  Inv-IsHolding s v = record {
    cs = v.cs;
    ds = v.ds;
    queue = v.queue;
    chain = v.chain;
    located = v.located;
  }

  started_system-Inv : Inv (started_system {J = J})
  started_system-Inv = record {
    cs = [];
    ds = [];
    queue = record { chain = refl; tail = refl; distinct = tt; below = tt };
    chain = refl;
    distinct = tt;
    below = tt;
    queued_undone = tt;
    detached_undone = tt;
    separate = tt;
    thread = tt;
    located = tt;
    closed = λ e. absurd (polls≢ended e);
  }

  Inv-worker :
      (s : System J) (v : Inv s) (running started : Bool)
      → (s.worker.running ≡ false → running ≡ false)
      → Inv (record s { worker = record s.worker { running = running; started = started } })
  Inv-worker s v running started e = record {
    cs = v.cs;
    ds = v.ds;
    queue = record {
      chain = v.queue.chain;
      tail = v.queue.tail;
      distinct = v.queue.distinct;
      below = v.queue.below;
    };
    chain = v.chain;
    distinct = v.distinct;
    below = v.below;
    queued_undone = v.queued_undone;
    detached_undone = v.detached_undone;
    separate = v.separate;
    thread = v.thread;
    located = v.located;
    closed = λ q. (e (v.closed q).0, (v.closed q).1);
  }

  stops-Inv : (s : System J) → Inv s → (t : System J) × (act stops s ≡ some t) × Inv t
  unfolding act request_stop
  stops-Inv s v = elim (Bool-cases s.worker.started) [
    | inl b ↦ (
      record s { worker = record s.worker { running = false } },
      simp b refl,
      Inv-worker s v false s.worker.started (λ q. refl),
    )
    | inr b ↦ (s, simp b refl, v)
  ]

  joins-Inv : (s : System J) → Inv s → (t : System J) × (act joins s ≡ some t) × Inv t
  unfolding act finish_stop
  joins-Inv s v = elim (Bool-cases s.worker.started) [
    | inl b ↦ (
      record s { worker = record s.worker { started = false } },
      simp b refl,
      Inv-worker s v s.worker.running false (λ q. q),
    )
    | inr b ↦ (s, simp b refl, v)
  ]

  act-Inv :
      (e : Action J) (s : System J)
      → Inv s
      → IsEnabled e s
      → (t : System J) × (act e s ≡ some t) × Inv t
  act-Inv (submits grants run cleanup context wait) s v p =
      submits-Inv s v grants run cleanup context wait
  act-Inv takes s v p = takes-Inv s v p
  act-Inv (finishes a result) s v p = finishes-Inv s v a result p
  act-Inv (collects a) s v p = collects-Inv s v a p
  act-Inv detaches s v p = detaches-Inv s v p
  act-Inv (cancels a result) s v p = cancels-Inv s v a result p
  act-Inv stops s v p = stops-Inv s v
  act-Inv joins s v p = joins-Inv s v

  Reaches-Inv : (s : System J) → Reaches s → Inv s
  Reaches-Inv s starts = started_system-Inv
  Reaches-Inv s (acts {s = before} e t r p same) =
      let (u, goes, v) = act-Inv e before (Reaches-Inv before r) p in
      subst (Gives Inv) (sym goes ∙ same) v

  -- However the worker's thread, its submitters, a canceller and a stop interleave, an action never uses
  -- a task that is freed; and behind it the task of each waiting submitter is queued, with the canceller,
  -- with the worker's thread, or done and not freed.
  pub act-IsHolding :
      (e : Action J) (s : System J) → Reaches s → IsEnabled e s → Gives IsHolding (act e s)
  act-IsHolding e s r p =
      let (t, goes, v) = act-Inv e s (Reaches-Inv s r) p in
      subst (Gives IsHolding) (sym goes) (Inv-IsHolding t v)

  -- Once the worker's thread has ended and no canceller is at work, the task of every submitter that
  -- still waits is done.
  pub ended-done :
      (s : System J)
      → Reaches s
      → s.thread ≡ ended
      → s.cancelling ≡ none
      → All (λ a. IsAllocated s.heap a true) s.waiting
  ended-done s r e c =
      let v = Reaches-Inv s r in
      All-map (Located s.heap v.cs v.ds s.thread) (λ a. IsAllocated s.heap a true) s.waiting
        (λ a. only_done v a) v.located
    where
      only_done :
          (v : Inv s) (a : ℕ) → Located s.heap v.cs v.ds s.thread a → IsAllocated s.heap a true
      only_done v a (queued k) = absurd (subst (Waits a) (v.closed e).1 k)
      only_done v a (detached k) = absurd (
          subst (Waits a)
            (no_cells s.heap.task v.ds (subst (λ p. Chain s.heap.task p v.ds) c v.chain)) k)
      only_done v a (executing q k) = absurd (ended≢executes a (sym e ∙ q))
      only_done v a (done k) = k
