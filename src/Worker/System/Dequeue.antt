-- ===== src/Worker/System/Dequeue.antt =====
-- The worker's thread takes and finishes tasks, and submitters collect them.
use tcpremote_device_control.Base.{
  ℕ, ◌<◌, ◌≡◌, inl, inr, refl, sym, ap, ◌∙◌, subst, Bool, true, false, [], ◌∷◌, Option, some, All,
  All-map, if◌then◌else◌, ◌>>=◌,
}
use tcpremote_device_control.Worker.{DeviceWorker, sleeps, exits}
use tcpremote_device_control.Worker.Tasks.{Task}
use tcpremote_device_control.Worker.Tasks.Chain.{Cells, linked, Chain, Apart, Distinct}
use tcpremote_device_control.Worker.Queue.{IsQueue, Below}
use tcpremote_device_control.Worker.Take.{next_task-IsQueue}
use tcpremote_device_control.Worker.System.{
  System, Thread, polls, executes, ended, takes, turn, act,
}
use tcpremote_device_control.Worker.System.Inv.{
  Inv, IsThread, IsAllocated, Located, queued, detached, executing, done, AreUndone, Waits,
}

abbrev Polls : Thread → Type 0
Polls polls = Unit {0}
Polls _ = ⊥

abbrev Ends : Thread → Type 0
Ends ended = Unit {0}
Ends _ = ⊥

pub polls≢executes : (a : ℕ) → (polls ≡ executes a) → ⊥
polls≢executes a e = subst Polls e tt

pub polls≢ended : (polls ≡ ended) → ⊥
polls≢ended e = subst Polls e tt

pub ended≢executes : (a : ℕ) → (ended ≡ executes a) → ⊥
ended≢executes a e = subst Ends e tt

module _ {J : Type 0} where
  -- The thread has slept or come to its end, with nothing queued.
  Inv-idle :
      (s : System J) (v : Inv s) (next : Thread)
      → s.thread ≡ polls
      → IsThread s.heap v.cs v.ds next
      → (next ≡ ended → (s.worker.running ≡ false) × (v.cs ≡ []))
      → Inv (record s { thread = next })
  Inv-idle s v next e t closed = record {
    cs = v.cs;
    ds = v.ds;
    queue = v.queue;
    chain = v.chain;
    distinct = v.distinct;
    below = v.below;
    queued_undone = v.queued_undone;
    detached_undone = v.detached_undone;
    separate = v.separate;
    thread = t;
    located =
        All-map (Located s.heap v.cs v.ds s.thread) (Located s.heap v.cs v.ds next) s.waiting
          (λ a. moved a) v.located;
    closed = closed;
  }
    where
      moved : (a : ℕ) → Located s.heap v.cs v.ds s.thread a → Located s.heap v.cs v.ds next a
      moved a (queued k) = queued k
      moved a (detached k) = detached k
      moved a (executing q k) = absurd (polls≢executes a (sym e ∙ q))
      moved a (done k) = done k

  undetached_head :
      (x : ℕ) (t : Task J) (rest ds : Cells J)
      → All (λ c. Apart c.0 ((x, t) ∷ rest)) ds
      → Apart x ds
  undetached_head x t rest [] h = tt
  undetached_head x t rest ((y, u) ∷ ds) (h, hs) =
      (λ e. h.0 (sym e), undetached_head x t rest ds hs)

  separate_tail :
      (c : ℕ × Task J) (rest ds : Cells J)
      → All (λ d. Apart d.0 (c ∷ rest)) ds
      → All (λ d. Apart d.0 rest) ds
  separate_tail c rest [] h = tt
  separate_tail c rest (d ∷ ds) (h, hs) = (h.1, separate_tail c rest ds hs)

  -- The oldest task is now with the thread.
  Inv-taken :
      (s : System J) (v : Inv s) (x : ℕ) (t : Task J) (rest : Cells J) (w' : DeviceWorker)
      → s.thread ≡ polls
      → v.cs ≡ (x, t) ∷ rest
      → IsQueue w' s.heap rest
      → Inv (record s { worker = w'; thread = executes x })
  Inv-taken s v x t rest w' e same q =
      let chain = subst (λ l. Chain s.heap.task s.worker.head l) same v.queue.chain in
      let undone = subst AreUndone same v.queued_undone in
      let (_, (n, hx, _)) = chain in
      let bounds = subst (Below s.heap.fresh) same v.queue.below in
      let apart = subst Distinct same v.queue.distinct in
      let separate = subst (λ l. All (λ c. Apart c.0 l) v.ds) same v.separate in
      record {
        cs = rest;
        ds = v.ds;
        queue = q;
        chain = v.chain;
        distinct = v.distinct;
        below = v.below;
        queued_undone = undone.1;
        detached_undone = v.detached_undone;
        separate = separate_tail (x, t) rest v.ds separate;
        thread = record {
          task = linked t n;
          there = hx;
          undone = undone.0;
          bound = bounds.0;
          unqueued = apart.0;
          undetached = undetached_head x t rest v.ds separate;
        };
        located =
            All-map (Located s.heap v.cs v.ds s.thread) (Located s.heap rest v.ds (executes x))
              s.waiting (λ a. moved a n hx undone.0 bounds.0) v.located;
        closed = λ q. absurd (ended≢executes x (sym q));
      }
    where
      in_queue :
          (a : ℕ) (n : Option ℕ)
          → s.heap.task x ≡ some (linked t n)
          → t.done ≡ false
          → x < s.heap.fresh
          → Waits a ((x, t) ∷ rest)
          → Located s.heap rest v.ds (executes x) a
      in_queue a n hx u b (inl (q, w)) = executing (ap executes q) (
          subst (λ y. IsAllocated s.heap y false) q
            (record { task = linked t n; there = hx; waits = w; state = u; bound = b }))
      in_queue a n hx u b (inr k) = queued k

      moved :
          (a : ℕ) (n : Option ℕ)
          → s.heap.task x ≡ some (linked t n)
          → t.done ≡ false
          → x < s.heap.fresh
          → Located s.heap v.cs v.ds s.thread a
          → Located s.heap rest v.ds (executes x) a
      moved a n hx u b (queued k) = in_queue a n hx u b (subst (Waits a) same k)
      moved a n hx u b (detached k) = detached k
      moved a n hx u b (executing q k) = absurd (polls≢executes a (sym e ∙ q))
      moved a n hx u b (done k) = done k

  pub takes-Inv :
      (s : System J) (v : Inv s)
      → s.thread ≡ polls
      → (t : System J) × (act takes s ≡ some t) × Inv t
  unfolding act
  takes-Inv s v e = elim (next_task-IsQueue s.worker s.heap v.cs v.queue) [
    | inl (empty, same) ↦
        let next = turn (if s.worker.running then sleeps else exits) in
        (
          record s { thread = next },
          ap (λ x. x >>= λ r. some (record s { worker = r.1; thread = turn r.0 })) same,
          Inv-idle s v next e (idle s.worker.running)
              (λ q. (exits_stopped s.worker.running q, empty)),
        )
    | inr (x, t, rest, w', same, next, q, _, _) ↦ (
      record s { worker = w'; thread = executes x },
      ap (λ y. y >>= λ r. some (record s { worker = r.1; thread = turn r.0 })) next,
      Inv-taken s v x t rest w' e same q,
    )
  ]
    where
      idle : (b : Bool) → IsThread s.heap v.cs v.ds (turn (if b then sleeps else exits))
      idle true = tt
      idle false = tt

      exits_stopped : (b : Bool) → turn (if b then sleeps else exits) ≡ ended → b ≡ false
      exits_stopped true q = absurd (polls≢ended q)
      exits_stopped false q = refl
