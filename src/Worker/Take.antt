-- ===== src/Worker/Take.antt =====
-- device_worker_loop takes the oldest task.
use tcpremote_device_control.Base.{ℕ, ◌≡◌, ◌⊎◌, inl, inr, refl, if◌then◌else◌, [], ◌∷◌, none, some}
use tcpremote_device_control.Worker.{DeviceWorker, sleeps, exits, runs, next_task, take_head}
use tcpremote_device_control.Worker.Tasks.{Task, Heap}
use tcpremote_device_control.Worker.Tasks.Chain.{Cells}
use tcpremote_device_control.Worker.Queue.{IsQueue}

module _ {J : Type 0} where
  pub next_task-IsQueue :
      (w : DeviceWorker) (h : Heap J) (cs : Cells J)
      → IsQueue w h cs
      → ((cs ≡ []) × (next_task w h ≡ some (if w.running then sleeps else exits, w)))
        ⊎ ((x : ℕ) × (t : Task J) × (rest : Cells J) × (w' : DeviceWorker) × (cs ≡ (x, t) ∷ rest)
            × (next_task w h ≡ some (runs x, w'))
            × IsQueue w' h rest
            × (w'.running ≡ w.running)
            × (w'.started ≡ w.started))
  unfolding next_task
  next_task-IsQueue w h [] q = inl (refl, rw (q.chain, take_head) refl)
  next_task-IsQueue w h ((x, t) ∷ []) q =
      let (e, (n, hx, r)) = q.chain in
      inr (
        x,
        t,
        [],
        record w { head = none; tail = none },
        refl,
        rw (e, take_head, hx, r) refl,
        record { chain = refl; tail = refl; distinct = tt; below = tt },
        refl,
        refl,
      )
  next_task-IsQueue w h ((x, t) ∷ (y, u) ∷ cs) q =
      let (e, (n, hx, r)) = q.chain in
      inr (
        x,
        t,
        (y, u) ∷ cs,
        record w { head = n },
        refl,
        rw (e, take_head, hx, r.0) refl,
        record { chain = r; tail = q.tail; distinct = q.distinct.1; below = q.below.1 },
        refl,
        refl,
      )
