-- ===== src/Worker/Cancel.antt =====
-- device_worker_cancel_pending ends every queued task.
use tcpremote_device_control.Base.{
  ℕ, zero, suc, ◌<◌, ◌≡◌, ◌≢◌, inl, inr, refl, sym, ap, ◌∙◌, true, false, if◌then◌else◌, List, [],
  ◌∷◌, Option, none, some, All, length, arith, ◌>>=◌, Bool-cases,
}
use tcpremote_device_control.DeviceResult.{DeviceResult}
use tcpremote_device_control.Worker.{
  DeviceWorker, destroy_task, cancel_task, cancel_next, cancel_loop, device_worker_cancel_pending,
}
use tcpremote_device_control.Worker.Tasks.{
  Task, Heap, write, run_cleanup, run_cleanup-task, run_cleanup-cleaned, run_cleanup-fresh,
}
use tcpremote_device_control.Worker.Tasks.Chain.{
  Cells, linked, Chain, Apart, Distinct, update_ne, update_self, Chain-same, Apart-same,
}
use tcpremote_device_control.Worker.Queue.{IsQueue}

module _ {J : Type 0} where
  -- What is left at the address of a cancelled task: a task whose submitter waits is done with the
  -- given result, any other is freed.
  abbrev pub cancelled_task : Task J → DeviceResult → Option (Task J)
  cancelled_task t r =
      if t.wait then some (record t { next = none; result = r; done = true }) else none

  -- The contexts that were handed to callbacks, the last one in front.
  abbrev pub cleaned_by : Task J → List ℕ → List ℕ
  cleaned_by t cleaned =
      if t.wait then cleaned else if t.cleanup then t.context ∷ cleaned else cleaned

  abbrev pub cleaned_all : Cells J → List ℕ → List ℕ
  cleaned_all [] cleaned = cleaned
  cleaned_all ((x, t) ∷ cs) cleaned = cleaned_all cs (cleaned_by t cleaned)

  -- One round of the loop.
  pub record Round (h : Heap J) (a : ℕ) (t : Task J) (n : Option ℕ) (r : DeviceResult) (h' : Heap J)
      : Type 0 where
    pub goes_on : cancel_next a r h ≡ some (n, h')
    pub ended : h'.task a ≡ cancelled_task t r
    pub kept : (b : ℕ) → a ≢ b → h'.task b ≡ h.task b
    pub same_fresh : h'.fresh ≡ h.fresh
    pub cleaned : h'.cleaned ≡ cleaned_by t h.cleaned

  abbrev cut : Heap J → ℕ → Task J → Heap J
  cut h a t = write h a (some (linked t none))

  cancel_waiting :
      (h : Heap J) (a : ℕ) (u : Task J) (r : DeviceResult)
      → h.task a ≡ some u
      → u.wait ≡ true
      → cancel_task a r h ≡ some (write h a (some (record u { result = r; done = true })))
  unfolding cancel_task
  cancel_waiting h a u r e w = simp (e, w)

  cancel_freed :
      (h : Heap J) (a : ℕ) (u : Task J) (r : DeviceResult)
      → h.task a ≡ some u
      → u.wait ≡ false
      → cancel_task a r h ≡ some (write (run_cleanup u.cleanup u.context h) a none)
  unfolding cancel_task destroy_task
  cancel_freed h a u r e w = simp (e, w) (simp (run_cleanup-task u.cleanup u.context a h, e))

  next_of :
      (h : Heap J) (a : ℕ) (t : Task J) (n : Option ℕ) (r : DeviceResult)
      → h.task a ≡ some (linked t n)
      → cancel_next a r h ≡ (cancel_task a r (cut h a t) >>= λ h'. some (n, h'))
  unfolding cancel_next
  next_of h a t n r e = simp e

  module _ (h : Heap J) (a : ℕ) (t : Task J) (n : Option ℕ) (r : DeviceResult)
      (e : h.task a ≡ some (linked t n)) where
    there : (cut h a t).task a ≡ some (linked t none)
    there = update_self h.task a _

    Round-waiting :
        t.wait ≡ true
        → Round h a t n r
            (write (cut h a t) a (some (record t { next = none; result = r; done = true })))
    Round-waiting w = record {
      goes_on =
          next_of h a t n r e ∙ rw (cancel_waiting (cut h a t) a (linked t none) r there w) refl;
      ended = update_self (cut h a t).task a _ ∙ simp w;
      kept = λ b m. update_ne (cut h a t).task a b _ m ∙ update_ne h.task a b _ m;
      same_fresh = refl;
      cleaned = simp w;
    }

    abbrev handed : Heap J
    handed = run_cleanup t.cleanup t.context (cut h a t)

    Round-freed : t.wait ≡ false → Round h a t n r (write handed a none)
    Round-freed w = record {
      goes_on =
          next_of h a t n r e ∙ rw (cancel_freed (cut h a t) a (linked t none) r there w) refl;
      ended = update_self handed.task a _ ∙ simp w;
      kept = λ b m.
          update_ne handed.task a b _ m
          ∙ run_cleanup-task t.cleanup t.context b (cut h a t)
          ∙ update_ne h.task a b _ m;
      same_fresh = run_cleanup-fresh t.cleanup t.context (cut h a t);
      cleaned = run_cleanup-cleaned t.cleanup t.context (cut h a t) ∙ simp w;
    }

    pub round : (h' : Heap J) × Round h a t n r h'
    round = elim (Bool-cases t.wait) [ inl w ↦ (_, Round-waiting w) | inr w ↦ (_, Round-freed w) ]

  -- What the loop leaves: every task of the list is ended, every other address is as it was, and
  -- the callbacks ran in the order of the list.
  pub record Swept (h : Heap J) (cs : Cells J) (r : DeviceResult) (h' : Heap J) : Type 0 where
    pub ended : All (λ c. h'.task c.0 ≡ cancelled_task c.1 r) cs
    pub kept : (b : ℕ) → Apart b cs → h'.task b ≡ h.task b
    pub cleaned : h'.cleaned ≡ cleaned_all cs h.cleaned

  cancel_loop-Swept :
      (fuel : ℕ) (p : Option ℕ) (h : Heap J) (cs : Cells J) (r : DeviceResult)
      → length cs < fuel
      → Chain h.task p cs
      → Distinct cs
      → (h' : Heap J) × (cancel_loop fuel p r h ≡ some (none, h')) × Swept h cs r h'
  unfolding cancel_loop
  cancel_loop-Swept zero p h cs r l c d = absurd (omega arith)
  cancel_loop-Swept (suc fuel) p h [] r l c d =
      (h, rw (c, cancel_loop) refl, record { ended = tt; kept = λ b m. refl; cleaned = refl })
  cancel_loop-Swept (suc fuel) p h ((x, t) ∷ cs) r l (e, (n, hx, c)) d =
      let (h₁, one) = round h x t n r hx in
      let kept = Apart-same h.task h₁.task x cs one.kept d.0 in
      let (h', goes, s) =
        cancel_loop-Swept fuel n h₁ cs r (omega arith) (Chain-same h.task h₁.task n cs kept c)
          d.1 in
      (
        h',
        rw (e, cancel_loop, one.goes_on) goes,
        record {
          ended = (s.kept x d.0 ∙ one.ended, s.ended);
          kept = λ b m. s.kept b m.1 ∙ one.kept b (λ q. m.0 (sym q));
          cleaned = s.cleaned ∙ ap (cleaned_all cs) one.cleaned;
        },
      )

  -- Cancelling a started worker ends: its queue is empty afterwards, and every task that was queued
  -- is done with the given result if its submitter waits, and freed otherwise with its context
  -- handed to the callback, oldest first; the worker runs on, if it did, and counts as started.
  -- Any fuel above the number of tasks is enough.
  pub device_worker_cancel_pending-Swept :
      (w : DeviceWorker) (h : Heap J) (cs : Cells J) (r : DeviceResult) (fuel : ℕ)
      → length cs < fuel
      → IsQueue w h cs
      → w.started ≡ true
      → (w' : DeviceWorker) × (h' : Heap J) × (device_worker_cancel_pending fuel r w h
          ≡ some (none, w', h'))
        × IsQueue w' h' []
        × Swept h cs r h'
        × (w'.running ≡ w.running)
        × (w'.started ≡ true)
  unfolding device_worker_cancel_pending
  device_worker_cancel_pending-Swept w h cs r fuel enough q started =
      let (h', goes, s) = cancel_loop-Swept fuel w.head h cs r enough q.chain q.distinct in
      (
        record w { head = none; tail = none },
        h',
        simp (started, goes),
        record { chain = refl; tail = refl; distinct = tt; below = tt },
        s,
        refl,
        started,
      )
