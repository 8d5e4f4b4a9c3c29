-- ===== src/Worker/System/Inv.antt =====
-- Where the tasks of the system are: in the queue, in the list of a canceller, with the worker's thread,
-- or done and still to be collected.
use tcpremote_device_control.Base.{
  ℕ, ◌≤◌, ◌<◌, ◌≡◌, ◌≢◌, ◌⊎◌, inl, inr, refl, sym, ap, ◌∙◌, Bool, true, false, [], ◌∷◌, ◌++◌,
  Option, none, some, All, arith, true≢false,
}
use tcpremote_device_control.Worker.{DeviceWorker}
use tcpremote_device_control.Worker.Tasks.{Task, Heap}
use tcpremote_device_control.Worker.Tasks.Chain.{Cells, linked, Chain, Apart, Distinct, Chain-same}
use tcpremote_device_control.Worker.Queue.{IsQueue, Below, Below-up}
use tcpremote_device_control.Worker.System.{System, Thread, executes, ended}

module _ {J : Type 0} where
  abbrev pub AreUndone : Cells J → Type 0
  AreUndone = All (λ c. c.1.done ≡ false)

  -- The task stands in the list, and its submitter waits.
  abbrev pub Waits : ℕ → Cells J → Type 0
  Waits a [] = ⊥
  Waits a ((x, t) ∷ cs) = ((x ≡ a) × (t.wait ≡ true)) ⊎ Waits a cs

  -- The task that the worker's thread has taken: allocated, not done, and in neither list.
  pub record IsTaken (h : Heap J) (cs ds : Cells J) (x : ℕ) : Type 0 where
    pub task : Task J
    pub there : h.task x ≡ some task
    pub undone : task.done ≡ false
    pub bound : x < h.fresh
    pub unqueued : Apart x cs
    pub undetached : Apart x ds

  abbrev pub IsThread : Heap J → Cells J → Cells J → Thread → Type 0
  IsThread h cs ds (executes x) = IsTaken h cs ds x
  IsThread h cs ds _ = Unit {0}

  pub record IsAllocated (h : Heap J) (a : ℕ) (done : Bool) : Type 0 where
    pub task : Task J
    pub there : h.task a ≡ some task
    pub waits : task.wait ≡ true
    pub state : task.done ≡ done
    pub bound : a < h.fresh

  -- Where the task of a waiting submitter is.
  pub data Located (h : Heap J) (cs ds : Cells J) (thread : Thread) (a : ℕ) : Type 0 where
    queued : Waits a cs → Located h cs ds thread a
    detached : Waits a ds → Located h cs ds thread a
    executing : thread ≡ executes a → IsAllocated h a false → Located h cs ds thread a
    done : IsAllocated h a true → Located h cs ds thread a

  pub record Inv (s : System J) : Type 0 where
    pub cs : Cells J
    pub ds : Cells J
    pub queue : IsQueue s.worker s.heap cs
    pub chain : Chain s.heap.task s.cancelling ds
    pub distinct : Distinct ds
    pub below : Below s.heap.fresh ds
    pub queued_undone : AreUndone cs
    pub detached_undone : AreUndone ds
    pub separate : All (λ c. Apart c.0 cs) ds
    pub thread : IsThread s.heap cs ds s.thread
    pub located : All (Located s.heap cs ds s.thread) s.waiting
    pub closed : s.thread ≡ ended → (s.worker.running ≡ false) × (cs ≡ [])

  abbrev pub done_of : Option (Task J) → Bool
  done_of none = false
  done_of (some t) = t.done

  -- A done task stands in no list of tasks that are not.
  pub done-Apart :
      (f : ℕ → Option (Task J)) (p : Option ℕ) (cs : Cells J) (a : ℕ) (t : Task J)
      → Chain f p cs
      → AreUndone cs
      → f a ≡ some t
      → t.done ≡ true
      → Apart a cs
  done-Apart f p [] a t c u e d = tt
  done-Apart f p ((x, v) ∷ cs) a t (_, (n, hx, rest)) (u, us) e d = (
    λ q. true≢false (sym d ∙ ap done_of (sym e ∙ ap f q ∙ hx) ∙ u),
    done-Apart f n cs a t rest us e d,
  )

  pub Waits-task :
      (f : ℕ → Option (Task J)) (p : Option ℕ) (cs : Cells J) (a : ℕ)
      → Chain f p cs
      → AreUndone cs
      → Waits a cs
      → (t : Task J) × (f a ≡ some t) × (t.done ≡ false)
  Waits-task f p [] a c u k = absurd k
  Waits-task f p ((x, t) ∷ cs) a (_, (n, hx, rest)) (u, us) (inl (e, w)) =
      (linked t n, ap f (sym e) ∙ hx, u)
  Waits-task f p ((x, t) ∷ cs) a (_, (n, hx, rest)) (u, us) (inr k) = Waits-task f n cs a rest us k

  pub Waits-append : (a : ℕ) (cs ds : Cells J) → Waits a cs → Waits a (cs ++ ds)
  Waits-append a [] ds k = absurd k
  Waits-append a ((x, t) ∷ cs) ds (inl k) = inl k
  Waits-append a ((x, t) ∷ cs) ds (inr k) = inr (Waits-append a cs ds k)

  pub Waits-last : (a : ℕ) (t : Task J) (cs : Cells J) → t.wait ≡ true → Waits a (cs ++ (a, t) ∷ [])
  Waits-last a t [] w = inl (refl, w)
  Waits-last a t (c ∷ cs) w = inr (Waits-last a t cs w)

  -- Two heaps of which the second has changed at one address only, and has grown.
  pub record Differ (h h' : Heap J) (z : ℕ) : Type 0 where
    pub kept : (b : ℕ) → b < h.fresh → z ≢ b → h'.task b ≡ h.task b
    pub grown : h.fresh ≤ h'.fresh

  kept_cells :
      (h h' : Heap J) (z : ℕ) (cs : Cells J)
      → Differ h h' z
      → Apart z cs
      → Below h.fresh cs
      → All (λ c. h'.task c.0 ≡ h.task c.0) cs
  kept_cells h h' z [] d a b = tt
  kept_cells h h' z ((x, t) ∷ cs) d (a, apart) (b, bs) =
      (d.kept x b a, kept_cells h h' z cs d apart bs)

  pub Chain-Differ :
      (h h' : Heap J) (z : ℕ) (p : Option ℕ) (cs : Cells J)
      → Differ h h' z
      → Apart z cs
      → Below h.fresh cs
      → Chain h.task p cs
      → Chain h'.task p cs
  Chain-Differ h h' z p cs d a b c = Chain-same h.task h'.task p cs (kept_cells h h' z cs d a b) c

  pub IsQueue-Differ :
      (h h' : Heap J) (z : ℕ) (w : DeviceWorker) (cs : Cells J)
      → Differ h h' z
      → Apart z cs
      → IsQueue w h cs
      → IsQueue w h' cs
  IsQueue-Differ h h' z w cs d a q = record {
    chain = Chain-Differ h h' z w.head cs d a q.below q.chain;
    tail = q.tail;
    distinct = q.distinct;
    below = Below-up h.fresh h'.fresh cs d.grown q.below;
  }

  pub IsAllocated-kept :
      (h h' : Heap J) (a : ℕ) (b : Bool)
      → h'.task a ≡ h.task a
      → h.fresh ≤ h'.fresh
      → IsAllocated h a b
      → IsAllocated h' a b
  IsAllocated-kept h h' a b same grown k = record {
    task = k.task;
    there = same ∙ k.there;
    waits = k.waits;
    state = k.state;
    bound = omega (arith, k.bound);
  }
