-- ===== src/Worker/Blocked/Drained.antt =====
-- The submitter of a task gets the result of its own function.
use tcpremote_device_control.Base.{
  ℕ, zero, suc, ◌<◌, ◌≡◌, ◌≢◌, refl, sym, ap, ◌∙◌, subst, inl, inr, Bool, true, false,
  if◌then◌else◌, Bool-cases, [], ◌∷◌, Option, none, some, All, length, arith,
}
use tcpremote_device_control.DeviceResult.{DeviceResult}
use tcpremote_device_control.Worker.{DeviceWorker, finish_task, destroy_task, sleeps, exits}
use tcpremote_device_control.Worker.Tasks.{
  Task, Heap, write, run_cleanup, run_cleanup-task, run_cleanup-fresh,
}
use tcpremote_device_control.Worker.Tasks.Chain.{
  Cells, linked, Chain, Apart, update_ne, update_self,
}
use tcpremote_device_control.Worker.Queue.{IsQueue, Below}
use tcpremote_device_control.Worker.Take.{next_task-IsQueue}
use tcpremote_device_control.Worker.Blocked.{execute_task, go_round, drain}

module _ {J : Type 0} (run : J → DeviceResult) where
  -- A task that a submitter waits for is done; any other one is freed.
  abbrev pub executed : Task J → Option ℕ → Option (Task J)
  executed t n =
      if t.wait then some (record t { next = n; result = run t.run; done = true }) else none

  -- The end of one task.
  pub record Executed (h : Heap J) (x : ℕ) (t : Task J) (n : Option ℕ) (h' : Heap J) : Type 0 where
    pub goes : execute_task run x h ≡ some h'
    pub ended : h'.task x ≡ executed t n
    pub kept : (b : ℕ) → x ≢ b → h'.task b ≡ h.task b
    pub fresh : h'.fresh ≡ h.fresh

  execute_task-Executed :
      (h : Heap J) (x : ℕ) (t : Task J) (n : Option ℕ)
      → h.task x ≡ some (linked t n)
      → (h' : Heap J) × Executed h x t n h'
  unfolding execute_task finish_task destroy_task
  execute_task-Executed h x t n e = elim (Bool-cases t.wait) [
    | inl w ↦
        let new = record t { next = n; result = run t.run; done = true } in
        (
          write h x (some new),
          record {
            goes = rw (e, w) refl;
            ended = rw w (update_self h.task x _);
            kept = λ b m. update_ne h.task x b (some new) m;
            fresh = refl;
          },
        )
    | inr w ↦
        let h₁ = run_cleanup t.cleanup t.context h in
        (
          write h₁ x none,
          record {
            goes = rw (e, w, run_cleanup-task t.cleanup t.context x h, e) refl;
            ended = rw w (update_self h₁.task x _);
            kept = λ b m. update_ne h₁.task x b none m ∙ run_cleanup-task t.cleanup t.context b h;
            fresh = run_cleanup-fresh t.cleanup t.context h;
          },
        )
  ]

  -- What draining leaves.
  pub record Drained (w : DeviceWorker) (h : Heap J) (cs : Cells J) (w' : DeviceWorker)
      (h' : Heap J) : Type 0 where
    pub queue : IsQueue w' h' []
    pub ended : All (λ c. (n : Option ℕ) × (h'.task c.0 ≡ executed c.1 n)) cs
    pub kept : (b : ℕ) → Apart b cs → h'.task b ≡ h.task b
    pub fresh : h'.fresh ≡ h.fresh
    pub running : w'.running ≡ w.running
    pub started : w'.started ≡ w.started

  Chain-executed :
      (f g : ℕ → Option (Task J)) (x : ℕ) (p : Option ℕ) (cs : Cells J)
      → ((b : ℕ) → x ≢ b → g b ≡ f b)
      → Apart x cs
      → Chain f p cs
      → Chain g p cs
  Chain-executed f g x p [] same a e = e
  Chain-executed f g x p ((y, t) ∷ cs) same (a, as') (e, (n, i, r)) =
      (e, (n, same y a ∙ i, Chain-executed f g x n cs same as' r))

  IsQueue-executed :
      (w : DeviceWorker) (h h' : Heap J) (x : ℕ) (cs : Cells J)
      → ((b : ℕ) → x ≢ b → h'.task b ≡ h.task b)
      → h'.fresh ≡ h.fresh
      → Apart x cs
      → IsQueue w h cs
      → IsQueue w h' cs
  IsQueue-executed w h h' x cs same f a q = record {
    chain = Chain-executed h.task h'.task x w.head cs same a q.chain;
    tail = q.tail;
    distinct = q.distinct;
    below = subst (λ n. Below n cs) (sym f) q.below;
  }

  at_rest :
      (b : Bool) (w : DeviceWorker) (h : Heap J) (next : Heap J → Option (DeviceWorker × Heap J))
      → go_round run (if b then sleeps else exits) w h next ≡ some (w, h)
  at_rest true w h next = refl
  at_rest false w h next = refl

  none-Drained : (w : DeviceWorker) (h : Heap J) → IsQueue w h [] → Drained w h [] w h
  none-Drained w h q = record {
    queue = q;
    ended = tt;
    kept = λ b a. refl;
    fresh = refl;
    running = refl;
    started = refl;
  }

  -- A round, and the rest.
  more-Drained :
      (w w₁ w' : DeviceWorker) (h h₁ h' : Heap J) (x : ℕ) (t : Task J) (n : Option ℕ) (cs : Cells J)
      → Executed h x t n h₁
      → Apart x cs
      → w₁.running ≡ w.running
      → w₁.started ≡ w.started
      → Drained w₁ h₁ cs w' h'
      → Drained w h ((x, t) ∷ cs) w' h'
  more-Drained w w₁ w' h h₁ h' x t n cs one a r s d = record {
    queue = d.queue;
    ended = ((n, d.kept x a ∙ one.ended), d.ended);
    kept = λ b (y, ys). d.kept b ys ∙ one.kept b (λ e. y (sym e));
    fresh = d.fresh ∙ one.fresh;
    running = d.running ∙ r;
    started = d.started ∙ s;
  }

  -- With more fuel than there are tasks, every queued task is executed.
  pub drain-Drained :
      (fuel : ℕ) (w : DeviceWorker) (h : Heap J) (cs : Cells J)
      → length cs < fuel
      → IsQueue w h cs
      → (w' : DeviceWorker) × (h' : Heap J) × (drain run fuel w h ≡ some (w', h'))
        × Drained w h cs w' h'
  unfolding drain
  drain-Drained zero w h cs l q = absurd (omega arith)
  drain-Drained (suc fuel) w h cs l q = elim (next_task-IsQueue w h cs q) [
    | inl (empty, e) ↦ (
      w,
      h,
      rw e (at_rest w.running w h (λ h'. drain run fuel w h')),
      subst (λ ds. Drained w h ds w h) (sym empty) (none-Drained w h (subst (IsQueue w h) empty q)),
    )
    | inr (x, t, rest, w₁, same, e, q₁, r, s) ↦
        let q' = subst (IsQueue w h) same q in
        let (at, (n, i, c)) = q'.chain in
        let (h₁, one) = execute_task-Executed h x t n i in
        let few : length rest < fuel = shorter (length cs) (length rest) fuel (ap length same) l in
        let (w', h', goes, d) =
          drain-Drained fuel w₁ h₁ rest few
            (IsQueue-executed w₁ h h₁ x rest one.kept one.fresh q'.distinct.0 q₁) in
        (
          w',
          h',
          rw (e, one.goes) goes,
          subst (λ ds. Drained w h ds w' h') (sym same)
              (more-Drained w w₁ w' h h₁ h' x t n rest one q'.distinct.0 r s d),
        )
  ]
    where
      shorter : (a b fuel : ℕ) → a ≡ suc b → a < suc fuel → b < fuel
      shorter a b fuel e l = omega arith
