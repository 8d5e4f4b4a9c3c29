-- ===== src/Worker/System/Sweep.antt =====
-- A canceller takes the whole queue and ends its tasks one by one.
use tcpremote_device_control.Base.{
  ℕ, ◌<◌, ◌≡◌, ◌≢◌, inl, inr, refl, sym, ap, ◌∙◌, subst, true, false, Bool-cases, [], ◌∷◌, Option,
  none, some, All, All-map, arith, ◌>>=◌, true≢false,
}
use tcpremote_device_control.DeviceResult.{DeviceResult}
use tcpremote_device_control.Worker.{detach_pending}
use tcpremote_device_control.Worker.Tasks.{Task, Heap}
use tcpremote_device_control.Worker.Tasks.Chain.{Cells, linked, Chain, Apart, Distinct}
use tcpremote_device_control.Worker.Queue.{Below, Below-up}
use tcpremote_device_control.Worker.Cancel.{Round, round}
use tcpremote_device_control.Worker.System.{
  System, Thread, polls, executes, ended, detaches, cancels, act,
}
use tcpremote_device_control.Worker.System.Inv.{
  Inv, IsThread, IsAllocated, Located, queued, detached, executing, done, AreUndone, Waits, done_of,
  Differ, Chain-Differ, IsQueue-Differ, IsAllocated-kept,
}

some≢none : (a : ℕ) → (some a ≡ none) → ⊥
some≢none a e = subst There e tt
  where
    There : Option ℕ → Type 0
    There none = ⊥
    There (some x) = Unit {0}

some-injective : (a b : ℕ) → some a ≡ some b → a ≡ b
some-injective a b e = ap (λ (o : Option ℕ). elim o [ none ↦ 0 | some x ↦ x ]) e

module _ {J : Type 0} where
  pub no_cells : (f : ℕ → Option (Task J)) (ds : Cells J) → Chain f none ds → ds ≡ []
  no_cells f [] c = refl
  no_cells f ((x, t) ∷ ds) c = absurd (some≢none x (sym c.0))

  -- The queue is now the canceller's list.
  Inv-detached :
      (s : System J) (v : Inv s)
      → s.cancelling ≡ none
      → Inv (record s {
        cancelling = s.worker.head;
        worker = record s.worker { head = none; tail = none };
      })
  Inv-detached s v e = record {
    cs = [];
    ds = v.cs;
    queue = record { chain = refl; tail = refl; distinct = tt; below = tt };
    chain = v.queue.chain;
    distinct = v.queue.distinct;
    below = v.queue.below;
    queued_undone = tt;
    detached_undone = v.queued_undone;
    separate = all_apart v.cs;
    thread = still_taken s.thread v.thread;
    located =
        All-map (Located s.heap v.cs v.ds s.thread) (Located s.heap [] v.cs s.thread) s.waiting
          (λ a. moved a) v.located;
    closed = λ q. ((v.closed q).0, refl);
  }
    where
      all_apart : (cs : Cells J) → All (λ c. Unit {0}) cs
      all_apart [] = tt
      all_apart (c ∷ cs) = (tt, all_apart cs)

      still_taken :
          (thread : Thread) → IsThread s.heap v.cs v.ds thread → IsThread s.heap [] v.cs thread
      still_taken polls t = tt
      still_taken ended t = tt
      still_taken (executes x) t = record {
        task = t.task;
        there = t.there;
        undone = t.undone;
        bound = t.bound;
        unqueued = tt;
        undetached = t.unqueued;
      }

      moved : (a : ℕ) → Located s.heap v.cs v.ds s.thread a → Located s.heap [] v.cs s.thread a
      moved a (queued k) = detached k
      moved a (detached k) = absurd (
          subst (Waits a)
            (no_cells s.heap.task v.ds (subst (λ p. Chain s.heap.task p v.ds) e v.chain)) k)
      moved a (executing q k) = executing q k
      moved a (done k) = done k

  pub detaches-Inv :
      (s : System J) (v : Inv s)
      → s.cancelling ≡ none
      → (t : System J) × (act detaches s ≡ some t) × Inv t
  unfolding act detach_pending
  detaches-Inv s v e = elim (Bool-cases s.worker.started) [
    | inl b ↦ (
      record s {
        cancelling = s.worker.head;
        worker = record s.worker { head = none; tail = none };
      },
      simp b refl,
      Inv-detached s v e,
    )
    | inr b ↦ (s, simp b (ap (λ p. some (record s { cancelling = p })) (sym e)), v)
  ]

  module _ (s : System J) (v : Inv s) (x : ℕ) (t : Task J) (ds : Cells J) (n : Option ℕ)
      (result : DeviceResult) (h' : Heap J) (same : v.ds ≡ (x, t) ∷ ds)
      (hx : s.heap.task x ≡ some (linked t n)) (r : Round s.heap x t n result h') where
    differ : Differ s.heap h' x
    differ = record { kept = λ b l a. r.kept b a; grown = omega (arith, r.same_fresh) }

    first-Apart : (l ds' : Cells J) → All (λ c. Apart c.0 l) ((x, t) ∷ ds') → Apart x l
    first-Apart l ds' k = k.0

    told : t.wait ≡ true → x < s.heap.fresh → IsAllocated h' x true
    told w b = record {
      task = record t { next = none; result = result; done = true };
      there = r.ended ∙ simp w refl;
      waits = w;
      state = refl;
      bound = omega (arith, b, differ.grown);
    }

    moved :
        (a : ℕ)
        → t.done ≡ false
        → x < s.heap.fresh
        → Located s.heap v.cs v.ds s.thread a
        → Located h' v.cs ds s.thread a
    moved a u b (queued k) = queued k
    moved a u b (detached k) = in_list (subst (Waits a) same k)
      where
        in_list : Waits a ((x, t) ∷ ds) → Located h' v.cs ds s.thread a
        in_list (inl (q, w)) = done (subst (λ y. IsAllocated h' y true) q (told w b))
        in_list (inr k') = detached k'
    moved a u b (executing q k) =
        let taken = subst (IsThread s.heap v.cs v.ds) q v.thread in
        let apart = subst (Apart a) same taken.undetached in
        executing q
          (IsAllocated-kept s.heap h' a false (r.kept a (λ e. apart.0 (sym e))) differ.grown k)
    moved a u b (done k) =
        let differs : x ≢ a = λ q.
          true≢false (sym k.state ∙ ap done_of (sym k.there ∙ ap s.heap.task (sym q) ∙ hx) ∙ u) in
        done (IsAllocated-kept s.heap h' a true (r.kept a differs) differ.grown k)

    still_taken : (thread : Thread) → IsThread s.heap v.cs v.ds thread → IsThread h' v.cs ds thread
    still_taken polls k = tt
    still_taken ended k = tt
    still_taken (executes y) k =
        let apart = subst (Apart y) same k.undetached in
        record {
          task = k.task;
          there = r.kept y (λ e. apart.0 (sym e)) ∙ k.there;
          undone = k.undone;
          bound = omega (arith, k.bound, differ.grown);
          unqueued = k.unqueued;
          undetached = apart.1;
        }

    Inv-cancelled : Chain s.heap.task n ds → Inv (record s { cancelling = n; heap = h' })
    Inv-cancelled c =
        let undone = subst AreUndone same v.detached_undone in
        let bounds = subst (Below s.heap.fresh) same v.below in
        let apart = subst Distinct same v.distinct in
        let separate = subst (All (λ c'. Apart c'.0 v.cs)) same v.separate in
        record {
          cs = v.cs;
          ds = ds;
          queue = IsQueue-Differ s.heap h' x s.worker v.cs differ separate.0 v.queue;
          chain = Chain-Differ s.heap h' x n ds differ apart.0 bounds.1 c;
          distinct = apart.1;
          below = Below-up s.heap.fresh h'.fresh ds differ.grown bounds.1;
          queued_undone = v.queued_undone;
          detached_undone = undone.1;
          separate = separate.1;
          thread = still_taken s.thread v.thread;
          located =
              All-map (Located s.heap v.cs v.ds s.thread) (Located h' v.cs ds s.thread) s.waiting
                (λ a. moved a undone.0 bounds.0) v.located;
          closed = v.closed;
        }

  cancels_first :
      (s : System J) (v : Inv s) (a : ℕ) (result : DeviceResult) (ds : Cells J)
      → v.ds ≡ ds
      → Chain s.heap.task s.cancelling ds
      → s.cancelling ≡ some a
      → (t : System J) × (act (cancels a result) s ≡ some t) × Inv t
  unfolding act
  cancels_first s v a result [] same c e = absurd (some≢none a (sym e ∙ c))
  cancels_first s v a result ((x, t) ∷ ds) same (p, (n, hx, c)) e =
      let (h', r) = round s.heap x t n result hx in
      let here : x ≡ a = some-injective x a (sym p ∙ e) in
      (
        record s { cancelling = n; heap = h' },
        subst (λ y. act (cancels y result) s ≡ some (record s { cancelling = n; heap = h' })) here
            (ap (λ y. y >>= λ z. some (record s { cancelling = z.0; heap = z.1 })) r.goes_on),
        Inv-cancelled s v x t ds n result h' same hx r c,
      )

  pub cancels-Inv :
      (s : System J) (v : Inv s) (a : ℕ) (result : DeviceResult)
      → s.cancelling ≡ some a
      → (t : System J) × (act (cancels a result) s ≡ some t) × Inv t
  cancels-Inv s v a result e = cancels_first s v a result v.ds refl v.chain e
