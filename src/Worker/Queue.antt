-- ===== src/Worker/Queue.antt =====
-- The worker's queue against a list of tasks, first in first out.
use tcpremote_device_control.Base.{
  ℕ, ◌≤◌, ◌<◌, ◌≡◌, ◌≢◌, refl, sym, [], ◌∷◌, ◌++◌, none, some, All, arith, All-append,
}
use tcpremote_device_control.Worker.{DeviceWorker, append_task, append_behind}
use tcpremote_device_control.Worker.Tasks.{Task, Heap, write}
use tcpremote_device_control.Worker.Tasks.Chain.{
  Cells, linked, Chain, Apart, Distinct, last_address, Chain-append, last_Apart, update_ne,
}

module _ {J : Type 0} where
  abbrev pub Below : ℕ → Cells J → Type 0
  Below n = All (λ c. c.0 < n)

  -- The worker's two pointers hold the tasks cs in this order, all of them allocated.
  pub record IsQueue (w : DeviceWorker) (h : Heap J) (cs : Cells J) : Type 0 where
    pub chain : Chain h.task w.head cs
    pub tail : w.tail ≡ last_address cs
    pub distinct : Distinct cs
    pub below : Below h.fresh cs

  pub Below-Apart : (n : ℕ) (cs : Cells J) → Below n cs → Apart n cs
  Below-Apart n [] b = tt
  Below-Apart n ((x, t) ∷ cs) (b, bs) = (λ e. omega arith, Below-Apart n cs bs)

  pub Below-up : (n m : ℕ) (cs : Cells J) → n ≤ m → Below n cs → Below m cs
  Below-up n m [] l b = tt
  Below-up n m (c ∷ cs) l (b, bs) = (omega arith, Below-up n m cs l bs)

  Distinct-snoc :
      (z : ℕ) (t : Task J) (cs : Cells J) → Apart z cs → Distinct cs → Distinct (cs ++ (z, t) ∷ [])
  Distinct-snoc z t [] a d = (tt, tt)
  Distinct-snoc z t ((x, u) ∷ cs) (a, rest) (d, ds) = (
    All-append (λ c. x ≢ c.0) cs ((z, t) ∷ []) d ((λ e. a (sym e)), tt),
    Distinct-snoc z t cs rest ds,
  )

  last_snoc : (z : ℕ) (t : Task J) (cs : Cells J) → last_address (cs ++ (z, t) ∷ []) ≡ some z
  last_snoc z t [] = refl
  last_snoc z t (c ∷ []) = refl
  last_snoc z t (c ∷ c' ∷ cs) = last_snoc z t (c' ∷ cs)

  last_cons : (c : ℕ × Task J) (cs : Cells J) → (y : ℕ) × (last_address (c ∷ cs) ≡ some y)
  last_cons (x, t) [] = (x, refl)
  last_cons (x, t) (c ∷ cs) = last_cons c cs

  -- Appending a task that the heap already holds.
  pub append_task-IsQueue :
      (w : DeviceWorker) (h : Heap J) (cs : Cells J) (z : ℕ) (new : Task J)
      → IsQueue w h cs
      → Apart z cs
      → z < h.fresh
      → h.task z ≡ some (linked new none)
      → (w' : DeviceWorker) × (h' : Heap J) × (append_task z w h ≡ some (w', h'))
        × IsQueue w' h' (cs ++ (z, new) ∷ [])
        × ((b : ℕ) → Apart b cs → h'.task b ≡ h.task b)
        × (h'.fresh ≡ h.fresh)
        × (h'.cleaned ≡ h.cleaned)
        × (w'.running ≡ w.running)
        × (w'.started ≡ w.started)
  unfolding append_task
  append_task-IsQueue w h [] z new q a l hz = (
    record w { head = some z; tail = some z },
    h,
    rw (q.tail, append_behind) refl,
    record { chain = (refl, (none, hz, refl)); tail = refl; distinct = (tt, tt); below = (l, tt) },
    λ b a'. refl,
    refl,
    refl,
    refl,
    refl,
  )
  append_task-IsQueue w h (c ∷ cs) z new q a l hz =
      let (y, at_end) = last_cons c cs in
      let (last, hy, chain) =
        Chain-append h.task w.head c cs y z new q.chain q.distinct a at_end hz in
      (
        record w { tail = some z },
        write h y (some (record last { next = some z })),
        rw (q.tail, at_end, append_behind, hy) refl,
        record {
          chain = chain;
          tail = sym (last_snoc z new (c ∷ cs));
          distinct = Distinct-snoc z new (c ∷ cs) a q.distinct;
          below = All-append (λ c. c.0 < h.fresh) (c ∷ cs) ((z, new) ∷ []) q.below (l, tt);
        },
        λ b a'. update_ne h.task y b _ (last_Apart b y c cs a' at_end),
        refl,
        refl,
        refl,
        refl,
      )
