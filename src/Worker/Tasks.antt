-- ===== src/Worker/Tasks.antt =====
-- server/device/device_worker.c: `struct DeviceTask`, and the tasks by their addresses. A task's
-- function with its context is a value of J; `cleanup` tells whether its callback is not NULL. The
-- lock and the condition variable of a task carry no value.
pub mod Chain
use tcpremote_device_control.Base.{
  ℕ, ◌+◌, ◌≡◌, refl, Bool, true, false, ◌==◌, if◌then◌else◌, List, [], ◌∷◌, Option, none, some,
}
use tcpremote_device_control.DeviceResult.{DeviceResult}

pub record Task (J : Type 0) : Type 0 where
  pub run : J
  pub cleanup : Bool
  pub context : ℕ
  pub wait : Bool
  pub done : Bool
  pub result : DeviceResult
  pub next : Option ℕ

-- `task` gives the tasks that are allocated, `fresh` the address that calloc returns next, and
-- `cleaned` the contexts handed to a cleanup callback, newest first.
pub record Heap (J : Type 0) : Type 0 where
  pub task : ℕ → Option (Task J)
  pub fresh : ℕ
  pub cleaned : List ℕ

module _ {J : Type 0} where
  abbrev pub update : (ℕ → Option (Task J)) → ℕ → Option (Task J) → ℕ → Option (Task J)
  update f a c b = if a == b then c else f b

  abbrev pub write : Heap J → ℕ → Option (Task J) → Heap J
  write h a c = record h { task = update h.task a c }

  -- `if (cleanup != NULL) cleanup(context);`
  abbrev pub run_cleanup : Bool → ℕ → Heap J → Heap J
  run_cleanup cleanup context h = if cleanup then record h { cleaned = context ∷ h.cleaned } else h

  pub run_cleanup-task :
      (cleanup : Bool) (context b : ℕ) (h : Heap J)
      → (run_cleanup cleanup context h).task b ≡ h.task b
  run_cleanup-task true context b h = refl
  run_cleanup-task false context b h = refl

  pub run_cleanup-fresh :
      (cleanup : Bool) (context : ℕ) (h : Heap J) → (run_cleanup cleanup context h).fresh ≡ h.fresh
  run_cleanup-fresh true context h = refl
  run_cleanup-fresh false context h = refl

  pub run_cleanup-cleaned :
      (cleanup : Bool) (context : ℕ) (h : Heap J)
      → (run_cleanup cleanup context h).cleaned
        ≡ (if cleanup then context ∷ h.cleaned else h.cleaned)
  run_cleanup-cleaned true context h = refl
  run_cleanup-cleaned false context h = refl
