-- ===== src/Startup/Descriptors.antt =====
-- The file descriptors of a process, as POSIX documents the calls that the server makes on them.
use tcpremote_device_control.Base.{ℕ, ◌<◌, ◌≡◌, ◌≢◌, Bool, true, Option, none, some}

-- What a descriptor refers to: the two files that the daemon opens, or one that it was started with.
pub data File : Type 0 where
  null_device : File
  server_log : File
  inherited : ℕ → File

-- K is the kernel's state. `descriptor` is what each descriptor refers to; open and dup2 may fail.
pub record Kernel (K : Type 0) : Type 0 where
  pub descriptor : K → ℕ → Option File
  pub open_file : File → K → Option ℕ × K
  pub close : ℕ → K → K
  pub dup2 : ℕ → ℕ → K → Bool × K

-- open returns the lowest descriptor that is free, and dup2 makes its second one refer to the file of its
-- first; neither changes another one, and neither does close.
pub record IsPosix {K : Type 0} (kernel : Kernel K) : Type 0 where
  pub opened :
      (f : File) (k k' : K) (fd : ℕ)
      → kernel.open_file f k ≡ (some fd, k')
      → kernel.descriptor k' fd ≡ some f
  pub open_keeps :
      (f : File) (k k' : K) (fd j : ℕ)
      → kernel.open_file f k ≡ (some fd, k')
      → fd ≢ j
      → kernel.descriptor k' j ≡ kernel.descriptor k j
  pub lowest :
      (f : File) (k k' : K) (fd j : ℕ)
      → kernel.open_file f k ≡ (some fd, k')
      → j < fd
      → kernel.descriptor k j ≢ none
  pub was_free :
      (f : File) (k k' : K) (fd : ℕ)
      → kernel.open_file f k ≡ (some fd, k')
      → kernel.descriptor k fd ≡ none
  pub closed : (fd : ℕ) (k : K) → kernel.descriptor (kernel.close fd k) fd ≡ none
  pub close_keeps :
      (fd j : ℕ) (k : K) → fd ≢ j → kernel.descriptor (kernel.close fd k) j ≡ kernel.descriptor k j
  pub doubled :
      (a b : ℕ) (k k' : K)
      → kernel.dup2 a b k ≡ (true, k')
      → kernel.descriptor k' b ≡ kernel.descriptor k a
  pub dup2_keeps :
      (a b j : ℕ) (k k' : K)
      → kernel.dup2 a b k ≡ (true, k')
      → b ≢ j
      → kernel.descriptor k' j ≡ kernel.descriptor k j
