-- ===== src/Startup/Daemon.antt =====
-- The descriptors of the daemon.
use tcpremote_device_control.Base.{
  ℕ, zero, suc, ◌+◌, ◌%◌, ◌^◌, ◌≤◌, ◌<◌, ◌≡◌, ◌≢◌, ◌⊎◌, inl, inr, refl, sym, ◌∙◌, subst, true,
  false, ltb, leb, ◌++◌, Option, none, some, length, length-append, Bytes, codes, pos, arith,
}
use tcpremote_device_control.Startup.{
  goes_on, DaemonCalls, double_three, open_both, redirect_stdio_to_log, close_down, create_daemon,
}
use tcpremote_device_control.Startup.Descriptors.{File, null_device, server_log, Kernel, IsPosix}

-- A kernel that refuses nothing which POSIX lets it grant to a process with this limit on descriptors: the
-- two files can be opened while a descriptor below the limit is free, and an open descriptor can be
-- doubled to any below the limit.
pub record IsGranting {K : Type 0} (kernel : Kernel K) (limit : ℕ) : Type 0 where
  pub opens :
      (f : File) (k : K) (free : ℕ)
      → free < limit
      → kernel.descriptor k free ≡ none
      → (fd : ℕ) × (k' : K) × (kernel.open_file f k ≡ (some fd, k'))
  pub doubles :
      (f : File) (a b : ℕ) (k : K)
      → b < limit
      → kernel.descriptor k a ≡ some f
      → (k' : K) × (kernel.dup2 a b k ≡ (true, k'))

some≢none : (f : File) → (some f ≡ none) → ⊥
some≢none f e = subst There e tt
  where
    There : Option File → Type 0
    There none = ⊥
    There (some x) = Unit {0}

module _ {K : Type 0} (kernel : Kernel K) (posix : IsPosix kernel) where
  close_down_keeps :
      (n j : ℕ) (k : K)
      → n < j
      → kernel.descriptor (close_down kernel n k) j ≡ kernel.descriptor k j
  close_down_keeps zero j k l = posix.close_keeps 0 j k (λ e. omega arith)
  close_down_keeps (suc n) j k l =
      close_down_keeps n j (kernel.close (suc n) k) (omega arith)
      ∙ posix.close_keeps (suc n) j k (λ e. omega arith)

  close_down_frees : (n j : ℕ) (k : K) → j ≤ n → kernel.descriptor (close_down kernel n k) j ≡ none
  close_down_frees zero j k l =
      subst (λ x. kernel.descriptor (kernel.close 0 k) x ≡ none) (omega arith) (posix.closed 0 k)
  close_down_frees (suc n) j k l = elim (cases j n l) [
    | inl b ↦ close_down_frees n j (kernel.close (suc n) k) b
    | inr e ↦
        close_down_keeps n j (kernel.close (suc n) k) (omega arith)
        ∙ subst (λ x. kernel.descriptor (kernel.close (suc n) k) x ≡ none) (sym e)
            (posix.closed (suc n) k)
  ]
    where
      cases : (j n : ℕ) → j ≤ suc n → (j ≤ n) ⊎ (j ≡ suc n)
      cases j n l = ground arith

  -- open returns the descriptor below which all are taken.
  open_at :
      (f : File) (k k' : K) (fd at : ℕ)
      → kernel.open_file f k ≡ (some fd, k')
      → kernel.descriptor k at ≡ none
      → ((j : ℕ) → j < at → kernel.descriptor k j ≢ none)
      → fd ≡ at
  open_at f k k' fd at e free taken = elim (cases fd at) [
    | inl l ↦ absurd (taken fd l (posix.was_free f k k' fd e))
    | inr (inl same) ↦ same
    | inr (inr g) ↦ absurd (posix.lowest f k k' fd at e g free)
  ]
    where
      cases : (fd at : ℕ) → (fd < at) ⊎ ((fd ≡ at) ⊎ (at < fd))
      cases fd at = ground arith

  -- The descriptors 0, 1 and 2, and those from 3 to `last`.
  pub record IsDetached (last : ℕ) (k : K) : Type 0 where
    pub input : kernel.descriptor k 0 ≡ some null_device
    pub output : kernel.descriptor k 1 ≡ some server_log
    pub error : kernel.descriptor k 2 ≡ some server_log
    pub rest : (j : ℕ) → 2 < j → j ≤ last → kernel.descriptor k j ≡ none

  opened_both :
      (k k₁ k₂ : K)
      → kernel.open_file null_device k ≡ (some 0, k₁)
      → kernel.open_file server_log k₁ ≡ (some 1, k₂)
      → open_both kernel k ≡ double_three kernel 0 1 k₂
  opened_both k k₁ k₂ o₁ o₂ = rw (o₁, o₂) refl

  module _ (limit : ℕ) (enough : 2 < limit) (granting : IsGranting kernel limit) where
    double_three-IsDetached :
        (last : ℕ) (k : K)
        → kernel.descriptor k 0 ≡ some null_device
        → kernel.descriptor k 1 ≡ some server_log
        → ((j : ℕ) → 2 < j → j ≤ last → kernel.descriptor k j ≡ none)
        → (k' : K) × (double_three kernel 0 1 k ≡ goes_on k') × IsDetached last k'
    double_three-IsDetached last k input output rest =
        let (k₁, e₁) = granting.doubles null_device 0 0 k (omega arith) input in
        let kept = posix.dup2_keeps 0 0 1 k k₁ e₁ (λ q. omega arith) ∙ output in
        let (k₂, e₂) = granting.doubles server_log 1 1 k₁ (omega arith) kept in
        let (k₃, e₃) =
          granting.doubles server_log 1 2 k₂ enough (posix.doubled 1 1 k₁ k₂ e₂ ∙ kept) in
        let first : kernel.descriptor k₁ 0 ≡ some null_device = posix.doubled 0 0 k k₁ e₁ ∙ input in
        let second : kernel.descriptor k₂ 1 ≡ some server_log = posix.doubled 1 1 k₁ k₂ e₂ ∙ kept in
        (
          k₃,
          rw (e₁, e₂, e₃) refl,
          record {
            input =
                posix.dup2_keeps 1 2 0 k₂ k₃ e₃ (λ q. omega arith)
                ∙ posix.dup2_keeps 1 1 0 k₁ k₂ e₂ (λ q. omega arith)
                ∙ first;
            output = posix.dup2_keeps 1 2 1 k₂ k₃ e₃ (λ q. omega arith) ∙ second;
            error = posix.doubled 1 2 k₂ k₃ e₃ ∙ second;
            rest = λ j above below.
                posix.dup2_keeps 1 2 j k₂ k₃ e₃ (λ q. omega arith)
                ∙ posix.dup2_keeps 1 1 j k₁ k₂ e₂ (λ q. omega arith)
                ∙ posix.dup2_keeps 0 0 j k k₁ e₁ (λ q. omega arith)
                ∙ rest j above below;
          },
        )

    open_both-IsDetached :
        (last : ℕ) (k : K)
        → 2 ≤ last
        → ((j : ℕ) → j ≤ last → kernel.descriptor k j ≡ none)
        → (k' : K) × (open_both kernel k ≡ goes_on k') × IsDetached last k'
    open_both-IsDetached last k few free =
        let (a, k₁, e₁) = granting.opens null_device k 0 (omega arith) (free 0 (omega arith)) in
        let a0 =
          open_at null_device k k₁ a 0 e₁ (free 0 (omega arith)) (λ j l. absurd (omega arith)) in
        let o₁ = subst (λ x. kernel.open_file null_device k ≡ (some x, k₁)) a0 e₁ in
        let input = posix.opened null_device k k₁ 0 o₁ in
        let kept = λ (j : ℕ) (n : 0 ≢ j). posix.open_keeps null_device k k₁ 0 j o₁ n in
        let (b, k₂, e₂) =
          granting.opens server_log k₁ 1 (omega arith)
            (kept 1 (λ q. omega arith) ∙ free 1 (omega arith)) in
        let b1 =
          open_at server_log k₁ k₂ b 1 e₂ (kept 1 (λ q. omega arith) ∙ free 1 (omega arith))
            (λ j l n. some≢none null_device (
              sym (subst (λ x. kernel.descriptor k₁ x ≡ some null_device) (omega arith) input)
              ∙ n)) in
        let o₂ = subst (λ x. kernel.open_file server_log k₁ ≡ (some x, k₂)) b1 e₂ in
        let (k', e, h) =
          double_three-IsDetached last k₂
            (posix.open_keeps server_log k₁ k₂ 1 0 o₂ (λ q. omega arith) ∙ input)
            (posix.opened server_log k₁ k₂ 1 o₂)
            (λ j above below.
              posix.open_keeps server_log k₁ k₂ 1 j o₂ (λ q. omega arith)
              ∙ kept j (λ q. omega arith)
              ∙ free j below) in
        (k', opened_both k k₁ k₂ o₁ o₂ ∙ e, h)

    -- On a kernel that refuses nothing it can grant below the limit on descriptors, which is from 3 to
    -- 2 ^ 31 - 1 and which sysconf reports, and with a directory whose log file has a path of less than 4096
    -- bytes: the daemon goes on, its standard input is the null device, its standard output and error are
    -- the log, and no other descriptor up to the limit is open.
    pub create_daemon-IsDetached :
        (calls : DaemonCalls) (work_dir : Bytes) (k : K)
        → calls.fork ≡ pos 0
        → calls.setsid ≡ true
        → calls.fork_again ≡ pos 0
        → calls.chdir ≡ true
        → calls.mkdir ≡ true
        → calls.max_fd ≡ pos limit
        → limit < 2 ^ 31
        → length work_dir + 15 < 4096
        → (k' : K) × (create_daemon kernel calls work_dir k ≡ goes_on k') × IsDetached limit k'
    unfolding create_daemon redirect_stdio_to_log
    create_daemon-IsDetached calls work_dir k a b c e f g small short =
        let (k', goes, h) =
          open_both-IsDetached limit (close_down kernel limit k) (omega arith)
            (λ j l. close_down_frees limit j k l) in
        let whole : limit % 2 ^ 32 ≡ limit = omega arith in
        let int : ltb limit (2 ^ 31) ≡ true = ground arith in
        let l₁ : leb 4096 (length (work_dir ++ codes "/log")) ≡ false =
          short_enough (length (work_dir ++ codes "/log"))
            (omega (arith, length-append work_dir (codes "/log"))) in
        let l₂ : leb 4096 (length ((work_dir ++ codes "/log") ++ codes "/server.log")) ≡ false =
          short_enough (length ((work_dir ++ codes "/log") ++ codes "/server.log")) (
            omega (
              arith,
              length-append (work_dir ++ codes "/log") (codes "/server.log"),
              length-append work_dir (codes "/log"),
            )) in
        (k', simp (a, b, c, e, f, g, l₁, l₂, whole, int) goes, h)
      where
        short_enough : (n : ℕ) → n < 4096 → leb 4096 n ≡ false
        short_enough n l = ground arith
