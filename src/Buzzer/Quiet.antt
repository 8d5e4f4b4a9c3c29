-- ===== src/Buzzer/Quiet.antt =====
-- How a delay ends, whatever other threads do meanwhile.
use tcpremote_device_control.Base.{
  ℕ, zero, suc, ◌+◌, ◌-◌, ◌%◌, ◌^◌, ◌≤◌, ◌<◌, ◌≡◌, refl, sym, ap, ◌∙◌, subst, Bool, true, false,
  not, ltb, Option, arith, Gives, Gives-map, if-holds, true≢false,
}
use tcpremote_device_control.Buzzer.{
  Buzzer, is_stop_requested, delay, step_of, unless_stopped, completed, delay_loop,
  delay_until_done_or_stopped,
}
use tcpremote_device_control.Buzzer.Cached.{
  IsCached, Waits, Waits-trans, lock-Waits, lock_requested,
}
use tcpremote_device_control.Buzzer.Prompt.{IsPrompt, IsPrompt-trans, lock-IsPrompt, delay-IsPrompt}

-- How a delay or a note ends: after its full time, or early because of a request.
pub record EndsIn (ms : ℕ) (b : Buzzer) (r : Bool × Buzzer) : Type 0 where
  pub spent : ℕ
  pub waits : Waits spent b r.1
  pub at_most : spent ≤ ms
  pub full : r.0 ≡ true → spent ≡ ms
  pub early : r.0 ≡ false → r.1.stop_requested ≡ true
  pub ignores_none : b.stop_requested ≡ true → (r.0 ≡ false) × (spent ≡ 0)
  pub prompt : IsPrompt spent b r.1

step_of-IsShort : (n : ℕ) → step_of n ≤ 10
step_of-IsShort n = ground arith

step_of-bounds : (n : ℕ) → 0 < n → (step_of n ≤ n) × (0 < step_of n)
step_of-bounds n h = (ground arith, ground arith)

delay-Waits : (ms : ℕ) (b : Buzzer) → ms ≤ 10 → IsCached b → Waits ms b (delay ms b)
delay-Waits ms b small h = record {
  is_cached = record { cached = h.cached; sounding = h.sounding; steps = (small, h.steps) };
  total = refl;
}

-- A poll that finds a request, and the last poll.
poll-EndsIn : (b : Buzzer) → IsCached b → EndsIn 0 b (completed (is_stop_requested b))
unfolding is_stop_requested
poll-EndsIn b h = record {
  spent = 0;
  waits = lock-Waits b h;
  at_most = omega arith;
  full = λ e. refl;
  early = λ e. not_false _ e;
  ignores_none = λ e. (ap not (lock_requested b e), refl);
  prompt = lock-IsPrompt b;
}
  where
    not_false : (x : Bool) → not x ≡ false → x ≡ true
    not_false true e = refl
    not_false false e = sym e

-- One round of the loop: a poll, a delay, and the rest of the loop.
unless_stopped-EndsIn :
    (ms step_ms : ℕ) (b : Buzzer) (next : Buzzer → Option (Bool × Buzzer)) (r : Bool × Buzzer)
    → Waits 0 b r.1
    → r.0 ≡ r.1.stop_requested
    → (b.stop_requested ≡ true → r.1.stop_requested ≡ true)
    → IsPrompt 0 b r.1
    → (r.0 ≡ false → IsPrompt step_ms b (delay step_ms r.1))
    → step_ms ≤ 10
    → step_ms ≤ ms
    → ((b' : Buzzer) → IsCached b' → Gives (EndsIn (ms - step_ms) b') (next b'))
    → Gives (EndsIn ms b) (unless_stopped r (λ b'. next (delay step_ms b')))
unless_stopped-EndsIn ms step_ms b next (true, b') l polled kept used waited short fits rest =
    record {
      spent = 0;
      waits = l;
      at_most = omega arith;
      full = λ f. absurd (true≢false (sym f));
      early = λ f. sym polled;
      ignores_none = λ f. (refl, refl);
      prompt = used;
    }
unless_stopped-EndsIn ms step_ms b next (false, b') l polled kept used waited short fits rest =
    let d = delay-Waits step_ms b' short l.is_cached in
    Gives-map (EndsIn (ms - step_ms) (delay step_ms b')) (EndsIn ms b) (next (delay step_ms b'))
      (λ r k. record {
        spent = k.spent + step_ms;
        waits =
            Waits-trans step_ms k.spent b (delay step_ms b') r.1
              (record { is_cached = d.is_cached; total = omega (arith, d.total, l.total) }) k.waits;
        at_most = omega (arith, k.at_most);
        full = λ f. omega (arith, k.full f);
        early = k.early;
        ignores_none = λ f. absurd (true≢false (sym (kept f) ∙ sym polled));
        prompt = IsPrompt-trans step_ms k.spent b (delay step_ms b') r.1 (waited refl) k.prompt;
      })
      (rest (delay step_ms b') d.is_cached)

delay_loop-EndsIn :
    (fuel elapsed_ms duration_ms : ℕ) (b : Buzzer)
    → IsCached b
    → elapsed_ms ≤ duration_ms
    → duration_ms < 2 ^ 32
    → duration_ms - elapsed_ms < fuel
    → Gives (EndsIn (duration_ms - elapsed_ms) b) (delay_loop fuel elapsed_ms duration_ms b)
unfolding delay_loop is_stop_requested
delay_loop-EndsIn zero elapsed_ms duration_ms b h below small enough = absurd (omega arith)
delay_loop-EndsIn (suc fuel) elapsed_ms duration_ms b h below small enough =
    let step_ms = step_of (duration_ms - elapsed_ms) in
    let short = step_of-IsShort (duration_ms - elapsed_ms) in
    if-holds (Gives (EndsIn (duration_ms - elapsed_ms) b)) (ltb elapsed_ms duration_ms) _ _
      (λ e.
        let bounds : (step_ms ≤ duration_ms - elapsed_ms) × (0 < step_ms) =
          step_of-bounds (duration_ms - elapsed_ms) (ground arith) in
        unless_stopped-EndsIn (duration_ms - elapsed_ms) step_ms b
          (λ b'. delay_loop fuel ((elapsed_ms + step_ms) % 2 ^ 32) duration_ms b')
          (is_stop_requested b) (lock-Waits b h) refl (lock_requested b) (lock-IsPrompt b)
          (delay-IsPrompt step_ms b short) short bounds.0
          (λ b' k.
            Gives-map (EndsIn (duration_ms - (elapsed_ms + step_ms) % 2 ^ 32) b')
              (EndsIn (duration_ms - elapsed_ms - step_ms) b')
              (delay_loop fuel ((elapsed_ms + step_ms) % 2 ^ 32) duration_ms b')
              (λ r q. subst (λ n. EndsIn n b' r) (omega (arith, bounds.0)) q)
              (delay_loop-EndsIn fuel ((elapsed_ms + step_ms) % 2 ^ 32) duration_ms b' k
                (omega (arith, bounds.0)) small (omega (arith, bounds.0, bounds.1)))))
      (λ e.
        subst (λ n. EndsIn n b (completed (is_stop_requested b))) (ground arith) (poll-EndsIn b h))

-- A delay ends: after its whole duration, or early on a request to stop, and then without a further
-- wait if the request was there before. It waits in steps of at most 10 ms.
pub delay_until_done_or_stopped-EndsIn :
    (duration_ms : ℕ) (b : Buzzer)
    → IsCached b
    → duration_ms < 2 ^ 32
    → Gives (EndsIn duration_ms b) (delay_until_done_or_stopped duration_ms b)
unfolding delay_until_done_or_stopped
delay_until_done_or_stopped-EndsIn duration_ms b h small =
    subst (λ n. Gives (EndsIn n b) (delay_loop (duration_ms + 1) 0 duration_ms b)) (omega arith)
      (delay_loop-EndsIn (duration_ms + 1) 0 duration_ms b h (omega arith) small (omega arith))
