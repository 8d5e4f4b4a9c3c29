-- ===== src/Manager/Refresh/Run.antt =====
-- What the countdown thread shows, alone and between the calls of clients.
use tcpremote_device_control.Base.{
  ℕ, zero, suc, ◌+◌, ◌≡◌, refl, ap, subst, Bool-cases, inl, inr, ◌&&◌, ◌∙◌, Bool, true, false, List,
  [], ◌∷◌, ℤ, pos, negsuc, arith, All, eqb_ℤ, ◌≤ℤ◌,
}
use tcpremote_device_control.Manager.Refresh.{
  Call, clear, display, beep, Countdown, Phase, at_top, asleep, ended, show, count,
  segment_refresh_loop, prepare_thread, end_thread, set_countdown, clear_countdown, less_one,
  is_digit_value,
}

abbrev pub turns : ℕ → Phase × Countdown → Phase × Countdown
turns zero s = s
turns (suc n) s = turns n (segment_refresh_loop s.0 s.1)

-- The calls that show the digits from `n` down to 0, newest first, in front of earlier calls.
abbrev pub shown : ℕ → List Call → List Call
shown zero calls = display (pos 0) ∷ calls
shown (suc n) calls = shown n (display (pos (suc n)) ∷ calls)

-- A countdown from `v` that nobody disturbs shows v, v - 1, ... and 0, clears the display, asks for
-- one beep of 200 ms, and is then off; it takes 2 v + 2 turns of the loop.
pub segment_refresh_loop-turns :
    (v : ℕ) (c : Countdown)
    → c.running ≡ true
    → c.enabled ≡ true
    → c.value ≡ pos v
    → turns (suc (suc (v + v))) (at_top, c) ≡ (
      at_top,
      record c { enabled = false; value = pos 0; calls = beep (pos 200) ∷ clear ∷ shown v c.calls },
    )
unfolding segment_refresh_loop show count
segment_refresh_loop-turns zero c run on at = simp (run, on, at)
segment_refresh_loop-turns (suc v) c run on at =
    let even : suc v + suc v ≡ suc (suc (v + v)) = omega arith in
    let d = record c { value = pos v; calls = display (pos (suc v)) ∷ c.calls } in
    let two : segment_refresh_loop (show c).0 (show c).1 ≡ (at_top, d) = ground arith in
    ap (turns (suc v + suc v)) two
    ∙ ap (λ n. turns n (at_top, d)) even
    ∙ segment_refresh_loop-turns v d run on refl

-- What may happen to the thread and its variables: a turn of its loop, a client that displays a
-- number that device_segment_display lets through or that clears the display, and the end.
pub data Reachable : Phase → Countdown → Type 0 where
  starts :
      {p : Phase} {c : Countdown} (enabled running : Bool) (value : ℤ)
      → p ≡ at_top
      → c
        ≡ prepare_thread
            (record { running = running; enabled = enabled; value = value; calls = [] })
      → Reachable p c
  turn :
      {p q : Phase} {c d : Countdown}
      → Reachable p c
      → segment_refresh_loop p c ≡ (q, d)
      → Reachable q d
  displays :
      {p : Phase} {c d : Countdown} (v : ℤ)
      → Reachable p c
      → is_digit_value v ≡ true
      → d ≡ set_countdown v c
      → Reachable p d
  clears : {p : Phase} {c d : Countdown} → Reachable p c → d ≡ clear_countdown c → Reachable p d
  stops : {p : Phase} {c d : Countdown} → Reachable p c → d ≡ end_thread c → Reachable p d

-- A number that one digit can show.
abbrev pub IsDigit : ℤ → Type 0
IsDigit v = (pos 0 ≤ℤ v) × (v ≤ℤ pos 9)

abbrev pub DigitCall : Call → Type 0
DigitCall clear = Unit
DigitCall (display v) = IsDigit v
DigitCall (beep ms) = ms ≡ pos 200

-- What device_segment_display lets through.
is_digit_value-IsDigit : (v : ℤ) → is_digit_value v ≡ true → IsDigit v
is_digit_value-IsDigit v h = (ground arith, ground arith)

less_one-IsDigit : (v : ℤ) → IsDigit v → eqb_ℤ v (pos 0) ≡ false → IsDigit (less_one v)
less_one-IsDigit (pos zero) h ne = absurd cc
less_one-IsDigit (pos (suc n)) (l, u) ne = (omega arith, omega arith)
less_one-IsDigit (negsuc n) (l, u) ne = absurd (omega arith)

abbrev Digits : Countdown → Type 0
Digits c = IsDigit c.value × All DigitCall c.calls

show-Digits : (c : Countdown) → Digits c → Digits (show c).1
unfolding show
show-Digits c h = elim (Bool-cases c.running) [
  | inr e ↦ simp e (h.0, (tt, h.1))
  | inl e ↦ elim (Bool-cases c.enabled) [
    | inr f ↦ simp (e, f) (h.0, (tt, h.1))
    | inl f ↦ simp (e, f) (h.0, (h.0, h.1))
  ]
]

count-Digits : (c : Countdown) → Digits c → Digits (count c).1
unfolding count
count-Digits c h = elim (Bool-cases (c.running && c.enabled)) [
  | inr e ↦ simp e h
  | inl e ↦ elim (Bool-cases (eqb_ℤ c.value (pos 0))) [
    | inl f ↦ simp (e, f) (h.0, (refl, (tt, h.1)))
    | inr f ↦ simp (e, f) (less_one-IsDigit c.value h.0 f, h.1)
  ]
]

turn-Digits : (p : Phase) (c : Countdown) → Digits c → Digits (segment_refresh_loop p c).1
unfolding segment_refresh_loop
turn-Digits at_top c h = show-Digits c h
turn-Digits asleep c h = count-Digits c h
turn-Digits ended c h = h

-- Whatever clients do and when, the value counted is a number from 0 to 9, and so is every number shown.
pub Reachable-digits :
    (p : Phase) (c : Countdown) → Reachable p c → IsDigit c.value × All DigitCall c.calls
unfolding segment_refresh_loop show count
Reachable-digits p c (starts enabled running value _ e) = rw e ((omega arith, omega arith), tt)
Reachable-digits q d (turn {p = p} {c = c} r e) =
    subst (λ s. Digits s.1) e (turn-Digits p c (Reachable-digits p c r))
Reachable-digits p d (displays v r ok e) =
    rw e (is_digit_value-IsDigit v ok, (Reachable-digits p _ r).1)
Reachable-digits p d (clears r e) =
    rw e ((omega arith, omega arith), (tt, (Reachable-digits p _ r).1))
Reachable-digits p d (stops r e) = rw e (Reachable-digits p _ r)
