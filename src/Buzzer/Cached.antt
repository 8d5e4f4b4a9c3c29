-- ===== src/Buzzer/Cached.antt =====
-- The buzzer's cached state against the pin.
use tcpremote_device_control.Base.{
  ℕ, ◌+◌, ◌≤◌, ◌≡◌, refl, sym, inl, inr, Bool, true, false, Bool-cases, List, [], ◌∷◌, ℤ, pos,
  negsuc, eqb_ℤ, ltb_ℤ, eqb_ℤ_iff, arith,
}
use tcpremote_device_control.Buzzer.{
  Buzzer, BuzzerCall, tone, wait, write_output_locked, request_stop, let_in, lock, stop_output,
  start_output, clear_stop_request,
}

-- What the pin was last told, -1 before.
abbrev pub last_tone : List BuzzerCall → ℤ
last_tone [] = negsuc 0
last_tone (tone t ∷ cs) = t
last_tone (wait n ∷ cs) = last_tone cs

-- The milliseconds of all delays.
abbrev pub waited : List BuzzerCall → ℕ
waited [] = 0
waited (tone t ∷ cs) = waited cs
waited (wait n ∷ cs) = n + waited cs

abbrev pub IsShort : BuzzerCall → Type 0
IsShort (tone t) = Unit {0}
IsShort (wait n) = n ≤ 10

abbrev pub AllShort : List BuzzerCall → Type 0
AllShort [] = Unit {0}
AllShort (c ∷ cs) = IsShort c × AllShort cs

-- The cache holds what the pin was last told, and no delay is longer than 10 ms.
pub record IsCached (b : Buzzer) : Type 0 where
  pub cached : last_tone b.calls ≡ b.current_tone_hz
  pub sounding : b.buzzer_state ≡ ltb_ℤ (pos 0) b.current_tone_hz
  pub steps : AllShort b.calls

-- From `b` to `b'` the delays are `ms` longer.
pub record Waits (ms : ℕ) (b b' : Buzzer) : Type 0 where
  pub is_cached : IsCached b'
  pub total : waited b'.calls ≡ ms + waited b.calls

pub write_output_locked-Waits :
    (tone_hz : ℤ) (b : Buzzer)
    → IsCached b
    → Waits 0 b (write_output_locked tone_hz (ltb_ℤ (pos 0) tone_hz) b)
unfolding write_output_locked
write_output_locked-Waits tone_hz b h = elim (Bool-cases (eqb_ℤ b.current_tone_hz tone_hz)) [
  | inl e ↦
      let same = (eqb_ℤ_iff b.current_tone_hz tone_hz).0 e in
      simp e (record {
        is_cached = record { cached = h.cached; sounding = rw (sym same) refl; steps = h.steps };
        total = omega arith;
      })
  | inr e ↦ simp e (record {
    is_cached = record { cached = refl; sounding = refl; steps = (tt, h.steps) };
    total = omega arith;
  })
]

pub Waits-trans : (m n : ℕ) (a b c : Buzzer) → Waits m a b → Waits n b c → Waits (n + m) a c
Waits-trans m n a b c h k = record {
  is_cached = k.is_cached;
  total = omega (arith, h.total, k.total);
}

pub request_stop-Waits : (b : Buzzer) → IsCached b → Waits 0 b (request_stop b)
unfolding request_stop
request_stop-Waits b h =
    let asked = record b { stop_requested = true } in
    let k =
      write_output_locked-Waits (pos 0) asked
        (record { cached = h.cached; sounding = h.sounding; steps = h.steps }) in
    record { is_cached = k.is_cached; total = k.total }

pub request_stop_requested : (b : Buzzer) → (request_stop b).stop_requested ≡ true
unfolding request_stop write_output_locked
request_stop_requested b = elim (Bool-cases (eqb_ℤ b.current_tone_hz (pos 0))) [
  | inl e ↦ simp e refl
  | inr e ↦ simp e refl
]

let_in-Waits : (ss : List Bool) (b : Buzzer) → IsCached b → Waits 0 b (let_in ss b)
let_in-Waits [] b h = record { is_cached = h; total = omega arith }
let_in-Waits (true ∷ ss) b h =
    let later = record b { stops = ss } in
    let k =
      request_stop-Waits later
        (record { cached = h.cached; sounding = h.sounding; steps = h.steps }) in
    record { is_cached = k.is_cached; total = k.total }
let_in-Waits (false ∷ ss) b h = record {
  is_cached = record { cached = h.cached; sounding = h.sounding; steps = h.steps };
  total = omega arith;
}

pub lock-Waits : (b : Buzzer) → IsCached b → Waits 0 b (lock b)
unfolding lock
lock-Waits b h = let_in-Waits b.stops b h

let_in_requested :
    (ss : List Bool) (b : Buzzer) → b.stop_requested ≡ true → (let_in ss b).stop_requested ≡ true
let_in_requested [] b h = h
let_in_requested (true ∷ ss) b h = request_stop_requested (record b { stops = ss })
let_in_requested (false ∷ ss) b h = h

-- A request stays until this thread itself clears it.
pub lock_requested : (b : Buzzer) → b.stop_requested ≡ true → (lock b).stop_requested ≡ true
unfolding lock
lock_requested b h = let_in_requested b.stops b h

pub stop_output-Waits :
    (request : Bool) (b : Buzzer) → IsCached b → Waits 0 b (stop_output request b)
unfolding stop_output
stop_output-Waits true b h =
    let l = lock-Waits b h in
    Waits-trans 0 0 b (lock b) (request_stop (lock b)) l (request_stop-Waits (lock b) l.is_cached)
stop_output-Waits false b h =
    let l = lock-Waits b h in
    Waits-trans 0 0 b (lock b) (write_output_locked (pos 0) false (lock b)) l
      (write_output_locked-Waits (pos 0) (lock b) l.is_cached)

write_output_locked_tone :
    (tone_hz : ℤ) (state : Bool) (b : Buzzer)
    → (write_output_locked tone_hz state b).current_tone_hz ≡ tone_hz
unfolding write_output_locked
write_output_locked_tone tone_hz state b = elim (Bool-cases (eqb_ℤ b.current_tone_hz tone_hz)) [
  | inl e ↦ simp e ((eqb_ℤ_iff b.current_tone_hz tone_hz).0 e)
  | inr e ↦ simp e refl
]

pub stop_output_silent :
    (request : Bool) (b : Buzzer) → (stop_output request b).current_tone_hz ≡ pos 0
unfolding stop_output request_stop
stop_output_silent true b =
    write_output_locked_tone (pos 0) false (record (lock b) { stop_requested = true })
stop_output_silent false b = write_output_locked_tone (pos 0) false (lock b)

-- The tone is set although other commands have asked to stop: their requests are forgotten.
pub start_output-Waits :
    (tone_hz : ℤ) (b : Buzzer)
    → IsCached b
    → Waits 0 b (start_output tone_hz b) × ((start_output tone_hz b).current_tone_hz ≡ tone_hz)
unfolding start_output
start_output-Waits tone_hz b h =
    let l = lock-Waits b h in
    let k = l.is_cached in
    let cleared = record (lock b) { stop_requested = false } in
    let w =
      write_output_locked-Waits tone_hz cleared
        (record { cached = k.cached; sounding = k.sounding; steps = k.steps }) in
    (
      Waits-trans 0 0 b (lock b) (start_output tone_hz b) l
          (record { is_cached = w.is_cached; total = w.total }),
      write_output_locked_tone tone_hz (ltb_ℤ (pos 0) tone_hz) cleared,
    )

pub clear_stop_request-Waits : (b : Buzzer) → IsCached b → Waits 0 b (clear_stop_request b)
unfolding clear_stop_request
clear_stop_request-Waits b h =
    let l = lock-Waits b h in
    let k = l.is_cached in
    record {
      is_cached = record { cached = k.cached; sounding = k.sounding; steps = k.steps };
      total = l.total;
    }
