-- ===== src/Buzzer/Prompt.antt =====
-- How soon a request to stop is noticed.
use tcpremote_device_control.Base.{
  ℕ, zero, suc, ◌+◌, ◌*◌, ◌≤◌, ◌≡◌, ◌⊎◌, inl, inr, refl, ◌∙◌, Bool, true, false, Bool-cases, List,
  [], ◌∷◌, ℤ, eqb_ℤ, arith,
}
use tcpremote_device_control.Buzzer.{Buzzer, lock, let_in, write_output_locked, delay}
use tcpremote_device_control.Buzzer.Cached.{request_stop_requested, lock_requested}

-- A request comes between the use number k of the lock and the next one, counted from here, and none
-- comes before.
abbrev pub ComesAfter : ℕ → List Bool → Type 0
ComesAfter k [] = ⊥
ComesAfter zero (stop ∷ stops) = stop ≡ true
ComesAfter (suc k) (stop ∷ stops) = (stop ≡ false) × ComesAfter k stops

-- A request is there, or comes then.
abbrev pub Within : ℕ → Buzzer → Type 0
Within k b = (b.stop_requested ≡ true) ⊎ ComesAfter k b.stops

-- The delays of `spent` milliseconds from `b` to `b'` are at most 10 ms for each use of the lock that is
-- used up of those before the request.
abbrev pub IsPrompt : ℕ → Buzzer → Buzzer → Type 0
IsPrompt spent b b' = (k : ℕ) → Within k b → (k' : ℕ) × Within k' b' × (spent + 10 * k' ≤ 10 * k)

pub IsPrompt-trans :
    (m n : ℕ) (a b c : Buzzer) → IsPrompt m a b → IsPrompt n b c → IsPrompt (n + m) a c
IsPrompt-trans m n a b c f g k w =
    let (k₁, w₁, l₁) = f k w in let (k₂, w₂, l₂) = g k₁ w₁ in (k₂, w₂, omega (arith, l₁, l₂))

-- Neither the requests to come nor the one that is there change.
pub same-IsPrompt :
    (b b' : Buzzer) → b'.stop_requested ≡ b.stop_requested → b'.stops ≡ b.stops → IsPrompt 0 b b'
same-IsPrompt b b' r s k (inl e) = (k, inl (r ∙ e), omega arith)
same-IsPrompt b b' r s k (inr c) = (k, inr (rw s c), omega arith)

let_in_prompt :
    (stops : List Bool) (b : Buzzer) (k : ℕ)
    → ComesAfter k stops
    → ((let_in stops b).stop_requested ≡ true)
      ⊎ ((j : ℕ) × (k ≡ suc j) × ComesAfter j (let_in stops b).stops)
let_in_prompt [] b k c = absurd c
let_in_prompt (true ∷ ss) b k c = inl (request_stop_requested (record b { stops = ss }))
let_in_prompt (false ∷ ss) b zero c = absurd cc
let_in_prompt (false ∷ ss) b (suc k) c = inr (k, refl, c.1)

-- The use of the lock is used up, or the request is there behind it.
pub lock_prompt :
    (b : Buzzer) (k : ℕ)
    → Within k b
    → ((lock b).stop_requested ≡ true) ⊎ ((j : ℕ) × (k ≡ suc j) × ComesAfter j (lock b).stops)
unfolding lock
lock_prompt b k (inl e) = inl (lock_requested b e)
lock_prompt b k (inr c) = let_in_prompt b.stops b k c

pub lock-IsPrompt : (b : Buzzer) → IsPrompt 0 b (lock b)
lock-IsPrompt b k w = elim (lock_prompt b k w) [
  | inl e ↦ (0, inl e, omega arith)
  | inr (j, e, c) ↦ (j, inr c, omega arith)
]

-- A use of the lock that finds no request, and a delay of at most 10 ms.
pub delay-IsPrompt :
    (ms : ℕ) (b : Buzzer)
    → ms ≤ 10
    → (lock b).stop_requested ≡ false
    → IsPrompt ms b (delay ms (lock b))
delay-IsPrompt ms b short quiet k w = elim (lock_prompt b k w) [
  | inl e ↦ absurd cc
  | inr (j, e, c) ↦ (j, inr c, omega arith)
]

write_output_locked_stops :
    (tone_hz : ℤ) (state : Bool) (b : Buzzer)
    → ((write_output_locked tone_hz state b).stops ≡ b.stops)
      × ((write_output_locked tone_hz state b).stop_requested ≡ b.stop_requested)
unfolding write_output_locked
write_output_locked_stops tone_hz state b = elim (Bool-cases (eqb_ℤ b.current_tone_hz tone_hz)) [
  | inl e ↦ simp e (refl, refl)
  | inr e ↦ simp e (refl, refl)
]

pub write_output_locked-IsPrompt :
    (tone_hz : ℤ) (state : Bool) (b : Buzzer) → IsPrompt 0 b (write_output_locked tone_hz state b)
write_output_locked-IsPrompt tone_hz state b =
    let (s, r) = write_output_locked_stops tone_hz state b in
    same-IsPrompt b (write_output_locked tone_hz state b) r s

-- Of a request that comes behind k uses of the lock.
pub IsPrompt-spent :
    (spent : ℕ) (b b' : Buzzer)
    → IsPrompt spent b b'
    → (k : ℕ) → ComesAfter k b.stops
    → spent ≤ 10 * k
IsPrompt-spent spent b b' p k c = let (j, w, l) = p k (inr c) in omega (arith, l)
