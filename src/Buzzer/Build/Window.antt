-- ===== src/Buzzer/Build/Window.antt =====
-- The sizes of the window, and how it is filled.
use tcpremote_device_control.Base.{
  ℕ, zero, suc, ◌+◌, ◌-◌, ◌*◌, ◌/◌, ◌%◌, ◌^◌, ◌<◌, ◌≤◌, ◌≡◌, inl, inr, ◌⊎◌, min, ◌||◌, ◌==◌, leb,
  if◌then◌else◌, length, All, arith, if-holds,
}
use native.Mathlib.Nat.{div-lt_iff_lt-mul, mul-le-mul_left}
use tcpremote_device_control.Wav.{WavInfo, wav_frame_size}
use tcpremote_device_control.Wav.Reading.{Stream}
use tcpremote_device_control.Wav.Header.{IsSupported}
use tcpremote_device_control.Wav.Samples.{Samples, no_samples, wav_read_samples}
use tcpremote_device_control.Wav.Samples.Frames.{AreBytes, IsI16, wav_read_samples-IsRead}
use tcpremote_device_control.Buzzer.Build.{
  read_window_samples, samples_for_duration, pitch_hop_ms, pitch_min_hop_samples,
  samples_to_duration_ms, at_least_1, hop_of, window_of,
}

pub hop_of_pos : (info : WavInfo) → 0 < hop_of info
hop_of_pos info = at_least_1_pos (
    let hop =
      samples_for_duration info.sample_rate pitch_hop_ms pitch_min_hop_samples (window_of info) in
    if leb (window_of info) hop then window_of info / 2 else hop)
  where
    at_least_1_pos : (n : ℕ) → 0 < at_least_1 n
    at_least_1_pos n = ground arith

frame_pos : (info : WavInfo) → IsSupported info → 0 < info.channels * (info.bits_per_sample / 8)
frame_pos info s = sized info.channels info.bits_per_sample s.one_or_two s.bits
  where
    sized : (c b : ℕ) → (c ≡ 1) ⊎ (c ≡ 2) → (b ≡ 8) ⊎ (b ≡ 16) → 0 < c * (b / 8)
    sized c b (inl p) (inl q) = rw (p, q) (omega arith)
    sized c b (inl p) (inr q) = rw (p, q) (omega arith)
    sized c b (inr p) (inl q) = rw (p, q) (omega arith)
    sized c b (inr p) (inr q) = rw (p, q) (omega arith)

-- Samples that fit the window, for bytes that were there.
pub record Fills (room remaining : ℕ) (r : Samples) : Type 0 where
  pub few : length r.samples ≤ room
  pub counted : length r.samples + r.remaining ≤ remaining
  pub in_range : All IsI16 r.samples
  pub bytes : AreBytes r.stream.rest

Fills-none :
    (room remaining : ℕ) (f : Stream)
    → AreBytes f.rest
    → Fills room remaining (no_samples remaining f)
Fills-none room remaining f h = record {
  few = omega arith;
  counted = omega arith;
  in_range = tt;
  bytes = h;
}

times_pos : (n k : ℕ) → 0 < k → n ≤ n * k
times_pos n zero h = absurd (omega arith)
times_pos n (suc k) h = let split : n * suc k ≡ n + n * k = grind arith in omega arith

pub read_window_samples-Fills :
    (info : WavInfo) (offset capacity remaining : ℕ) (f : Stream)
    → IsSupported info
    → AreBytes f.rest
    → remaining < 2 ^ 32
    → Fills (capacity - offset) remaining (read_window_samples info offset capacity remaining f)
unfolding read_window_samples
read_window_samples-Fills info offset capacity remaining f s h small =
    let wanted = min (capacity - offset) (remaining / wav_frame_size info) in
    let P = Fills (capacity - offset) remaining in
    if-holds P (leb capacity offset || wav_frame_size info == 0) _ _
      (λ e. Fills-none (capacity - offset) remaining f h)
      (λ e.
        if-holds P (wanted == 0) _ _ (λ g. Fills-none (capacity - offset) remaining f h)
          (λ g.
            let r = wav_read_samples wanted info remaining f in
            let k = wav_read_samples-IsRead wanted info remaining f s h small in
            let more =
              times_pos (length r.samples) (info.channels * (info.bits_per_sample / 8))
                (frame_pos info s) in
            record {
              few = omega (arith, k.few);
              counted = omega (arith, more, k.counted);
              in_range = k.in_range;
              bytes = k.bytes;
            }))

div_at_most : (n rate : ℕ) → 0 < n → 1000 ≤ rate → (n * 1000 + rate - 1) / rate ≤ n
div_at_most n rate h k =
    let long : n * 1000 ≤ n * rate = mul-le-mul_left n k in
    let split : (n + 1) * rate ≡ n * rate + rate = grind arith in
    let below : (n * 1000 + rate - 1) / rate < n + 1 =
      (div-lt_iff_lt-mul {k = rate} {x = n * 1000 + rate - 1} {y = n + 1} (omega arith)).1
        (omega arith) in
    omega arith

-- From 1000 Hz on, a sample lasts a millisecond at most.
pub samples_to_duration_ms-le :
    (n rate : ℕ)
    → 0 < n
    → n < 2 ^ 32
    → 1000 ≤ rate
    → rate < 2 ^ 32
    → samples_to_duration_ms n rate ≤ n
unfolding samples_to_duration_ms
samples_to_duration_ms-le n rate h small k fits =
    let whole : (n * 1000 + rate - 1) % 2 ^ 64 ≡ n * 1000 + rate - 1 = omega arith in
    rw whole (capped ((n * 1000 + rate - 1) / rate) (div_at_most n rate h k))
  where
    capped : (d : ℕ) → d ≤ n → (if d == 0 then 1 else d) % 2 ^ 32 ≤ n
    capped d e = ground arith
