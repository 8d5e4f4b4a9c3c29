-- ===== src/Buzzer/Build/Melody.antt =====
-- Building a melody ends, and the melody is well formed and no longer than the file.
use tcpremote_device_control.Base.{
  ℕ, zero, suc, ◌+◌, ◌^◌, ◌<◌, ◌≤◌, ◌≡◌, ◌⊎◌, refl, sym, subst, inl, inr, min, Bool, true, ◌&&◌,
  ◌==◌, leb, List, [], ◌∷◌, ◌++◌, Option, length, drop, length-drop, ℤ, arith, Gives, if-holds,
}
use tcpremote_device_control.DeviceResult.{DeviceResult, ok, device_failed}
use tcpremote_device_control.Wav.{WavInfo}
use tcpremote_device_control.Wav.Reading.{Stream}
use tcpremote_device_control.Wav.Header.{IsSupported}
use tcpremote_device_control.Wav.Samples.{Samples}
use tcpremote_device_control.Wav.Samples.Frames.{AreBytes}
use tcpremote_device_control.Buzzer.{Buzzer, is_stop_requested, lock}
use tcpremote_device_control.Buzzer.Cached.{IsCached, Waits, lock-Waits}
use tcpremote_device_control.Buzzer.Tracker.{
  PitchDetectionResult, PitchTracker, pitch_tracker_init, pitch_tracker_update,
}
use tcpremote_device_control.Buzzer.Melody.{MelodyBuffer, no_melody, melody_buffer_append}
use tcpremote_device_control.Buzzer.Melody.Notes.{
  IsMelody, IsAppended, playing_time, melody_buffer_append-IsAppended,
}
use tcpremote_device_control.Buzzer.Build.{
  Analysis, slide, analyse, filled, build_melody_from_wav, read_window_samples,
  samples_to_duration_ms, hop_of, window_of,
}
use tcpremote_device_control.Buzzer.Build.Window.{
  Fills, read_window_samples-Fills, hop_of_pos, samples_to_duration_ms-le,
}

-- What building ends with.
pub record IsBuilt (total : ℕ) (b : Buzzer) (r : DeviceResult × MelodyBuffer × Buzzer)
    : Type 0 where
  pub result : (r.0 ≡ ok) ⊎ (r.0 ≡ device_failed)
  pub is_melody : IsMelody r.1
  pub short : playing_time r.1.notes ≤ total
  pub waits : Waits 0 b r.2

appended-cases :
    (d : ℕ) (melody : MelodyBuffer) (r : DeviceResult × MelodyBuffer)
    → IsAppended d melody r
    → (r.0 ≡ ok) ⊎ ((r.0 ≡ device_failed) × (r.1 ≡ melody))
appended-cases d melody (ok, m) h = inl refl
appended-cases d melody (result, m) h = inr (h.unchanged (λ e. cc))

-- Sizes of a WAV file whose notes can be timed in 32 bits.
pub record IsPlayable (info : WavInfo) : Type 0 where
  pub supported : IsSupported info
  pub rate : 1000 ≤ info.sample_rate
  pub rate_fits : info.sample_rate < 2 ^ 32

length-append : (s t : List ℤ) → length (s ++ t) ≡ length s + length t
length-append [] t = omega arith
length-append (x ∷ s) t = omega (arith, length-append s t)

-- What is still to analyse: the samples in the window, and at most one for each byte that remains.
abbrev left : Analysis → ℕ
left a = length a.samples + a.remaining

left-filled :
    (kept : List ℤ) (tracker : PitchTracker) (room remaining : ℕ) (r : Samples)
    → Fills room remaining r
    → left (filled kept tracker r) ≤ length kept + remaining
left-filled kept tracker room remaining r h = omega (arith, length-append kept r.samples, h.counted)

module _ (detect : List ℤ → ℕ → PitchDetectionResult) (realloc : ℕ → Bool)
    (sized : (n : ℕ) → realloc n ≡ true → n < 2 ^ 63) (info : WavInfo) (p : IsPlayable info) where
  slide-IsBuilt :
      (total play_samples d : ℕ) (a : Analysis) (tracker : PitchTracker) (melody : MelodyBuffer)
      (r : DeviceResult × MelodyBuffer)
      (next : Analysis → MelodyBuffer → Option (DeviceResult × MelodyBuffer × Buzzer))
      (b b' : Buzzer)
      → IsAppended d melody r
      → d ≤ play_samples
      → 0 < play_samples
      → play_samples ≤ length a.samples
      → playing_time melody.notes + left a ≤ total
      → a.remaining < 2 ^ 32
      → AreBytes a.stream.rest
      → Waits 0 b b'
      → ((a' : Analysis) (melody' : MelodyBuffer)
          → IsMelody melody'
          → left a' < left a
          → playing_time melody'.notes + left a' ≤ total
          → a'.remaining < 2 ^ 32
          → AreBytes a'.stream.rest
          → Gives (IsBuilt total b) (next a' melody'))
      → Gives (IsBuilt total b) (slide detect realloc info play_samples a tracker r next b')
  slide-IsBuilt total play_samples d a tracker melody r next b b' h brief positive fits bound small
        bytes w go =
      elim (appended-cases d melody r h) [
        | inl e ↦
            subst
              (λ x.
                Gives (IsBuilt total b)
                  (slide detect realloc info play_samples a tracker (x, r.1) next b'))
              (sym e)
              (if-holds (Gives (IsBuilt total b))
                (a.remaining == 0 && leb (length a.samples) play_samples) _ _
                (λ g. record {
                  result = inl refl;
                  is_melody = h.is_melody;
                  short = omega (arith, h.longer e);
                  waits = w;
                })
                (λ g.
                  let kept = drop play_samples a.samples in
                  let read =
                    read_window_samples info (length kept) (window_of info) a.remaining a.stream in
                  let f =
                    read_window_samples-Fills info (length kept) (window_of info) a.remaining
                      a.stream p.supported bytes small in
                  let l = left-filled kept tracker _ a.remaining read f in
                  let k = length-drop play_samples a.samples in
                  go (filled kept tracker read) r.1 h.is_melody (omega (arith, l, k))
                    (omega (arith, l, k, h.longer e)) (omega (arith, f.counted)) f.bytes))
        | inr (e, same) ↦
            subst
              (λ x.
                Gives (IsBuilt total b)
                  (slide detect realloc info play_samples a tracker (x, r.1) next b'))
              (sym e)
              (record {
                result = inr refl;
                is_melody = h.is_melody;
                short = subst (λ m. playing_time m.notes ≤ total) (sym same) (omega arith);
                waits = w;
              })
      ]

  analyse-IsBuilt :
      (fuel total : ℕ) (a : Analysis) (melody : MelodyBuffer) (b b' : Buzzer)
      → IsMelody melody
      → left a < fuel
      → playing_time melody.notes + left a ≤ total
      → total < 2 ^ 32
      → a.remaining < 2 ^ 32
      → AreBytes a.stream.rest
      → Waits 0 b b'
      → Gives (IsBuilt total b) (analyse detect realloc fuel info a melody b')
  unfolding analyse is_stop_requested
  analyse-IsBuilt zero total a melody b b' h enough bound small remaining bytes w =
      absurd (omega arith)
  analyse-IsBuilt (suc fuel) total a melody b b' h enough bound small remaining bytes w =
      let P = Gives (IsBuilt total b) in
      let l = lock-Waits b' w.is_cached in
      let polled : Waits 0 b (lock b') = record {
        is_cached = l.is_cached;
        total = omega (arith, l.total, w.total);
      } in
      if-holds P (length a.samples == 0) _ _
        (λ e. record { result = inl refl; is_melody = h; short = omega arith; waits = w })
        (λ e.
          if-holds P (lock b').stop_requested _ _
            (λ f. record { result = inl refl; is_melody = h; short = omega arith; waits = polled })
            (λ f.
              let play_samples = min (hop_of info) (length a.samples) in
              let d = samples_to_duration_ms play_samples info.sample_rate in
              let hop = hop_of_pos info in
              let some_samples : 0 < length a.samples = ground arith in
              let positive : 0 < play_samples = omega arith in
              let brief : d ≤ play_samples =
                samples_to_duration_ms-le play_samples info.sample_rate positive (omega arith)
                  p.rate p.rate_fits in
              let update = pitch_tracker_update a.tracker (detect a.samples info.sample_rate) in
              slide-IsBuilt total play_samples d a update.1 melody
                (melody_buffer_append realloc update.0 d melody)
                (λ a' melody'. analyse detect realloc fuel info a' melody' (lock b')) b (lock b')
                (melody_buffer_append-IsAppended realloc sized update.0 d melody h (omega arith))
                brief positive (omega arith) bound remaining bytes polled
                (λ a' melody' h' less bound' remaining' bytes'.
                  analyse-IsBuilt fuel total a' melody' b (lock b') h' (omega arith) bound' small
                    remaining' bytes' polled)))

  -- For a supported format of 1000 Hz or more, a file of bytes and a realloc that gives no 2 ^ 63 bytes:
  -- building a melody ends, with OK or with DEVICE_FAILED, whatever pitches are detected and whenever a
  -- stop is requested. The melody is well formed, it lasts at most a millisecond for each byte of the data
  -- chunk, and no time passes in delays.
  pub build_melody_from_wav-IsBuilt :
      (f : Stream) (b : Buzzer)
      → info.data_size < 2 ^ 32
      → AreBytes f.rest
      → IsCached b
      → Gives (IsBuilt info.data_size b) (build_melody_from_wav detect realloc info f b)
  unfolding build_melody_from_wav
  build_melody_from_wav-IsBuilt f b small bytes h =
      let read = read_window_samples info 0 (window_of info) info.data_size f in
      let fills =
        read_window_samples-Fills info 0 (window_of info) info.data_size f p.supported bytes
          small in
      let l = left-filled [] pitch_tracker_init _ info.data_size read fills in
      analyse-IsBuilt (info.data_size + 1) info.data_size (filled [] pitch_tracker_init read)
        no_melody b b (record { are_notes = tt; fits = omega arith; allocated = omega arith })
        (omega (arith, l)) (omega (arith, l)) small (omega (arith, fills.counted)) fills.bytes
        (record { is_cached = h; total = omega arith })
