-- ===== src/Pitch.antt =====
-- server/device/buzzer/pitch_detector.h and pitch_detector.c: the strongest note of a window of samples.
-- The arithmetic of float and double, and the functions of <math.h>, are a parameter.
pub mod Arithmetic
pub mod Search
pub mod Notes
use tcpremote_device_control.Base.{
  ℕ, zero, suc, ◌+◌, ◌-◌, ◌==◌, Bool, true, false, not, ◌||◌, ltb, if◌then◌else◌, List, [], ◌∷◌,
  Option, none, some, length, take, ℤ, pos, negsuc, ltb_ℤ,
}
use tcpremote_device_control.Buzzer.Tracker.{PitchDetectionResult}
use Arithmetic.{Floats}

abbrev pub detector_min_midi_note : ℕ
detector_min_midi_note = 33

abbrev pub detector_max_midi_note : ℕ
detector_max_midi_note = 96

abbrev pub detector_max_samples : ℕ
detector_max_samples = 4096

abbrev pub a4_midi_note : ℕ
a4_midi_note = 69

-- A whole PitchDetectionResult: `note` are the fields that the buzzer reads.
pub record PitchResult (F : Type 0) : Type 0 where
  pub note : PitchDetectionResult
  pub raw_frequency_hz : ℤ
  pub confidence : F
  pub rms : F

abbrev pub clamp_sample_count : ℕ → ℕ
clamp_sample_count sample_count =
    if ltb detector_max_samples sample_count then detector_max_samples else sample_count

module _ {F D : Type 0} (fl : Floats F D) where
  -- memset to 0, and -1 for the note.
  abbrev pub reset_result : PitchResult F
  reset_result = record {
    note = record { frequency_hz = pos 0; midi_note = negsuc 0; voiced = false; fallback = false };
    raw_frequency_hz = pos 0;
    confidence = fl.literal 0 0;
    rms = fl.literal 0 0;
  }

  abbrev pub detector_min_rms : F
  detector_min_rms = fl.literal 180 0

  abbrev pub detector_min_score : F
  detector_min_score = fl.literal 35 3

  abbrev pub a4_frequency_hz : F
  a4_frequency_hz = fl.literal 440 0

  unfoldable pub midi_note_to_frequency : ℕ → F
  midi_note_to_frequency midi_note = fl.mul a4_frequency_hz (
      fl.powf (fl.literal 2 0) (
        fl.div (fl.sub (fl.of_int (pos midi_note)) (fl.of_int (pos a4_midi_note)))
          (fl.literal 12 0)))

  unfoldable pub midi_note_to_frequency_hz : ℕ → ℤ
  unfolding midi_note_to_frequency
  midi_note_to_frequency_hz midi_note = fl.lroundf (midi_note_to_frequency midi_note)

  -- mean += samples[i]
  abbrev pub sum_from : D → List ℤ → D
  sum_from mean [] = mean
  sum_from mean (s ∷ samples) = sum_from (fl.add_double mean (fl.double_of_int s)) samples

  -- 2.0f * (float)M_PI
  abbrev pub two_pi : F
  two_pi = fl.mul (fl.literal 2 0) (fl.narrow fl.m_pi)

  abbrev pub hann : ℕ → ℕ → F
  hann i sample_count =
      let phase = fl.div (fl.of_int (pos i)) (fl.of_int (pos (sample_count - 1))) in
      fl.sub (fl.literal 5 1) (fl.mul (fl.literal 5 1) (fl.cosf (fl.mul two_pi phase)))

  abbrev pub centered : D → ℤ → F
  centered mean s = fl.narrow (fl.sub_double (fl.double_of_int s) mean)

  abbrev pub windowed : ℕ → ℕ → D → ℤ → F
  windowed i sample_count mean s =
      if ltb 1 sample_count then fl.mul (centered mean s) (hann i sample_count) else centered mean s

  abbrev pub add_square : D → F → D
  add_square sum x = fl.add_double sum (fl.mul_double (fl.widen x) (fl.widen x))

  pub record Processed : Type 0 where
    pub processed : List F
    pub square_sum : D
    pub windowed_energy : D

  -- The second loop, from the index i on.
  unfoldable pub process_from : ℕ → ℕ → D → D → D → List ℤ → Processed
  process_from i sample_count mean square_sum windowed_energy [] = record {
    processed = [];
    square_sum = square_sum;
    windowed_energy = windowed_energy;
  }
  process_from i sample_count mean square_sum windowed_energy (s ∷ samples) =
      let w = windowed i sample_count mean s in
      let rest =
        process_from (i + 1) sample_count mean (add_square square_sum (centered mean s))
          (add_square windowed_energy w) samples in
      record rest { processed = w ∷ rest.processed }

  -- The processed samples, the energy and the RMS.
  unfoldable pub preprocess_samples : List ℤ → List F × D × F
  unfolding process_from
  preprocess_samples samples =
      let count = fl.double_of_int (pos (length samples)) in
      let mean = fl.div_double (sum_from (fl.double_of_int (pos 0)) samples) count in
      let p =
        process_from 0 (length samples) mean (fl.double_of_int (pos 0)) (fl.double_of_int (pos 0))
          samples in
      (p.processed, p.windowed_energy, fl.narrow (fl.sqrt (fl.div_double p.square_sum count)))

  -- `previous` and `previous2` behind the loop.
  abbrev pub goertzel : F → F → F → List F → F × F
  goertzel coefficient previous previous2 [] = (previous, previous2)
  goertzel coefficient previous previous2 (x ∷ samples) =
      goertzel coefficient (fl.sub (fl.add x (fl.mul coefficient previous)) previous2) previous
        samples

  abbrev pub power_of : F → F × F → F
  power_of coefficient (previous, previous2) =
      fl.sub (fl.add (fl.mul previous2 previous2) (fl.mul previous previous))
        (fl.mul (fl.mul coefficient previous) previous2)

  abbrev pub coefficient_of : ℕ → F → F
  coefficient_of sample_rate frequency_hz =
      let angle = fl.div (fl.mul two_pi frequency_hz) (fl.of_int (pos sample_rate)) in
      fl.mul (fl.literal 2 0) (fl.cosf angle)

  unfoldable pub goertzel_score : List F → ℕ → F → D → F
  goertzel_score samples sample_rate frequency_hz energy =
      let coefficient = coefficient_of sample_rate frequency_hz in
      let power =
        power_of coefficient (goertzel coefficient (fl.literal 0 0) (fl.literal 0 0) samples) in
      if fl.le_double energy (fl.double_of_int (pos 0))
      then fl.literal 0 0
      else if fl.le power (fl.literal 0 0)
      then fl.literal 0 0
      else fl.div power (fl.mul (fl.narrow energy) (fl.of_int (pos (length samples))))

  -- Whether the loop over the notes breaks at this one.
  unfoldable pub above_nyquist : ℕ → ℕ → Bool
  unfolding midi_note_to_frequency
  above_nyquist sample_rate midi_note =
      fl.le (fl.mul (fl.of_int (pos sample_rate)) (fl.literal 5 1))
        (midi_note_to_frequency midi_note)

  unfoldable pub score_of : List F → ℕ → D → ℕ → F
  unfolding goertzel_score midi_note_to_frequency
  score_of processed sample_rate energy midi_note =
      goertzel_score processed sample_rate (midi_note_to_frequency midi_note) energy

  -- best_midi_note, -1 at first, and best_score.
  pub record Best : Type 0 where
    pub midi_note : Option ℕ
    pub score : F

  abbrev pub better : Best → ℕ → F → Best
  better best midi_note score =
      if fl.lt best.score score then record { midi_note = some midi_note; score = score } else best

  -- The loop over the notes that are left.
  unfoldable pub search_notes : (ℕ → Bool) → (ℕ → F) → ℕ → ℕ → Best → Best
  search_notes breaks score zero midi_note best = best
  search_notes breaks score (suc n) midi_note best =
      let rest =
        search_notes breaks score n (suc midi_note) (better best midi_note (score midi_note)) in
      if breaks midi_note then best else rest

  unfoldable pub best_note : List F → ℕ → D → Best
  unfolding search_notes score_of above_nyquist
  best_note processed sample_rate energy =
      search_notes (above_nyquist sample_rate) (score_of processed sample_rate energy)
        (detector_max_midi_note + 1 - detector_min_midi_note) detector_min_midi_note
        (record { midi_note = none; score = fl.literal 0 0 })

  abbrev pub found : ℕ → F → PitchResult F → PitchResult F
  found midi_note score result = record result {
    note = record {
      frequency_hz = midi_note_to_frequency_hz midi_note;
      midi_note = pos midi_note;
      voiced = true;
      fallback = false;
    };
    raw_frequency_hz = midi_note_to_frequency_hz midi_note;
    confidence = if fl.lt (fl.literal 1 0) score then fl.literal 1 0 else score;
  }

  -- Behind the loop.
  unfoldable pub decide : Option ℕ → F → PitchResult F → ℕ × PitchResult F
  unfolding midi_note_to_frequency_hz
  decide none score result = (0, record result { confidence = score })
  decide (some midi_note) score result =
      if fl.lt score detector_min_score
      then (0, record result { confidence = score })
      else (1, found midi_note score result)

  abbrev pub detect_in : ℕ → List F × D × F → ℕ × PitchResult F
  detect_in sample_rate (processed, energy, rms) =
      let result = record reset_result { rms = rms } in
      let best = best_note processed sample_rate energy in
      if fl.lt rms detector_min_rms || fl.le_double energy (fl.double_of_int (pos 0))
      then (0, result)
      else decide best.midi_note best.score result

  -- The returned number and *result. `none` for the samples is NULL; the result is not NULL, and the list
  -- has as many samples as the count says.
  unfoldable pub pitch_detect_note : Option (List ℤ) → ℕ → ℕ × PitchResult F
  unfolding preprocess_samples best_note decide
  pitch_detect_note none sample_rate = (0, reset_result)
  pitch_detect_note (some samples) sample_rate =
      if length samples == 0 || sample_rate == 0
      then (0, reset_result)
      else detect_in sample_rate
          (preprocess_samples (take (clamp_sample_count (length samples)) samples))

  unfoldable pub pitch_detect_note_hz : Option (List ℤ) → ℕ → ℤ
  unfolding pitch_detect_note
  pitch_detect_note_hz samples sample_rate =
      (pitch_detect_note samples sample_rate).1.note.frequency_hz
