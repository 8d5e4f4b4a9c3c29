-- ===== src/Buzzer/Build.antt =====
-- server/device/buzzer/buzzer.c: a WAV file into notes, and buzzer_music.
pub mod Window
pub mod Melody
pub mod Music
use tcpremote_device_control.Base.{
  ℕ, zero, suc, ◌+◌, ◌-◌, ◌*◌, ◌/◌, ◌%◌, ◌^◌, min, Bool, true, false, not, ◌&&◌, ◌||◌, ◌==◌, ltb,
  leb, if◌then◌else◌, List, [], ◌∷◌, ◌++◌, Option, none, some, length, take, drop, Bytes, ℤ, pos,
}
use tcpremote_device_control.DeviceResult.{DeviceResult, ok, invalid_value, device_failed}
use tcpremote_device_control.Wav.{WavInfo, wav_frame_size, wav_read_header}
use tcpremote_device_control.Wav.Reading.{Stream, seek}
use tcpremote_device_control.Wav.Samples.{Samples, no_samples, wav_read_samples}
use tcpremote_device_control.Buzzer.{Buzzer, clear_stop_request, stop_output, is_stop_requested}
use tcpremote_device_control.Buzzer.Tracker.{
  PitchDetectionResult, PitchTracker, pitch_tracker_init, pitch_tracker_update,
}
use tcpremote_device_control.Buzzer.Melody.{MelodyBuffer, no_melody, melody_buffer_append}
use tcpremote_device_control.Buzzer.Playback.{play_melody}

abbrev pub pitch_window_ms : ℕ
pitch_window_ms = 96

abbrev pub pitch_hop_ms : ℕ
pitch_hop_ms = 20

abbrev pub pitch_min_window_samples : ℕ
pitch_min_window_samples = 768

abbrev pub pitch_min_hop_samples : ℕ
pitch_min_hop_samples = 128

abbrev pub pitch_max_window_samples : ℕ
pitch_max_window_samples = 4096

-- A uint64_t, from a rate of 32 bits.
unfoldable pub samples_for_duration : ℕ → ℕ → ℕ → ℕ → ℕ
samples_for_duration sample_rate duration_ms min_samples max_samples =
    let samples = (sample_rate * duration_ms + 999) % 2 ^ 64 / 1000 in
    let at_least = if ltb samples min_samples then min_samples else samples in
    if ltb max_samples at_least then max_samples else at_least

-- `sample_rate - 1U` is added in 64 bits, and the result cut to 32.
unfoldable pub samples_to_duration_ms : ℕ → ℕ → ℕ
samples_to_duration_ms sample_count sample_rate =
    let duration_ms = (sample_count * 1000 + sample_rate - 1) % 2 ^ 64 / sample_rate in
    (if duration_ms == 0 then 1 else duration_ms) % 2 ^ 32

-- The samples that are read into the window behind its first `offset`, *remaining_data_size, and the
-- stream.
unfoldable pub read_window_samples : WavInfo → ℕ → ℕ → ℕ → Stream → Samples
unfolding wav_read_samples wav_frame_size
read_window_samples info offset capacity remaining f =
    if leb capacity offset || wav_frame_size info == 0
    then no_samples remaining f
    else if min (capacity - offset) (remaining / wav_frame_size info) == 0
    then no_samples remaining f
    else wav_read_samples (min (capacity - offset) (remaining / wav_frame_size info)) info remaining
        f

abbrev pub window_of : WavInfo → ℕ
window_of info =
    samples_for_duration info.sample_rate pitch_window_ms pitch_min_window_samples
      pitch_max_window_samples

abbrev pub at_least_1 : ℕ → ℕ
at_least_1 hop = if hop == 0 then 1 else hop

abbrev pub hop_of : WavInfo → ℕ
hop_of info =
    let window = window_of info in
    let hop = samples_for_duration info.sample_rate pitch_hop_ms pitch_min_hop_samples window in
    at_least_1 (if leb window hop then window / 2 else hop)

-- The window's samples in use, the count of bytes that remain, the stream and the tracker.
pub record Analysis : Type 0 where
  pub samples : List ℤ
  pub remaining : ℕ
  pub stream : Stream
  pub tracker : PitchTracker

-- The window filled up behind `kept` of its samples.
abbrev pub filled : List ℤ → PitchTracker → Samples → Analysis
filled kept tracker r = record {
  samples = kept ++ r.samples;
  remaining = r.remaining;
  stream = r.stream;
  tracker = tracker;
}

-- What pitch_detect_note stores for samples and their rate.
module _ (detect : List ℤ → ℕ → PitchDetectionResult) (realloc : ℕ → Bool) where
  -- Behind the append: return its error, break, or slide the window and go on.
  abbrev pub slide :
      WavInfo
      → ℕ
      → Analysis
      → PitchTracker
      → DeviceResult × MelodyBuffer
      → (Analysis → MelodyBuffer → Option (DeviceResult × MelodyBuffer × Buzzer))
      → Buzzer
      → Option (DeviceResult × MelodyBuffer × Buzzer)
  slide info play_samples a tracker (ok, melody) next b =
      let kept = drop play_samples a.samples in
      if a.remaining == 0 && leb (length a.samples) play_samples
      then some (ok, melody, b)
      else next
          (filled kept tracker
            (read_window_samples info (length kept) (window_of info) a.remaining a.stream))
          melody
  slide info play_samples a tracker (result, melody) next b = some (result, melody, b)

  -- The loop on fuel; `none` is no fuel left.
  unfoldable pub analyse :
      ℕ → WavInfo → Analysis → MelodyBuffer → Buzzer → Option (DeviceResult × MelodyBuffer × Buzzer)
  unfolding is_stop_requested pitch_tracker_update melody_buffer_append samples_to_duration_ms
      read_window_samples samples_for_duration
  analyse zero info a melody b = none
  analyse (suc fuel) info a melody b =
      let (stopped, b') = is_stop_requested b in
      let (pitch_hz, tracker) =
        pitch_tracker_update a.tracker (detect a.samples info.sample_rate) in
      let play_samples = min (hop_of info) (length a.samples) in
      let appended =
        melody_buffer_append realloc pitch_hz (samples_to_duration_ms play_samples info.sample_rate)
          melody in
      let round =
        slide info play_samples a tracker appended (λ a' melody'. analyse fuel info a' melody' b')
          b' in
      if length a.samples == 0
      then some (ok, melody, b)
      else if stopped
      then some (ok, melody, b')
      else round

  -- Each round takes a sample at least, and a sample is a byte at least.
  unfoldable pub build_melody_from_wav :
      WavInfo → Stream → Buzzer → Option (DeviceResult × MelodyBuffer × Buzzer)
  unfolding analyse read_window_samples samples_for_duration
  build_melody_from_wav info f b =
      analyse (info.data_size + 1) info
        (filled [] pitch_tracker_init
          (read_window_samples info 0 (window_of info) info.data_size f))
        no_melody b

  abbrev pub end_music :
      Option (DeviceResult × MelodyBuffer × Buzzer) → Option (DeviceResult × Buzzer)
  end_music none = none
  end_music (some (ok, melody, b)) = play_melody melody b
  end_music (some (result, melody, b)) = some (result, stop_output false b)

  abbrev pub play_from : Option Stream → WavInfo → Buzzer → Option (DeviceResult × Buzzer)
  play_from none info b = some (device_failed, b)
  play_from (some f) info b = end_music (build_melody_from_wav info f b)

  -- Behind wav_read_header. `opened` is the stream as it was opened, so fseek starts from there.
  abbrev pub play_header :
      Stream → Option (DeviceResult × WavInfo × Stream) → Buzzer → Option (DeviceResult × Buzzer)
  play_header opened none b = none
  play_header opened (some (ok, info, f)) b = play_from (seek info.data_offset opened) info b
  play_header opened (some (result, info, f)) b = some (result, b)

  abbrev pub play_file : Option Stream → Buzzer → Option (DeviceResult × Buzzer)
  play_file none b = some (device_failed, b)
  play_file (some opened) b = play_header opened (wav_read_header (length opened.rest + 1) opened) b

  -- `fopen` gives the stream of a path, if there is such a file.
  unfoldable pub buzzer_music :
      (Bytes → Option Stream) → Option Bytes → Buzzer → Option (DeviceResult × Buzzer)
  unfolding clear_stop_request stop_output build_melody_from_wav play_melody wav_read_header
  buzzer_music fopen none b = some (invalid_value, b)
  buzzer_music fopen (some []) b = some (invalid_value, b)
  buzzer_music fopen (some (c ∷ file_path)) b =
      play_file (fopen (c ∷ file_path)) (stop_output false (clear_stop_request b))
