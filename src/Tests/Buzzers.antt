-- ===== src/Tests/Buzzers.antt =====
-- A melody, a tracker and a short file for the buzzer.
use tcpremote_device_control.Base.{
  ℕ, ◌≡◌, ◌+◌, refl, sym, ap, subst, Bool, true, false, List, [], ◌∷◌, ◌∙◌, Option, none, some,
  Bytes, codes, ℤ, pos, negsuc, arith, length, Gives, equal_bytes, ltb, true≢false, eqb_ℤ_iff, ◌<◌,
  ◌^◌, inl, inr, if◌then◌else◌,
}
use tcpremote_device_control.DeviceResult.{DeviceResult, ok}
use tcpremote_device_control.Wav.{WavInfo, no_info, wav_read_header, wav_frame_size}
use tcpremote_device_control.Wav.Reading.{Stream}
use tcpremote_device_control.Wav.Header.{wav_read_header-encode}
use tcpremote_device_control.Wav.Samples.Frames.{AreBytes}
use tcpremote_device_control.Buzzer.{Buzzer, new_buzzer}
use tcpremote_device_control.Buzzer.Cached.{IsCached}
use tcpremote_device_control.Buzzer.Melody.{MelodyBuffer, melody_buffer_append}
use tcpremote_device_control.Buzzer.Melody.Notes.{
  IsMelody, IsAppended, melody_buffer_append-IsAppended,
}
use tcpremote_device_control.Buzzer.Playback.{play_melody}
use tcpremote_device_control.Buzzer.Playback.Silence.{EndsSilent, play_melody-EndsSilent}
use tcpremote_device_control.Buzzer.Tracker.{PitchDetectionResult, PitchTracker, pitch_tracker_init}
use tcpremote_device_control.Buzzer.Tracker.Held.{track, track-held_for}
use tcpremote_device_control.Buzzer.Tracker.Heard.{AllHeard, track-AllHeard}
use tcpremote_device_control.Buzzer.Build.{build_melody_from_wav, buzzer_music}
use tcpremote_device_control.Buzzer.Build.Melody.{IsBuilt, build_melody_from_wav-IsBuilt}
use tcpremote_device_control.Buzzer.Build.Music.{IsSilent, IsMusic, IsRated, buzzer_music_silent}
use tcpremote_device_control.Tests.Waves.{mono, wave, note, samples}

-- Up to a kilobyte of memory.
abbrev realloc : ℕ → Bool
realloc n = ltb n 1024

realloc_sized : (n : ℕ) → realloc n ≡ true → n < 2 ^ 63
realloc_sized n e = ground arith

abbrev tune : MelodyBuffer
tune = record {
  notes =
      record { frequency_hz = pos 880; duration_ms = 40 }
      ∷ record { frequency_hz = pos 440; duration_ms = 20 }
      ∷ [];
  capacity = 64;
}

tune-IsMelody : IsMelody tune
tune-IsMelody = record {
  are_notes = (
    omega arith,
    omega arith,
    refl,
    λ e. absurd (440≢880 e),
    (omega arith, omega arith, refl, tt, tt),
  );
  fits = omega arith;
  allocated = omega arith;
}
  where
    440≢880 : (pos 440 ≡ pos 880) → ⊥
    440≢880 e = true≢false (sym ((eqb_ℤ_iff (pos 440) (pos 880)).1 e))

melody_buffer_append-IsAppended_example :
    IsAppended 15 tune (melody_buffer_append realloc (pos 880) 15 tune)
melody_buffer_append-IsAppended_example =
    melody_buffer_append-IsAppended realloc realloc_sized (pos 880) 15 tune tune-IsMelody
      (omega arith)

-- Another thread asks to stop before the fourth time that the lock is taken.
abbrev interrupted : Buzzer
interrupted = new_buzzer (false ∷ false ∷ false ∷ true ∷ [])

interrupted-IsCached : IsCached interrupted
interrupted-IsCached = record { cached = refl; sounding = refl; steps = tt }

play_melody-EndsSilent_example : Gives (EndsSilent 60 interrupted) (play_melody tune interrupted)
play_melody-EndsSilent_example =
    play_melody-EndsSilent tune interrupted tune-IsMelody.are_notes interrupted-IsCached

abbrev unvoiced : PitchDetectionResult
unvoiced = record { frequency_hz = pos 0; midi_note = negsuc 0; voiced = false; fallback = false }

abbrev a4 : PitchDetectionResult
a4 = record { frequency_hz = pos 440; midi_note = pos 69; voiced = true; fallback = false }

abbrev holding : PitchTracker
holding = record pitch_tracker_init {
  stable_pitch_hz = pos 440;
  stable_midi_note = pos 69;
  missing_hops = 3;
}

track-held_for_example :
    (track holding (unvoiced ∷ unvoiced ∷ unvoiced ∷ [])).0 ≡ pos 440 ∷ pos 0 ∷ pos 0 ∷ []
track-held_for_example =
    track-held_for holding (unvoiced ∷ unvoiced ∷ unvoiced ∷ []) refl (omega arith)
      (refl, (refl, (refl, tt)))

track-AllHeard_example :
    AllHeard [] (a4 ∷ unvoiced ∷ []) (track pitch_tracker_init (a4 ∷ unvoiced ∷ [])).0
track-AllHeard_example = track-AllHeard (a4 ∷ unvoiced ∷ [])

-- Every window sounds like an A.
abbrev detect : List ℤ → ℕ → PitchDetectionResult
detect window rate = a4

abbrev wave_info : WavInfo
wave_info = record mono { data_offset = 56 }

wave_header :
    wav_read_header (length wave.rest + 1) wave
    ≡ some (ok, wave_info, record { rest = samples; position = 56; seekable = true })
unfolding wav_frame_size equal_bytes
wave_header =
    wav_read_header-encode mono 52 16000 (note ∷ []) samples 58 refl (omega arith) (omega arith)
      (omega arith) ((refl, refl, omega arith), tt)

info_of : Option (DeviceResult × WavInfo × Stream) → WavInfo
info_of none = no_info
info_of (some (result, info, f)) = info

wave-IsMusic : IsMusic wave
unfolding info_of
wave-IsMusic = record {
  bytes = bytes;
  rated = λ info f e.
      subst IsRated (sym (ap info_of wave_header) ∙ ap info_of e)
        (record { rate = omega arith; rate_fits = omega arith; size_fits = omega arith });
}
  where
    bytes : AreBytes wave.rest
    bytes = ground arith

build_melody_from_wav-IsBuilt_example : Gives (IsBuilt 4 interrupted) (
    build_melody_from_wav detect realloc wave_info
      (record { rest = samples; position = 56; seekable = true })
      interrupted)
build_melody_from_wav-IsBuilt_example =
    build_melody_from_wav-IsBuilt detect realloc realloc_sized wave_info
      (record {
        supported = record {
          uncompressed = refl;
          one_or_two = inl refl;
          bits = inr refl;
          rate_pos = omega arith;
          aligned = refl;
        };
        rate = omega arith;
        rate_fits = omega arith;
      })
      (record { rest = samples; position = 56; seekable = true }) interrupted (omega arith)
      (omega arith, (omega arith, (omega arith, (omega arith, tt)))) interrupted-IsCached

abbrev folder : Bytes → Option Stream
folder path = if equal_bytes path (codes "a.wav") then some wave else none

buzzer_music_silent_example :
    Gives
      (λ r. IsSilent r.1)
      (buzzer_music detect realloc folder (some (codes "a.wav")) interrupted)
unfolding equal_bytes
buzzer_music_silent_example =
    buzzer_music_silent detect realloc realloc_sized folder 97 (codes ".wav") interrupted
      wave-IsMusic interrupted-IsCached
